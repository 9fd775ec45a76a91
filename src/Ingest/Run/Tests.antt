-- ===== src/Ingest/Run/Tests.antt =====
-- A journaled commit and a reconciliation, with a catalog that answers as it is told.
use anti_entropator.Prelude.Io.{Io, pure}
use anti_entropator.Prelude.{
  ℕ, ◌+◌, ◌≡◌, refl, ◌⊎◌, true, some, List, [], ◌∷◌, All, lookup, Error, ok, err, starts_with,
  strip_suffix, u64, ascii, text_eq, decimal,
}
use anti_entropator.Ingest.Run.{
  supersede_open_runs, JournaledCommitter, new_committer, commit, report_run, report_runs,
  report_open_runs,
}
use anti_entropator.Ingest.Journal.{
  RunState, is_closure, RunJournal, new, push, last_own, is_closed, classify_outcome, outcome,
  is_open_outcome, is_open, rows_committed,
}
use anti_entropator.Domain.FileInfo.{Timestamp, FileInfo}
use anti_entropator.Domain.Observation.{Uuid}
use anti_entropator.Storage.{plain}
use anti_entropator.Storage.Memory.{
  Memory, empty_memory, read_object, write_memory, keys_below, memory,
}
use anti_entropator.Ingest.Journal.Persist.{
  Codec, insert_newest, sort_newest, journal_key, save, load, load_entries, list, open_runs_for,
  close,
}
use anti_entropator.Ingest.Run.Journaled.{committing_world, commit_lem}
use anti_entropator.Ingest.Journal.Sample.{number_codec, encode_journal, number_codec_round_trip}
use anti_entropator.Ingest.Run.Ending.{finish_run, terminal_state, is_completed}
use anti_entropator.Ingest.Run.Superseded.{finish_run-Touches}
use anti_entropator.Ingest.Journal.Persist.{record_transition}
use anti_entropator.Storage.Memory.{memory-IsObjectStore}
use anti_entropator.Prelude.{Result, insert, Option, none, In, Text, length}
use anti_entropator.Ingest.Run.Reconcile.{IsSettled, report_open_runs_lem}

abbrev mute_codec : Codec
mute_codec = record {
  encode = λ j. ok [];
  decode = λ b. ok (new 7 (ascii "usb") 5 100);
  show_uuid = decimal;
  parse_uuid = λ t. some 7;
}

abbrev clock : Memory → Timestamp × Memory
clock w = (100, w)

abbrev acknowledge : List FileInfo → Io Memory (Unit {0})
acknowledge rows = pure tt

abbrev committer : JournaledCommitter
committer = new_committer (new 7 (ascii "usb") 5 100)

abbrev acknowledged : Result (Unit {0})
acknowledged =
    (acknowledge [] (committing_world memory clock mute_codec acknowledge committer empty_memory)).0

commit_lem_example :
    let ((r, c'), w') = commit memory clock mute_codec acknowledge [] committer empty_memory in
    ((acknowledged ≡ ok tt)
      × (r ≡ ok tt)
      × (rows_committed c'.journal ≡ u64 (rows_committed committer.journal + 0)))
    ⊎ ((e : Error) × (acknowledged ≡ err e)
        × (r ≡ err e)
        × (rows_committed c'.journal ≡ rows_committed committer.journal)
        × (last_own c'.journal ≡ RunState.committing c'.batches))
commit_lem_example = commit_lem memory clock mute_codec acknowledge [] committer empty_memory

abbrev count_three : Uuid → Io Memory ℕ
count_three id = pure 3

-- A run that was interrupted.
abbrev interrupted_run : RunJournal
interrupted_run = new 7 (ascii "usb") 5 100

-- The store holds its journal.
abbrev interrupted_memory : Memory
interrupted_memory = record empty_memory {
  objects = (ascii "_runs/7.json", plain (encode_journal interrupted_run)) ∷ [];
}

abbrev reconciled_run : RunJournal
reconciled_run = push interrupted_run (RunState.reconciled 3) 100

report_open_runs_runs :
    (report_open_runs memory clock number_codec count_three (ascii "usb") true interrupted_memory).0
    ≡ ok (reconciled_run ∷ [])
unfolding report_open_runs report_runs report_run open_runs_for list load_entries load sort_newest
    insert_newest read_object keys_below starts_with strip_suffix lookup text_eq is_open outcome
    last_own is_closed is_closure classify_outcome is_open_outcome journal_key decimal new close
    save write_memory push
report_open_runs_runs = refl

report_open_runs_lem_example :
    (found : List RunJournal) × ((open_runs_for memory clock number_codec
        (ascii "usb")
        interrupted_memory).0
      ≡ ok found)
    × All
        (λ j.
          IsSettled memory clock number_codec memory-IsObjectStore
            (λ w. refl)
            number_codec_round_trip
            count_three
            (λ id w. refl)
            (journal_key memory clock number_codec j.run_id)
            (report_open_runs memory clock number_codec count_three
              (ascii "usb")
              true
              interrupted_memory).1)
        found
report_open_runs_lem_example =
    report_open_runs_lem memory clock number_codec memory-IsObjectStore (λ w. refl)
      number_codec_round_trip count_three (λ id w. refl) (ascii "usb") interrupted_memory
      (reconciled_run ∷ []) report_open_runs_runs

abbrev no_failure : Option Error
no_failure = none

abbrev no_errors : List Text
no_errors = []

-- An earlier run of the source that was interrupted.
abbrev earlier_run : RunJournal
earlier_run = new 3 (ascii "usb") 5 90

-- The end of a run without errors writes its own journal and the earlier one.
finish_run_closes :
    let w : Memory =
      finish_run memory clock mute_codec
        (some committer)
        none
        2
        []
        (earlier_run ∷ [])
        7
        empty_memory in
    (lookup (ascii "_runs/7.json") w.objects ≡ some (plain []))
    × (lookup (ascii "_runs/3.json") w.objects ≡ some (plain []))
unfolding finish_run terminal_state is_completed record_transition supersede_open_runs close save
    write_memory push journal_key decimal new new_committer lookup insert text_eq
finish_run_closes = (refl, refl)

-- After an error it leaves the earlier journal alone.
finish_run_leaves :
    let w : Memory =
      finish_run memory clock mute_codec
        (some committer)
        none
        2
        (ascii "a: gone" ∷ [])
        (earlier_run ∷ [])
        7
        empty_memory in
    (lookup (ascii "_runs/7.json") w.objects ≡ some (plain []))
    × (lookup (ascii "_runs/3.json") w.objects ≡ none)
unfolding finish_run terminal_state is_completed record_transition supersede_open_runs close save
    write_memory push journal_key decimal new new_committer lookup insert text_eq
finish_run_leaves = (refl, refl)

finish_run-Touches_example :
    let w : Memory =
      finish_run memory clock mute_codec
        (some committer)
        none
        2
        []
        (earlier_run ∷ [])
        7
        empty_memory in
    (memory-IsObjectStore.object w (ascii "_runs/3.json")
      ≡ memory-IsObjectStore.object empty_memory (ascii "_runs/3.json"))
    ⊎ (journal_key memory clock mute_codec committer.journal.run_id ≡ ascii "_runs/3.json")
    ⊎ ((no_failure ≡ none)
        × (u64 (length no_errors) ≡ 0)
        × ((j : RunJournal) × In j (earlier_run ∷ [])
            × (journal_key memory clock mute_codec j.run_id ≡ ascii "_runs/3.json")))
finish_run-Touches_example =
    finish_run-Touches memory clock mute_codec memory-IsObjectStore (λ w. refl) committer no_failure
      2 no_errors (earlier_run ∷ []) 7 empty_memory (ascii "_runs/3.json")
