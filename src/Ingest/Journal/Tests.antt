-- ===== src/Ingest/Journal/Tests.antt =====
-- Journals of concrete runs, kept in a memory store with a codec of numbers.
use anti_entropator.Prelude.{
  ◌≡◌, refl, ◌↔◌, true, false, List, [], ◌∷◌, In, lookup, ok, starts_with, strip_suffix,
  if◌then◌else◌, Text, ascii, text_eq, decimal,
}
use anti_entropator.Ingest.Journal.{
  journal_prefix, RunState, is_closure, RunOutcome, RunJournal, new, push, last_own, is_closed,
  classify_outcome, outcome, is_open_outcome, is_open,
}
use anti_entropator.Domain.FileInfo.{Timestamp}
use anti_entropator.Storage.{done, plain}
use anti_entropator.Storage.Memory.{
  Memory, empty_memory, read_object, write_memory, keys_below, memory, memory-IsObjectStore,
}
use anti_entropator.Ingest.Journal.Outcomes.{
  settles, last_state, NoClosure, is_open_iff, outcome-push_closure,
}
use anti_entropator.Ingest.Journal.Persist.{
  insert_newest, sort_newest, journal_key, save, start, load, load_entries, list, open_runs_for,
}
use anti_entropator.Ingest.Journal.Sample.{
  number_codec, encode_journal, decode_journal, number_codec_round_trip,
}
use anti_entropator.Ingest.Journal.Prefix.{IsPersisted, record_all, run-IsPersisted}
use anti_entropator.Ingest.Journal.Sorting.{NewestFirst}
use anti_entropator.Ingest.Journal.OpenRuns.{ReadOnce, ReadAlways, wanted, open_runs_for_lem}

abbrev clock : Memory → Timestamp × Memory
clock w = (100, w)

-- The second write fails.
abbrev flaky_memory : Memory
flaky_memory = record empty_memory { faults = false ∷ true ∷ [] }

abbrev two_states : List RunState
two_states = RunState.committing 1 ∷ RunState.batch_committed 1 5 ∷ []

start_succeeds :
    (start memory clock number_codec 7 (ascii "usb") 5 flaky_memory).0
    ≡ ok (new 7 (ascii "usb") 5 100)
unfolding start save write_memory
start_succeeds = refl

reconciled_closes : is_closure (RunState.reconciled 0) ≡ true
unfolding is_closure
reconciled_closes = refl

completed_own : is_closure RunState.completed ≡ false
unfolding is_closure
completed_own = refl

abbrev started_world : Memory
started_world = (start memory clock number_codec 7 (ascii "usb") 5 flaky_memory).1

run-IsPersisted_example :
    let (j', w') =
      record_all memory clock number_codec two_states (new 7 (ascii "usb") 5 100) started_world in
    IsPersisted memory-IsObjectStore.object decode_journal
      (journal_key memory clock number_codec j'.run_id)
      j'
      w'
run-IsPersisted_example =
    run-IsPersisted memory clock number_codec memory-IsObjectStore (λ w. refl)
      number_codec_round_trip 7 (ascii "usb") 5 two_states flaky_memory (new 7 (ascii "usb") 5 100)
      start_succeeds

-- A run whose batch failed.
abbrev failed_run : RunJournal
failed_run = record (new 7 (ascii "usb") 5 100) {
  history =
      record { at = 100; state = RunState.started }
      ∷ record { at = 101; state = RunState.commit_failed 1 }
      ∷ [];
}

is_open_iff_example : (is_open failed_run ≡ true) ↔ (
    NoClosure failed_run.history
    × (settles (last_state RunState.started failed_run.history) ≡ false))
is_open_iff_example = is_open_iff failed_run

outcome-push_closure_example :
    (outcome (push failed_run (RunState.reconciled 0) 102)
      ≡ (if settles (last_own failed_run) then outcome failed_run else RunOutcome.reconciled))
    × (is_open (push failed_run (RunState.reconciled 0) 102) ≡ false)
outcome-push_closure_example =
    outcome-push_closure failed_run (RunState.reconciled 0) 102 reconciled_closes

abbrev recorded_memory : Memory
recorded_memory = record empty_memory {
  objects = (ascii "_runs/7.json", plain (encode_journal failed_run)) ∷ [];
}

open_runs_for_finds :
    (open_runs_for memory clock number_codec (ascii "usb") recorded_memory).0 ≡ ok (failed_run ∷ [])
unfolding open_runs_for list load_entries load sort_newest insert_newest read_object keys_below
    starts_with strip_suffix lookup text_eq is_open outcome last_own is_closed is_closure
    classify_outcome is_open_outcome journal_key decimal new
open_runs_for_finds = refl

open_runs_for_lem_example :
    (names : List Text) × ((memory.list journal_prefix recorded_memory).0 ≡ done names)
    × NewestFirst (failed_run ∷ [])
    × ((j : RunJournal)
        → (In j (failed_run ∷ [])
            → (wanted (ascii "usb") j ≡ true)
              × ReadOnce memory clock number_codec memory-IsObjectStore names recorded_memory j)
          × (ReadAlways memory clock number_codec memory-IsObjectStore names recorded_memory j
              → wanted (ascii "usb") j ≡ true
              → In j (failed_run ∷ [])))
open_runs_for_lem_example =
    open_runs_for_lem memory clock number_codec memory-IsObjectStore (ascii "usb") recorded_memory
      (failed_run ∷ []) open_runs_for_finds
