-- ===== src/Ingest/Journal/Persist.antt =====
-- The journals in the object store: `JournalWriter`, `save`, `load`, `list`, `open_runs_for`, `close`.
-- The clock and JSON are not part of the program: `now` and the codec are parameters.
use anti_entropator.Prelude.{
  ℕ, ◌&&◌, Option, none, some, List, [], ◌∷◌, ◌++◌, filter, Result, ok, err, with_context,
  strip_suffix, leb, if◌then◌else◌, Bytes, Text, ascii, text_eq,
}
use anti_entropator.Ingest.Journal.{journal_prefix, RunState, RunJournal, new, push, is_open}
use anti_entropator.Domain.FileInfo.{Timestamp}
use anti_entropator.Domain.Observation.{Uuid}
use anti_entropator.Storage.{store_io, Operator}
use anti_entropator.Prelude.Io.{Io, pure, lift, ◌>>=◌, ◌>>◌, with_context_io}

-- `serde_json` on journals, and the text form of a `Uuid`.
pub record Codec : Type 0 where
  pub encode : RunJournal → Result Bytes
  pub decode : Bytes → Result RunJournal
  pub show_uuid : Uuid → Text
  pub parse_uuid : Text → Option Uuid

-- Stable, the later start first.
unfoldable pub insert_newest : RunJournal → List RunJournal → List RunJournal
insert_newest j [] = j ∷ []
insert_newest j (k ∷ ks) =
    let rest = insert_newest j ks in if leb k.started_at j.started_at then j ∷ k ∷ ks else k ∷ rest

unfoldable pub sort_newest : List RunJournal → List RunJournal
sort_newest [] = []
sort_newest (j ∷ js) = insert_newest j (sort_newest js)

module _ {World Writer : Type 0} (op : Operator World Writer) (now : World → Timestamp × World)
    (codec : Codec) where
  open codec use {encode, decode, show_uuid, parse_uuid}

  unfoldable pub journal_key : Uuid → Text
  journal_key run_id = journal_prefix ++ show_uuid run_id ++ ascii ".json"

  unfoldable pub save : RunJournal → Io World (Unit {0})
  save j = do
    body ← lift (with_context (ascii "Failed to serialize run journal") (encode j))
    with_context_io (ascii "Failed to write " ++ journal_key j.run_id)
        (store_io (op.write (journal_key j.run_id) body))

  -- `JournalWriter::start`: a run that cannot record its start must not start.
  unfoldable pub start : Uuid → Text → ℕ → Io World RunJournal
  start run_id source_id candidates w =
      let (t, w') = now w in
      (do
        let journal = new run_id source_id candidates t
        with_context_io (ascii "Cannot write the run journal; refusing to start an unrecorded run")
            (save journal)
        pure journal)
        w'

  -- `JournalWriter::record`: a failed write is logged, and the journal in memory goes on.
  unfoldable pub record_transition : RunState → RunJournal → World → RunJournal × World
  record_transition state j w =
      let (t, w') = now w in let j' = push j state t in (j', (save j' w').1)

  unfoldable pub load : Uuid → Io World RunJournal
  load run_id = do
    bytes ←
        with_context_io (ascii "No journal for run " ++ show_uuid run_id)
          (store_io (op.read (journal_key run_id)))
    lift (with_context (ascii "Malformed journal " ++ journal_key run_id) (decode bytes))

  abbrev pub entry_run : Text → Option Uuid
  entry_run name = elim (strip_suffix name (ascii ".json")) [ none ↦ none | some s ↦ parse_uuid s ]

  abbrev pub cons_ok : Result RunJournal → List RunJournal → List RunJournal
  cons_ok (ok j) js = j ∷ js
  cons_ok (err e) js = js

  -- The loop of `list` over the entries: other names and unreadable journals are skipped.
  unfoldable pub load_entries : List Text → World → List RunJournal × World
  load_entries [] w = ([], w)
  load_entries (name ∷ names) w = elim (entry_run name) [
    | none ↦ load_entries names w
    | some id ↦ let (js, w') = load_entries names (load id w).1 in (cons_ok (load id w).0 js, w')
  ]

  unfoldable pub list : Io World (List RunJournal)
  list = do
    entries ←
        with_context_io (ascii "Failed to list run journals") (store_io (op.list journal_prefix))
    λ w. let (js, w') = load_entries entries w in (ok (sort_newest js), w')

  unfoldable pub open_runs_for : Text → Io World (List RunJournal)
  open_runs_for source_id = do
    journals ← list
    pure (filter (λ j. text_eq j.source_id source_id && is_open j) journals)

  -- `close`: the journal in memory has the entry also where the write failed. The callers pass
  -- closure states only, as the source's debug assertion says.
  unfoldable pub close : RunJournal → RunState → World → (Result (Unit {0}) × RunJournal) × World
  close j state w =
      let (t, w') = now w in let j' = push j state t in let (r, w'') = save j' w' in ((r, j'), w'')
