-- ===== src/Ingest/Journal.antt =====
-- src/ingest/journal.rs: the durable journal of an ingest run. This file has the journal as a value;
-- Journal.Persist has the journals in the object store.
pub mod Outcomes
pub mod Persist
pub mod Saved
pub mod Prefix
pub mod Sample
pub mod Sorting
pub mod OpenRuns
mod Tests
use anti_entropator.Prelude.{
  ℕ, ◌+◌, ◌/◌, Bool, true, false, Option, none, some, List, [], ◌∷◌, ◌++◌, length, any, filter,
  if◌then◌else◌, u64, Text, ascii, decimal,
}
use anti_entropator.Domain.FileInfo.{Timestamp}
use anti_entropator.Domain.Observation.{Uuid}

abbrev pub journal_prefix : Text
journal_prefix = ascii "_runs/"

abbrev pub journal_format_version : ℕ
journal_format_version = 1

pub data RunState : Type 0 where
  started : RunState
  committing : (batch : ℕ) → RunState
  batch_committed : (batch rows : ℕ) → RunState
  completed : RunState
  incomplete : (failed : ℕ) → RunState
  commit_failed : (batch : ℕ) → RunState
  reconciled : (rows_in_catalog : ℕ) → RunState
  superseded_by : (run_id : Uuid) → RunState

unfoldable pub is_closure : RunState → Bool
is_closure (reconciled rows) = true
is_closure (superseded_by run_id) = true
is_closure _ = false

-- `Uuid`'s `Display` is the `uuid` crate's.
unfoldable pub label : (show_uuid : Uuid → Text) → RunState → Text
label show_uuid started = ascii "started"
label show_uuid (committing batch) = ascii "committing batch " ++ decimal batch
label show_uuid (batch_committed batch rows) =
    ascii "batch " ++ decimal batch ++ ascii " committed (" ++ decimal rows ++ ascii " rows)"
label show_uuid completed = ascii "completed"
label show_uuid (incomplete failed) = ascii "incomplete (" ++ decimal failed ++ ascii " failed)"
label show_uuid (commit_failed batch) = ascii "commit failed at batch " ++ decimal batch
label show_uuid (reconciled rows) =
    ascii "reconciled (" ++ decimal rows ++ ascii " rows in catalog)"
label show_uuid (superseded_by run_id) = ascii "superseded by " ++ show_uuid run_id

pub record Transition : Type 0 where
  pub at : Timestamp
  pub state : RunState

pub data RunOutcome : Type 0 where
  completed incomplete commit_failed interrupted reconciled : RunOutcome

pub record RunJournal : Type 0 where
  pub format_version : ℕ
  pub run_id : Uuid
  pub source_id : Text
  pub started_at : Timestamp
  pub updated_at : Timestamp
  pub candidates : ℕ  -- u64
  pub history : List Transition

unfoldable pub new : Uuid → Text → ℕ → Timestamp → RunJournal
new run_id source_id candidates now = record {
  format_version = journal_format_version;
  run_id = run_id;
  source_id = source_id;
  started_at = now;
  updated_at = now;
  candidates = candidates;
  history = record { at = now; state = RunState.started } ∷ [];
}

unfoldable pub push : RunJournal → RunState → Timestamp → RunJournal
push j state now = record j {
  updated_at = now;
  history = j.history ++ record { at = now; state = state } ∷ [];
}

-- `iter().rev().map(…).find(…)`: the last entry that is no closure, if there is one.
abbrev last_own_of : RunState → List Transition → RunState
last_own_of found [] = found
last_own_of found (t ∷ ts) = last_own_of (if is_closure t.state then found else t.state) ts

unfoldable pub last_own : RunJournal → RunState
last_own j = last_own_of RunState.started j.history

unfoldable pub is_closed : RunJournal → Bool
is_closed j = any (λ t. is_closure t.state) j.history

-- The `match` of `outcome`, with its guard on the closure entries.
unfoldable pub classify_outcome : RunState → Bool → RunOutcome
classify_outcome RunState.completed closed = RunOutcome.completed
classify_outcome (RunState.incomplete failed) closed = RunOutcome.incomplete
classify_outcome (RunState.commit_failed batch) closed =
    if closed then RunOutcome.reconciled else RunOutcome.commit_failed
classify_outcome _ closed = if closed then RunOutcome.reconciled else RunOutcome.interrupted

unfoldable pub outcome : RunJournal → RunOutcome
outcome j = classify_outcome (last_own j) (is_closed j)

unfoldable pub is_open_outcome : RunOutcome → Bool
is_open_outcome RunOutcome.interrupted = true
is_open_outcome RunOutcome.commit_failed = true
is_open_outcome _ = false

unfoldable pub is_open : RunJournal → Bool
is_open j = is_open_outcome (outcome j)

abbrev pub committed_rows : RunState → Option ℕ
committed_rows (RunState.batch_committed batch rows) = some rows
committed_rows _ = none

abbrev pub add_rows : Option ℕ → ℕ → ℕ
add_rows none n = n
add_rows (some rows) n = u64 (rows + n)

abbrev pub rows_of : List Transition → ℕ
rows_of [] = 0
rows_of (t ∷ ts) = add_rows (committed_rows t.state) (rows_of ts)

unfoldable pub rows_committed : RunJournal → ℕ
rows_committed j = rows_of j.history

abbrev is_batch_committed : RunState → Bool
is_batch_committed (RunState.batch_committed batch rows) = true
is_batch_committed _ = false

unfoldable pub batches_committed : RunJournal → ℕ
batches_committed j = length (filter (λ t. is_batch_committed t.state) j.history)
