-- ===== src/Ingest/Run/Ending.antt =====
-- src/ingest/mod.rs: the last steps of a run, its terminal entry and the closing of earlier open runs.
use anti_entropator.Prelude.{
  ℕ, ◌+◌, Bool, true, false, Option, none, some, List, length, Error, ◌==◌, if◌then◌else◌, u64,
  Text,
}
use anti_entropator.Ingest.Journal.{RunState, RunJournal}
use anti_entropator.Ingest.Journal.Persist.{Codec, record_transition}
use anti_entropator.Ingest.Run.{JournaledCommitter, supersede_open_runs}
use anti_entropator.Domain.FileInfo.{Timestamp}
use anti_entropator.Domain.Observation.{Uuid}
use anti_entropator.Storage.{Operator}

unfoldable pub terminal_state :
    (commit_failure : Option Error) → (batches_committed : ℕ) → (errors : List Text) → RunState
terminal_state (some e) batches_committed errors =
    RunState.commit_failed (u64 (batches_committed + 1))
terminal_state none batches_committed errors =
    if u64 (length errors) == 0
    then RunState.completed
    else RunState.incomplete (u64 (length errors))

-- `terminal == RunState::Completed`
unfoldable pub is_completed : RunState → Bool
is_completed RunState.completed = true
is_completed _ = false

module _ {World Writer : Type 0} (op : Operator World Writer) (now : World → Timestamp × World)
    (codec : Codec) where
  -- There is a committer only in a mode that writes, which has an operator.
  unfoldable pub finish_run :
      Option JournaledCommitter
      → (commit_failure : Option Error) → (batches_committed : ℕ) → (errors : List Text)
      → (open_runs : List RunJournal) → (run_id : Uuid) → World
      → World
  finish_run none commit_failure batches_committed errors open_runs run_id w = w
  finish_run (some committer) commit_failure batches_committed errors open_runs run_id w =
      let terminal = terminal_state commit_failure batches_committed errors in
      let (journal, w') = record_transition op now codec terminal committer.journal w in
      if is_completed terminal then supersede_open_runs op now codec open_runs run_id w' else w'
