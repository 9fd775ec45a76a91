-- ===== src/Ingest/Run.antt =====
-- src/ingest/mod.rs: the committer that journals every batch, and what a run does about the open runs
-- before it. The catalog's commit, its row count and the printing are not modelled: the former two are
-- parameters.
pub mod Journaled
pub mod Reconcile
pub mod Ending
pub mod Superseded
mod Tests
use anti_entropator.Prelude.Io.{Io, pure, with_context_io, ◌>>=◌, ◌>>◌}
use anti_entropator.Prelude.{
  ℕ, ◌+◌, Bool, true, false, List, [], ◌∷◌, ◌++◌, length, Result, ok, err, u64, Text, ascii,
}
use anti_entropator.Ingest.Journal.{
  RunState, committing, batch_committed, reconciled, superseded_by, RunJournal,
}
use anti_entropator.Domain.FileInfo.{Timestamp, FileInfo}
use anti_entropator.Domain.Observation.{Uuid}
use anti_entropator.Storage.{Operator}
use anti_entropator.Ingest.Journal.Persist.{Codec, record_transition, open_runs_for, close}

-- The journal is behind a mutex that is never contended.
pub record JournaledCommitter : Type 0 where
  pub journal : RunJournal
  pub batches : ℕ  -- AtomicU64

unfoldable pub new_committer : RunJournal → JournaledCommitter
new_committer j = record { journal = j; batches = 0 }

module _ {World Writer : Type 0} (op : Operator World Writer) (now : World → Timestamp × World)
    (codec : Codec) where
  -- `JournaledCommitter::commit` around the inner committer.
  unfoldable pub commit :
      (inner : List FileInfo → Io World (Unit {0}))
      → List FileInfo
      → JournaledCommitter
      → World
      → (Result (Unit {0}) × JournaledCommitter) × World
  commit inner rows c w =
      let batch = u64 (c.batches + 1) in
      let (j, w1) = record_transition op now codec (RunState.committing batch) c.journal w in
      let (r, w2) = inner rows w1 in
      elim r [
        | err e ↦ ((err e, record { journal = j; batches = batch }), w2)
        | ok u ↦
            let (j', w3) =
              record_transition op now codec (RunState.batch_committed batch (u64 (length rows))) j
                w2 in
            ((ok tt, record { journal = j'; batches = batch }), w3)
      ]

  abbrev with_journal : RunJournal → Result (Unit {0}) → Result RunJournal
  with_journal j (ok u) = ok j
  with_journal j (err e) = err e

  abbrev close_io : RunJournal → RunState → Io World RunJournal
  close_io j state w =
      let (closed, w') = close op now codec j state w in (with_journal closed.1 closed.0, w')

  -- One round of the loop of `report_open_runs`.
  unfoldable pub report_run :
      (count_rows : Uuid → Io World ℕ) → (reconcile : Bool) → RunJournal → Io World RunJournal
  report_run count_rows false j = pure j
  report_run count_rows true j = do
    rows ← count_rows j.run_id
    with_context_io (ascii "Cannot reconcile run " ++ codec.show_uuid j.run_id)
        (close_io j (RunState.reconciled rows))

  unfoldable pub report_runs :
      (count_rows : Uuid → Io World ℕ)
      → (reconcile : Bool) → List RunJournal
      → Io World (List RunJournal)
  report_runs count_rows reconcile [] = pure []
  report_runs count_rows reconcile (j ∷ js) = do
    k ← report_run count_rows reconcile j
    ks ← report_runs count_rows reconcile js
    pure (k ∷ ks)

  unfoldable pub report_open_runs :
      (count_rows : Uuid → Io World ℕ)
      → (source_id : Text) → (reconcile : Bool) → Io World (List RunJournal)
  report_open_runs count_rows source_id reconcile = do
    found ←
        with_context_io (ascii "Cannot read run journals for this source")
          (open_runs_for op now codec source_id)
    report_runs count_rows reconcile found

  -- Best effort: a journal that cannot be closed is logged.
  unfoldable pub supersede_open_runs : List RunJournal → (by : Uuid) → World → World
  supersede_open_runs [] by w = w
  supersede_open_runs (j ∷ js) by w =
      let (r, w') = close op now codec j (RunState.superseded_by by) w in
      supersede_open_runs js by w'
