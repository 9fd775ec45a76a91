-- ===== src/Ingest/Run/Journaled.antt =====
-- What the journal of a run says of the batches that the catalog acknowledged.
use anti_entropator.Prelude.Io.{Io}
use anti_entropator.Prelude.{
  ℕ, ◌+◌, ◌≡◌, refl, ap, ◌∙◌, ◌⊎◌, inl, inr, false, Option, none, some, List, [], ◌∷◌, ◌++◌, arith,
  length, Error, Result, ok, err, u64,
}
use anti_entropator.Ingest.Run.{JournaledCommitter, commit}
use anti_entropator.Ingest.Journal.{
  RunState, is_closure, Transition, RunJournal, push, last_own, committed_rows, add_rows, rows_of,
  rows_committed,
}
use anti_entropator.Domain.FileInfo.{Timestamp, FileInfo}
use anti_entropator.Storage.{Operator}
use anti_entropator.Ingest.Journal.Persist.{Codec, record_transition}
use anti_entropator.Ingest.Journal.Outcomes.{last_own-push}

add_rows_shift :
    (o : Option ℕ) (a b n : ℕ) → a ≡ u64 (b + n) → add_rows o a ≡ u64 (add_rows o b + n)
add_rows_shift none a b n e = e
add_rows_shift (some r) a b n e = omega (arith, e)

rows_of-append :
    (ts : List Transition) (batch rows at : ℕ)
    → rows_of (ts ++ record { at = at; state = RunState.batch_committed batch rows } ∷ [])
      ≡ u64 (rows_of ts + rows)
rows_of-append [] batch rows at = omega arith
rows_of-append (t ∷ ts) batch rows at =
    add_rows_shift (committed_rows t.state)
      (rows_of (ts ++ record { at = at; state = RunState.batch_committed batch rows } ∷ []))
      (rows_of ts) rows (rows_of-append ts batch rows at)

rows_of_kept :
    (ts : List Transition) (batch at : ℕ)
    → rows_of (ts ++ record { at = at; state = RunState.committing batch } ∷ []) ≡ rows_of ts
rows_of_kept [] batch at = refl
rows_of_kept (t ∷ ts) batch at =
    ap (λ (n : ℕ). add_rows (committed_rows t.state) n) (rows_of_kept ts batch at)

rows-push_committing :
    (j : RunJournal) (batch at : ℕ)
    → rows_committed (push j (RunState.committing batch) at) ≡ rows_committed j
unfolding rows_committed push
rows-push_committing j batch at = rows_of_kept j.history batch at

rows-push_committed :
    (j : RunJournal) (batch rows at : ℕ)
    → rows_committed (push j (RunState.batch_committed batch rows) at)
      ≡ u64 (rows_committed j + rows)
unfolding rows_committed push
rows-push_committed j batch rows at = rows_of-append j.history batch rows at

own_committing : (batch : ℕ) → is_closure (RunState.committing batch) ≡ false
unfolding is_closure
own_committing batch = refl

module _ {World Writer : Type 0} (op : Operator World Writer) (now : World → Timestamp × World)
    (codec : Codec) (inner : List FileInfo → Io World (Unit {0})) where
  -- The world in which the catalog's commit is called.
  abbrev pub committing_world : JournaledCommitter → World → World
  committing_world c w =
      (record_transition op now codec (RunState.committing (u64 (c.batches + 1))) c.journal w).1

  commit_cases :
      (rows : List FileInfo) (c : JournaledCommitter) (w : World) (r : Result (Unit {0}))
      → (inner rows (committing_world c w)).0 ≡ r
      → let ((q, c'), w') = commit op now codec inner rows c w in
        ((r ≡ ok tt)
          × (q ≡ ok tt)
          × (rows_committed c'.journal ≡ u64 (rows_committed c.journal + u64 (length rows))))
        ⊎ ((e : Error) × (r ≡ err e)
            × (q ≡ err e)
            × (rows_committed c'.journal ≡ rows_committed c.journal)
            × (last_own c'.journal ≡ RunState.committing c'.batches))
  unfolding commit record_transition
  commit_cases rows c w (ok u) h =
      let batch : ℕ = u64 (c.batches + 1) in
      let j : RunJournal = push c.journal (RunState.committing batch) (now w).0 in
      inl (
        refl,
        rw (commit, h) refl,
        rw (commit, h)
            (rows-push_committed j batch (u64 (length rows)) _
              ∙ rw (rows-push_committing c.journal batch (now w).0) refl),
      )
  commit_cases rows c w (err e) h =
      let batch : ℕ = u64 (c.batches + 1) in
      inr (
        e,
        refl,
        rw (commit, h) refl,
        rw (commit, h) (rows-push_committing c.journal batch (now w).0),
        rw (commit, h)
            (last_own-push c.journal (RunState.committing batch) (now w).0
              ∙ rw (own_committing batch) refl),
      )

  -- Called with its entry recorded, the catalog acknowledges the batch, the commit succeeds, and
  -- the count of committed rows in the journal grows by the rows of the batch, modulo 2^64; or the
  -- catalog fails, the commit fails with its error, the count stays, and the last entry of the run
  -- itself is the batch that was being committed.
  pub commit_lem :
      (rows : List FileInfo) (c : JournaledCommitter) (w : World)
      → let ((r, c'), w') = commit op now codec inner rows c w in
        (((inner rows (committing_world c w)).0 ≡ ok tt)
          × (r ≡ ok tt)
          × (rows_committed c'.journal ≡ u64 (rows_committed c.journal + u64 (length rows))))
        ⊎ ((e : Error) × ((inner rows (committing_world c w)).0 ≡ err e)
            × (r ≡ err e)
            × (rows_committed c'.journal ≡ rows_committed c.journal)
            × (last_own c'.journal ≡ RunState.committing c'.batches))
  commit_lem rows c w = commit_cases rows c w (inner rows (committing_world c w)).0 refl
