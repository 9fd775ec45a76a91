-- ===== src/Ingest/Output/Outcome.antt =====
-- The outcome of an ingest: what makes the command fail, and what its summary says.
use anti_entropator.Prelude.{
  ℕ, suc, ◌^◌, ◌<◌, ◌≡◌, refl, ◌≢◌, ◌↔◌, ◌⊎◌, inl, inr, Bool, true, false, Option, none, some, List,
  [], ◌∷◌, arith, length, Error, ok, ltb, u64, Text,
}
use anti_entropator.Ingest.Output.{
  IngestMode, IngestStatus, CatalogCommitStatus, IngestCounts, CommitCounts, status, IngestSummary,
  summary_status, build, outcome_error,
}

some_failed : (n : ℕ) → suc n < 2 ^ 64 → ltb 0 (u64 (suc n)) ≡ true
some_failed n l = ground arith

-- For a summary that `build` makes of fewer than 2^64 errors, the command succeeds exactly when no
-- commit failed and no file failed.
pub outcome_error-ok :
    (mode : IngestMode) (run_id : ℕ) (source_id : Text) (counts : IngestCounts)
    (commit : CommitCounts) (errors : List Text) (failure : Option Error)
    → length errors < 2 ^ 64
    → (outcome_error (build mode run_id source_id counts commit errors) failure ≡ ok tt)
      ↔ ((failure ≡ none) × (errors ≡ []))
unfolding outcome_error build
outcome_error-ok mode run_id source_id counts commit errors (some e) l =
    ((λ h. absurd cc), λ h. absurd cc)
outcome_error-ok mode run_id source_id counts commit [] none l = ((λ h. (refl, refl)), λ h. refl)
outcome_error-ok mode run_id source_id counts commit (x ∷ xs) none l =
    rw (some_failed (length xs) l) ((λ h. absurd cc), λ h. let e : x ∷ xs ≡ [] = h.1 in absurd cc)

abbrev is_failure : CatalogCommitStatus → Bool
is_failure CatalogCommitStatus.failed = true
is_failure _ = false

status_failed :
    (c : CommitCounts)
    → (status c ≡ CatalogCommitStatus.failed)
      ⊎ ((c.batches_failed ≡ 0) × (is_failure (status c) ≡ false))
unfolding status
status_failed c = ground arith

status_table :
    (c : CatalogCommitStatus) (errors : List Text)
    → length errors < 2 ^ 64
    → is_failure c ≡ false
    → ((summary_status c (u64 (length errors)) ≡ IngestStatus.success) ↔ (errors ≡ []))
      × (summary_status c (u64 (length errors)) ≢ IngestStatus.commit_failed)
status_table CatalogCommitStatus.failed errors l f = absurd cc
status_table CatalogCommitStatus.succeeded [] l f = (((λ h. refl), λ h. refl), λ h. cc)
status_table CatalogCommitStatus.not_attempted [] l f = (((λ h. refl), λ h. refl), λ h. cc)
status_table CatalogCommitStatus.succeeded (x ∷ xs) l f =
    rw (some_failed (length xs) l) (((λ h. absurd cc), λ h. absurd cc), λ h. cc)
status_table CatalogCommitStatus.not_attempted (x ∷ xs) l f =
    rw (some_failed (length xs) l) (((λ h. absurd cc), λ h. absurd cc), λ h. cc)

failed_positive : (c : CommitCounts) → status c ≡ CatalogCommitStatus.failed → 0 < c.batches_failed
unfolding status
failed_positive c h = ground arith

-- The status of a summary of fewer than 2^64 errors: a failed batch outweighs failed files, and only
-- a run with neither is a success.
pub status-build :
    (mode : IngestMode) (run_id : ℕ) (source_id : Text) (counts : IngestCounts)
    (commit : CommitCounts) (errors : List Text)
    → length errors < 2 ^ 64
    → let s : IngestSummary = build mode run_id source_id counts commit errors in
      ((s.status ≡ IngestStatus.success) ↔ ((commit.batches_failed ≡ 0) × (errors ≡ [])))
      × ((s.status ≡ IngestStatus.commit_failed) ↔ (0 < commit.batches_failed))
unfolding build
status-build mode run_id source_id counts commit errors l = elim (status_failed commit) [
  | inl h ↦
      let positive : 0 < commit.batches_failed = failed_positive commit h in
      rw h (
        ((λ e. absurd cc), λ e. absurd (omega (arith, positive, e.0))),
        ((λ e. positive), λ e. refl),
      )
  | inr (z, h) ↦
      let (good, other) = status_table (status commit) errors l h in
      (
        ((λ e. (z, good.0 e)), λ e. good.1 e.1),
        ((λ e. absurd (other e)), λ e. absurd (omega (arith, e, z))),
      )
]
