-- ===== src/Ingest/Pipeline/Accounting.antt =====
-- What the counts of an ingest add up to.
use anti_entropator.Prelude.{
  ℕ, ◌+◌, ◌≡◌, refl, ap, ◌∙◌, ◌≢◌, inl, inr, Bool, Option, none, some, List, [], ◌∷◌, ◌++◌, arith,
  length, length-append, Error, ok, err, Bool-cases, u64, Text, ascii,
}
use anti_entropator.Ingest.Pipeline.{
  BlobState, IngestOutcome, PipelineConfig, tally, Producer, starting, finished, Pipeline, Joined,
  crashed, send_row, take_joined, receive, receive_end, flush_ok, flush_err, Step, start_file,
  start_none, join_file, join_none, send, send_fails, recv, recv_none, commit_batch, commit_tail,
  commit_fails, Reached, launched, stepped,
}
use anti_entropator.Ingest.Output.{IngestCounts}
use anti_entropator.Domain.FileInfo.{FilePath, FileInfo}

-- The candidates by what became of them so far.
abbrev pub accounted : Pipeline → ℕ
accounted s =
    s.counts.observed + s.counts.unchanged + length s.errors + length s.in_flight + length s.pending

pub record IsAccounted (files : List FilePath) (s : Pipeline) : Type 0 where
  pub total : u64 (accounted s) ≡ u64 (length files)
  pub settled :
      s.producer ≡ finished → (s.in_flight ≡ []) × (s.counts.skipped ≡ u64 (length s.pending))

module _ (cfg : PipelineConfig) (has_committer : Bool) (show : Error → Text) where
  tally_total :
      (c : IngestCounts) (o : IngestOutcome)
      → u64 ((tally c o).0.observed + (tally c o).0.unchanged) ≡ u64 (c.observed + c.unchanged + 1)
  unfolding tally
  tally_total c (IngestOutcome.observed info BlobState.uploaded) = omega arith
  tally_total c (IngestOutcome.observed info BlobState.existing) = omega arith
  tally_total c (IngestOutcome.unchanged BlobState.uploaded) = omega arith
  tally_total c (IngestOutcome.unchanged BlobState.existing) = omega arith

  send_row_total :
      (o : Option FileInfo) (s : Pipeline)
      → accounted (send_row cfg has_committer show o s) ≡ accounted s
  send_row_total none s = refl
  send_row_total (some row) s = elim (Bool-cases has_committer) [
    | inl h ↦ rw h refl
    | inr h ↦ rw h refl
  ]

  take_joined_total :
      (path : FilePath) (j : Joined) (s : Pipeline)
      → u64 (accounted (take_joined cfg has_committer show path j s)) ≡ u64 (accounted s + 1)
  unfolding take_joined
  take_joined_total path (crashed e) s =
      omega (arith, length-append s.errors ((ascii "worker task failed: " ++ e) ∷ []))
  take_joined_total path (Joined.returned (err e)) s =
      omega (arith, length-append s.errors ((path ++ ascii ": " ++ show e) ∷ []))
  take_joined_total path (Joined.returned (ok o)) s =
      rw (send_row_total (tally s.counts o).1 (record s { counts = (tally s.counts o).0 }))
        (omega (arith, tally_total s.counts o))

  send_row_goes_on :
      (o : Option FileInfo) (s : Pipeline)
      → (send_row cfg has_committer show o s).producer ≢ finished
  send_row_goes_on none s h = cc
  send_row_goes_on (some row) s h = elim (Bool-cases has_committer) [
    | inl c ↦ let bad : Producer.sending row ≡ finished = rw c at h in cc
    | inr c ↦ let bad : starting ≡ finished = rw c at h in cc
  ]

  take_joined_goes_on :
      (path : FilePath) (j : Joined) (s : Pipeline)
      → (take_joined cfg has_committer show path j s).producer ≢ finished
  unfolding take_joined
  take_joined_goes_on path (crashed e) s h = cc
  take_joined_goes_on path (Joined.returned (err e)) s h = cc
  take_joined_goes_on path (Joined.returned (ok o)) s h =
      send_row_goes_on (tally s.counts o).1 (record s { counts = (tally s.counts o).0 }) h

  paths_length : {xs ys : List FilePath} → xs ≡ ys → length xs ≡ length ys
  paths_length e = ap (λ (zs : List FilePath). length zs) e

  Step-IsAccounted :
      {files : List FilePath} {s t : Pipeline}
      → Step cfg has_committer show s t
      → IsAccounted files s
      → IsAccounted files t
  unfolding receive receive_end flush_ok flush_err
  Step-IsAccounted (start_file s path rest a b c) i = record {
    total = omega (arith, i.total, paths_length c, length-append s.in_flight (path ∷ []));
    settled = λ f. absurd cc;
  }
  Step-IsAccounted (start_none s a b) i = record { total = i.total; settled = λ f. absurd cc }
  Step-IsAccounted (join_file s before after path j a b) i = record {
    total =
        take_joined_total path j (record s { in_flight = before ++ after })
        ∙ omega (
          arith,
          i.total,
          paths_length b,
          length-append before after,
          length-append before (path ∷ after),
        );
    settled = λ f. absurd (take_joined_goes_on path j (record s { in_flight = before ++ after }) f);
  }
  Step-IsAccounted (join_none s a b) i = record { total = i.total; settled = λ f. (b, refl) }
  Step-IsAccounted (send s row a b c) i = record { total = i.total; settled = λ f. absurd cc }
  Step-IsAccounted (send_fails s row a b) i = record { total = i.total; settled = λ f. absurd cc }
  Step-IsAccounted (recv s row rest a b) i = record { total = i.total; settled = i.settled }
  Step-IsAccounted (recv_none s a b c) i = record { total = i.total; settled = i.settled }
  Step-IsAccounted (commit_batch s a) i = record { total = i.total; settled = i.settled }
  Step-IsAccounted (commit_tail s a) i = record { total = i.total; settled = i.settled }
  Step-IsAccounted (commit_fails s e a) i = record { total = i.total; settled = i.settled }

  Reached-IsAccounted :
      {files : List FilePath} {s : Pipeline}
      → Reached cfg has_committer show files s
      → IsAccounted files s
  Reached-IsAccounted {files} launched = record { total = omega arith; settled = λ f. absurd cc }
  Reached-IsAccounted (stepped s t r st) = Step-IsAccounted st (Reached-IsAccounted r)

  -- When the producer has finished, every candidate is counted exactly once, modulo 2^64: as
  -- observed, as unchanged, as an error or as skipped.
  pub finished_total :
      (files : List FilePath) (s : Pipeline)
      → Reached cfg has_committer show files s
      → s.producer ≡ finished
      → u64 (s.counts.observed + s.counts.unchanged + length s.errors + s.counts.skipped)
        ≡ u64 (length files)
  finished_total files s r f =
      let i : IsAccounted files s = Reached-IsAccounted r in
      let (none_left, skips) = i.settled f in omega (arith, i.total, paths_length none_left, skips)
