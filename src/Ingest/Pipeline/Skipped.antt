-- ===== src/Ingest/Pipeline/Skipped.antt =====
-- When the producer skips candidates.
use anti_entropator.Prelude.{
  ℕ, ◌<◌, ◌≡◌, refl, ap, ◌⊎◌, inl, inr, Bool, true, false, Option, none, some, List, [], ◌++◌,
  arith, length, Error, ok, err, ltb, ltb-false→le, Bool-cases, u64, Text,
}
use anti_entropator.Ingest.Pipeline.{
  PipelineConfig, tally, Producer, starting, joining, sending, finished, Pipeline, Joined, crashed,
  may_start, send_row, take_joined, receive, receive_end, flush_ok, flush_err, Step, start_file,
  start_none, join_file, join_none, send, send_fails, recv, recv_none, commit_batch, commit_tail,
  commit_fails, Reached, launched, stepped,
}
use anti_entropator.Domain.FileInfo.{FilePath, FileInfo}

-- All candidates have been started, or the writer has given up.
abbrev IsDrained : List FilePath → Bool → Type 0
IsDrained pending stop = (pending ≡ []) ⊎ (stop ≡ true)

abbrev Failed : Option Error → Type 0
Failed failure = (e : Error) × (failure ≡ some e)

abbrev HasSkips : Producer → (in_flight pending : List FilePath) → Bool → (skipped : ℕ) → Type 0
HasSkips starting in_flight pending stop skipped = Unit
HasSkips joining in_flight pending stop skipped = (0 < length in_flight) ⊎ IsDrained pending stop
HasSkips (sending row) in_flight pending stop skipped = Unit
HasSkips finished in_flight pending stop skipped =
    IsDrained pending stop × (skipped ≡ u64 (length pending))

record IsExplained (s : Pipeline) : Type 0 where
  stopped : s.stop ≡ true → Failed s.commit_failure
  skips : HasSkips s.producer s.in_flight s.pending s.stop s.counts.skipped

module _ (cfg : PipelineConfig) (has_committer : Bool) (show : Error → Text) where
  send_row-IsExplained :
      (o : Option FileInfo) (s : Pipeline)
      → (s.stop ≡ true → Failed s.commit_failure)
      → IsExplained (send_row cfg has_committer show o s)
  send_row-IsExplained none s f = record { stopped = f; skips = tt }
  send_row-IsExplained (some row) s f = elim (Bool-cases has_committer) [
    | inl h ↦ rw h (record { stopped = f; skips = tt })
    | inr h ↦ rw h (record { stopped = f; skips = tt })
  ]

  take_joined-IsExplained :
      (path : FilePath) (j : Joined) (s : Pipeline)
      → (s.stop ≡ true → Failed s.commit_failure)
      → IsExplained (take_joined cfg has_committer show path j s)
  unfolding take_joined
  take_joined-IsExplained path (crashed e) s f = record { stopped = f; skips = tt }
  take_joined-IsExplained path (Joined.returned (err e)) s f = record { stopped = f; skips = tt }
  take_joined-IsExplained path (Joined.returned (ok o)) s f =
      send_row-IsExplained (tally s.counts o).1 (record s { counts = (tally s.counts o).0 }) f

  waiting_cases :
      (s : Pipeline)
      → 0 < cfg.concurrency
      → (may_start cfg has_committer show s ≡ false) ⊎ (s.pending ≡ [])
      → (0 < length s.in_flight) ⊎ IsDrained s.pending s.stop
  unfolding may_start
  waiting_cases s c (inr e) = inr (inl e)
  waiting_cases s c (inl e) = elim (Bool-cases s.stop) [
    | inl h ↦ inr (inr h)
    | inr h ↦ elim (Bool-cases (ltb (length s.in_flight) cfg.concurrency)) [
      | inl l ↦ let bad : true ≡ false = rw (h, l) at e in cc
      | inr l ↦ inl (omega (arith, ltb-false→le _ _ l))
    ]
  ]

  ended :
      (s : Pipeline)
      → s.in_flight ≡ []
      → (0 < length s.in_flight) ⊎ IsDrained s.pending s.stop
      → IsDrained s.pending s.stop
  ended s e (inl h) =
      let none_left : length s.in_flight ≡ 0 = ap (λ (zs : List FilePath). length zs) e in
      absurd (omega arith)
  ended s e (inr drained) = drained

  -- The writer's failure.
  give_up :
      (p : Producer) (in_flight pending : List FilePath) (stop : Bool) (skipped : ℕ)
      → HasSkips p in_flight pending stop skipped
      → HasSkips p in_flight pending true skipped
  give_up starting in_flight pending stop skipped h = tt
  give_up joining in_flight pending stop skipped h = inr (inr refl)
  give_up (sending row) in_flight pending stop skipped h = tt
  give_up finished in_flight pending stop skipped h = (inr refl, h.1)

  Step-IsExplained :
      {s t : Pipeline}
      → 0 < cfg.concurrency
      → Step cfg has_committer show s t
      → IsExplained s
      → IsExplained t
  unfolding receive receive_end flush_ok flush_err
  Step-IsExplained c (start_file s path rest a b d) i = record {
    stopped = i.stopped;
    skips = rw a tt;
  }
  Step-IsExplained c (start_none s a b) i = record {
    stopped = i.stopped;
    skips = waiting_cases s c b;
  }
  Step-IsExplained c (join_file s before after path j a b) i =
      take_joined-IsExplained path j (record s { in_flight = before ++ after }) i.stopped
  Step-IsExplained c (join_none s a b) i = record {
    stopped = i.stopped;
    skips = (ended s b (rw a at (i.skips)), refl);
  }
  Step-IsExplained c (send s row a b d) i = record { stopped = i.stopped; skips = tt }
  Step-IsExplained c (send_fails s row a b) i = record { stopped = i.stopped; skips = tt }
  Step-IsExplained c (recv s row rest a b) i = record { stopped = i.stopped; skips = i.skips }
  Step-IsExplained c (recv_none s a b d) i = record { stopped = i.stopped; skips = i.skips }
  Step-IsExplained c (commit_batch s a) i = record { stopped = i.stopped; skips = i.skips }
  Step-IsExplained c (commit_tail s a) i = record { stopped = i.stopped; skips = i.skips }
  Step-IsExplained c (commit_fails s e a) i = record {
    stopped = λ h. (_, refl);
    skips = give_up s.producer s.in_flight s.pending s.stop s.counts.skipped i.skips;
  }

  Reached-IsExplained :
      {files : List FilePath} {s : Pipeline}
      → 0 < cfg.concurrency
      → Reached cfg has_committer show files s
      → IsExplained s
  Reached-IsExplained c launched = record { stopped = λ h. absurd cc; skips = tt }
  Reached-IsExplained c (stepped s t r st) = Step-IsExplained c st (Reached-IsExplained c r)

  skipped_cases :
      (s : Pipeline)
      → s.counts.skipped ≡ u64 (length s.pending)
      → (s.stop ≡ true → Failed s.commit_failure)
      → IsDrained s.pending s.stop
      → (s.counts.skipped ≡ 0) ⊎ Failed s.commit_failure
  skipped_cases s e f (inl d) = inl (omega (arith, e, ap (λ (zs : List FilePath). length zs) d))
  skipped_cases s e f (inr d) = inr (f d)

  -- With a positive concurrency, when the producer has finished, no candidate has been skipped, or
  -- a commit has failed.
  pub skipped_after_failure :
      (files : List FilePath) (s : Pipeline)
      → 0 < cfg.concurrency
      → Reached cfg has_committer show files s
      → s.producer ≡ finished
      → (s.counts.skipped ≡ 0) ⊎ ((e : Error) × (s.commit_failure ≡ some e))
  skipped_after_failure files s c r f =
      let i : IsExplained s = Reached-IsExplained c r in
      let h : HasSkips finished s.in_flight s.pending s.stop s.counts.skipped = rw f at (i.skips) in
      skipped_cases s h.1 i.stopped h.0
