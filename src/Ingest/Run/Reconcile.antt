-- ===== src/Ingest/Run/Reconcile.antt =====
-- What reconciling the earlier open runs of a source leaves in the store.
use mathlib.Core.Path.{subst}
use anti_entropator.Prelude.Io.{Io, pure, with_context_io, bind_cases, ◌>>=◌}
use anti_entropator.Prelude.{
  ℕ, ◌≡◌, refl, ap, ◌∙◌, inl, inr, true, false, Option, some, List, [], ◌∷◌, ◌++◌, All, Result, ok,
  err, with_context, Bool-cases, Bytes, Text, ascii, text_eq, text_eq_iff,
}
use anti_entropator.Ingest.Journal.{RunState, is_closure, RunJournal, push, is_open}
use anti_entropator.Ingest.Journal.Outcomes.{outcome-push_closure}
use anti_entropator.Ingest.Journal.Persist.{Codec, journal_key, save, open_runs_for, close}
use anti_entropator.Ingest.Journal.Saved.{save_cases, save-ok, save_elsewhere}
use anti_entropator.Ingest.Run.{with_journal, close_io, report_run, report_runs, report_open_runs}
use anti_entropator.Domain.FileInfo.{Timestamp}
use anti_entropator.Domain.Observation.{Uuid}
use anti_entropator.Storage.{Object, Operator, plain, IsObjectStore}

module _ {World Writer : Type 0} (op : Operator World Writer) (now : World → Timestamp × World)
    (codec : Codec) (laws : IsObjectStore op)
    (now_keeps : (w : World) → laws.object (now w).1 ≡ laws.object w)
    (round_trip : (j : RunJournal) (b : Bytes) → codec.encode j ≡ ok b → codec.decode b ≡ ok j)
    (count_rows : Uuid → Io World ℕ)
    (count_keeps : (id : Uuid) (w : World) → laws.object (count_rows id w).1 ≡ laws.object w) where
  open laws use {object}

  abbrev key_of : RunJournal → Text
  key_of j = journal_key op now codec j.run_id

  -- The key holds a journal that does not count as open.
  abbrev pub IsSettled : Text → World → Type 0
  IsSettled key w =
      (o : Object) × (stored : RunJournal) × (object w key ≡ some o)
      × (codec.decode o.content ≡ ok stored)
      × (is_open stored ≡ false)

  abbrev Keeps : World → World → Type 0
  Keeps w v = (key : Text) → IsSettled key w → IsSettled key v

  IsSettled-same :
      (key : Text) (w v : World) → object v key ≡ object w key → IsSettled key w → IsSettled key v
  IsSettled-same key w v same (o, stored, at, reads, closed) = (o, stored, same ∙ at, reads, closed)

  same-Keeps : (w v : World) → object v ≡ object w → Keeps w v
  same-Keeps w v same key = IsSettled-same key w v (ap (λ (f : Text → Option Object). f key) same)

  put-IsSettled :
      (j : RunJournal) (w : World) (b : Bytes)
      → is_open j ≡ false
      → codec.encode j ≡ ok b
      → object w (key_of j) ≡ some (plain b)
      → IsSettled (key_of j) w
  put-IsSettled j w b closed e put = (plain b, j, put, round_trip j b e, closed)

  -- Saving a journal that is not open leaves every settled key settled.
  save-Keeps : (j : RunJournal) (w : World) → is_open j ≡ false → Keeps w (save op now codec j w).1
  save-Keeps j w closed key settled = elim (Bool-cases (text_eq (key_of j) key)) [
    | inr ne ↦
        IsSettled-same key w (save op now codec j w).1 (save_elsewhere op now codec laws j w key ne)
          settled
    | inl hit ↦ elim (save_cases op now codec laws j w (codec.encode j) refl) [
      | inl same ↦ IsSettled-same key w (save op now codec j w).1 (same key) settled
      | inr (b, e, put) ↦
          subst (λ (k : Text). IsSettled k (save op now codec j w).1)
            ((text_eq_iff (key_of j) key).0 hit)
            (put-IsSettled j (save op now codec j w).1 b closed e put)
    ]
  ]

  saved-IsSettled :
      (j : RunJournal) (w : World) (u : Unit {0})
      → is_open j ≡ false
      → (save op now codec j w).0 ≡ ok u
      → IsSettled (key_of j) (save op now codec j w).1
  saved-IsSettled j w u closed h =
      let (b, e, put) = save-ok op now codec laws j w u (codec.encode j) refl h in
      put-IsSettled j (save op now codec j w).1 b closed e put

  reconciled_closes : (rows : ℕ) → is_closure (RunState.reconciled rows) ≡ true
  unfolding is_closure
  reconciled_closes rows = refl

  module _ (j : RunJournal) (rows : ℕ) (w : World) where
    abbrev closed_journal : RunJournal
    closed_journal = push j (RunState.reconciled rows) (now w).0

    closed_key : key_of closed_journal ≡ key_of j
    unfolding push
    closed_key = refl

    not_open : is_open closed_journal ≡ false
    not_open =
        (outcome-push_closure j (RunState.reconciled rows) (now w).0 (reconciled_closes rows)).1

    close-Keeps : Keeps w (save op now codec closed_journal (now w).1).1
    close-Keeps key settled =
        save-Keeps closed_journal (now w).1 not_open key
          (same-Keeps w (now w).1 (now_keeps w) key settled)

  -- What was settled stays so, and where the result is a journal, the key of `j` is settled.
  abbrev Settles : RunJournal → World → Result RunJournal → World → Type 0
  Settles j w (ok k) v = Keeps w v × IsSettled (key_of j) v
  Settles j w (err e) v = Keeps w v

  close-Settles :
      (j : RunJournal) (rows : ℕ) (w : World) (c : Text) (r : Result (Unit {0}))
      → (save op now codec (closed_journal j rows w) (now w).1).0 ≡ r
      → Settles j w
          (with_context c (with_journal op now codec (closed_journal j rows w) r))
          (save op now codec (closed_journal j rows w) (now w).1).1
  close-Settles j rows w c (err e) h = close-Keeps j rows w
  close-Settles j rows w c (ok u) h = (
    close-Keeps j rows w,
    subst (λ (k : Text). IsSettled k (save op now codec (closed_journal j rows w) (now w).1).1)
        (closed_key j rows w)
        (saved-IsSettled (closed_journal j rows w) (now w).1 u (not_open j rows w) h),
  )

  counted-Settles :
      (j : RunJournal) (w v : World) (r : Result RunJournal) (u : World)
      → object v ≡ object w
      → Settles j v r u
      → Settles j w r u
  counted-Settles j w v (ok k) u same (kept, settled) =
      (λ key h. kept key (same-Keeps w v same key h), settled)
  counted-Settles j w v (err e) u same kept = λ key h. kept key (same-Keeps w v same key h)

  report_run-Settles :
      (j : RunJournal) (w : World)
      → Settles j w
          (report_run op now codec count_rows true j w).0
          (report_run op now codec count_rows true j w).1
  unfolding report_run close
  report_run-Settles j w =
      let v : World = (count_rows j.run_id w).1 in
      bind_cases (λ r u. Settles j w r u)
        (λ rows.
          with_context_io (ascii "Cannot reconcile run " ++ codec.show_uuid j.run_id)
            (close_io op now codec j (RunState.reconciled rows)))
        (count_rows j.run_id) w (λ e h. same-Keeps w v (count_keeps j.run_id w))
        (λ rows h. counted-Settles j w v _ _ (count_keeps j.run_id w) (
          close-Settles j rows v (ascii "Cannot reconcile run " ++ codec.show_uuid j.run_id)
            (save op now codec (closed_journal j rows v) (now v).1).0 refl))

  abbrev AllSettled : List RunJournal → World → Type 0
  AllSettled js v = All (λ j. IsSettled (key_of j) v) js

  abbrev SettlesAll : List RunJournal → World → Result (List RunJournal) → World → Type 0
  SettlesAll js w (ok ks) v = Keeps w v × AllSettled js v
  SettlesAll js w (err e) v = Keeps w v

  closed_of_ok :
      (j k : RunJournal) (w v : World) (r : Result RunJournal)
      → r ≡ ok k
      → Settles j w r v
      → Keeps w v × IsSettled (key_of j) v
  closed_of_ok j k w v (ok i) e s = s
  closed_of_ok j k w v (err x) e s = cc

  kept_by_round :
      (j : RunJournal) (w v : World) (r : Result RunJournal) → Settles j w r v → Keeps w v
  kept_by_round j w v (ok k) s = s.0
  kept_by_round j w v (err e) s = s

  abbrev rest_world : List RunJournal → World → World
  rest_world js v = (report_runs op now codec count_rows true js v).1

  report_runs-SettlesAll :
      (js : List RunJournal) (w : World)
      → SettlesAll js w
          (report_runs op now codec count_rows true js w).0
          (report_runs op now codec count_rows true js w).1
  unfolding report_runs
  report_runs-SettlesAll [] w = ((λ key h. h), tt)
  report_runs-SettlesAll (j ∷ js) w =
      let v : World = (report_run op now codec count_rows true j w).1 in
      bind_cases (λ r u. SettlesAll (j ∷ js) w r u)
        (λ k. report_runs op now codec count_rows true js >>= λ ks. pure (k ∷ ks))
        (report_run op now codec count_rows true j) w
        (λ e h. kept_by_round j w v _ (report_run-Settles j w))
        (λ k h.
          let (kept, settled) = closed_of_ok j k w v _ h (report_run-Settles j w) in
          bind_cases (λ r u. SettlesAll (j ∷ js) w r u) (λ ks. pure (k ∷ ks))
            (report_runs op now codec count_rows true js) v
            (λ e g.
              let more : SettlesAll js v (err e) (rest_world js v) =
                rw g at (report_runs-SettlesAll js v) in
              λ key a. more key (kept key a))
            (λ ks g.
              let more : SettlesAll js v (ok ks) (rest_world js v) =
                rw g at (report_runs-SettlesAll js v) in
              ((λ key a. more.0 key (kept key a)), (more.0 (key_of j) settled, more.1))))

  abbrev found_io : Text → Io World (List RunJournal)
  found_io source_id =
      with_context_io (ascii "Cannot read run journals for this source")
        (open_runs_for op now codec source_id)

  -- Where the result is a list of journals, the found runs are settled.
  abbrev FoundSettled : Text → World → Result (List RunJournal) → World → Type 0
  FoundSettled source_id w (err e) v = Unit
  FoundSettled source_id w (ok js) v =
      (found : List RunJournal) × ((open_runs_for op now codec source_id w).0 ≡ ok found)
      × AllSettled found v

  found_ok :
      (c : Text) (r : Result (List RunJournal)) {found : List RunJournal}
      → with_context c r ≡ ok found
      → r ≡ ok found
  found_ok c (ok js) e = cc
  found_ok c (err x) e = cc

  found_settled :
      (source_id : Text) (w v u : World) (found : List RunJournal) (r : Result (List RunJournal))
      → (open_runs_for op now codec source_id w).0 ≡ ok found
      → SettlesAll found v r u
      → FoundSettled source_id w r u
  found_settled source_id w v u found (ok js) e s = (found, e, s.1)
  found_settled source_id w v u found (err x) e s = tt

  report_open_runs-FoundSettled :
      (source_id : Text) (w : World)
      → FoundSettled source_id w
          (report_open_runs op now codec count_rows source_id true w).0
          (report_open_runs op now codec count_rows source_id true w).1
  unfolding report_open_runs
  report_open_runs-FoundSettled source_id w =
      bind_cases (λ r u. FoundSettled source_id w r u) (report_runs op now codec count_rows true)
        (found_io source_id) w (λ e h. tt)
        (λ found h.
          found_settled source_id w (found_io source_id w).1 _ found _ (found_ok _ _ h)
            (report_runs-SettlesAll found (found_io source_id w).1))

  -- Over a store that keeps its documented laws, a clock and a count of rows that leave it alone,
  -- and a codec that decodes what it encodes: where `report_open_runs` with reconciliation succeeds,
  -- the key of every run that `open_runs_for` has found holds a journal that does not count as open.
  pub report_open_runs_lem :
      (source_id : Text) (w : World) (js : List RunJournal)
      → (report_open_runs op now codec count_rows source_id true w).0 ≡ ok js
      → (found : List RunJournal) × ((open_runs_for op now codec source_id w).0 ≡ ok found)
        × All
            (λ j.
              IsSettled
                (journal_key op now codec j.run_id)
                (report_open_runs op now codec count_rows source_id true w).1)
            found
  report_open_runs_lem source_id w js e = rw e at (report_open_runs-FoundSettled source_id w)
