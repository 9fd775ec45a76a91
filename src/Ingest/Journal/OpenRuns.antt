-- ===== src/Ingest/Journal/OpenRuns.antt =====
-- `open_runs_for` over what `list` returns: the runs a later ingest has to reconcile.
use mathlib.Core.Path.{subst}
use anti_entropator.Prelude.Io.{bind_cases, with_context_io}
use anti_entropator.Prelude.{
  ◌++◌, ap, ◌∙◌, Option, none, some, Result, ◌≡◌, refl, sym, ◌↔◌, ◌⊎◌, inl, inr, Bool, true, ◌&&◌,
  List, [], ◌∷◌, arith, filter, In, context, ok, err, Text, ascii, text_eq,
}
use anti_entropator.Ingest.Journal.{journal_prefix, RunJournal, is_open}
use anti_entropator.Domain.FileInfo.{Timestamp}
use anti_entropator.Domain.Observation.{Uuid}
use anti_entropator.Storage.{Stored, done, failed, store_message, store_io, Operator, IsObjectStore}
use anti_entropator.Ingest.Journal.Persist.{
  Codec, sort_newest, entry_run, cons_ok, load, journal_key, load_entries, list, open_runs_for,
}
use anti_entropator.Ingest.Journal.Sorting.{
  NewestFirst, filter-NewestFirst, filter-In, sort_newest-NewestFirst, sort_newest-In,
}

abbrev pub wanted : Text → RunJournal → Bool
wanted source_id j = text_eq j.source_id source_id && is_open j

module _ {World Writer : Type 0} (op : Operator World Writer) (now : World → Timestamp × World)
    (codec : Codec) (laws : IsObjectStore op) where
  open laws use {object}

  open_runs_cases :
      (source_id : Text) (w : World) (found : List RunJournal) (r : Stored (List Text))
      → (op.list journal_prefix w).0 ≡ r
      → (open_runs_for op now codec source_id w).0 ≡ ok found
      → (names : List Text) × (r ≡ done names)
        × NewestFirst found
        × ((j : RunJournal)
            → In j found ↔ (
                In j (load_entries op now codec names (op.list journal_prefix w).1).0
                × (wanted source_id j ≡ true)))
  unfolding open_runs_for list
  open_runs_cases source_id w found (failed x) h e =
      let bad : err (context (ascii "Failed to list run journals") (store_message x)) ≡ ok found =
        rw h at e in
      cc
  open_runs_cases source_id w found (done names) h e =
      let js : List RunJournal = (load_entries op now codec names (op.list journal_prefix w).1).0 in
      let same : ok (filter (wanted source_id) (sort_newest js)) ≡ ok found = rw h at e in
      let back : filter (wanted source_id) (sort_newest js) ≡ found = cc in
      (
        names,
        refl,
        rw (sym back)
            (filter-NewestFirst (wanted source_id) (sort_newest js) (sort_newest-NewestFirst js)),
        λ j.
            rw (sym back)
              (grind (arith, filter-In (wanted source_id) (sort_newest js) j, sort_newest-In js j)),
      )

  load_keeps : (id : Uuid) (w : World) → object (load op now codec id w).1 ≡ object w
  unfolding load
  load_keeps id w =
      bind_cases (λ r u. object u ≡ object w) _
        (with_context_io (ascii "No journal for run " ++ codec.show_uuid id)
          (store_io (op.read (journal_key op now codec id))))
        w (λ e h. laws.read_keeps _ w) (λ b h. laws.read_keeps _ w)

  -- One of the names is that of a run, and the journal of that run has been read as `j` while the
  -- store held what it holds in `w`.
  abbrev pub ReadOnce : List Text → World → RunJournal → Type 0
  ReadOnce names w j =
      (name : Text) × (id : Uuid) × (v : World) × In name names
      × (entry_run op now codec name ≡ some id)
      × (object v ≡ object w)
      × ((load op now codec id v).0 ≡ ok j)

  -- It reads as `j` whenever the store holds that.
  abbrev pub ReadAlways : List Text → World → RunJournal → Type 0
  ReadAlways names w j =
      (name : Text) × (id : Uuid) × In name names
      × (entry_run op now codec name ≡ some id)
      × ((v : World) → object v ≡ object w → (load op now codec id v).0 ≡ ok j)

  once_more :
      (name : Text) (names : List Text) (v w : World) (j : RunJournal)
      → object v ≡ object w
      → ReadOnce names v j
      → ReadOnce (name ∷ names) w j
  once_more name names v w j same (n, id, u, found, run, kept, read) =
      (n, id, u, inr found, run, kept ∙ same, read)

  cons_ok-In :
      (r : Result RunJournal) (js : List RunJournal) (j : RunJournal)
      → In j (cons_ok op now codec r js)
      → (r ≡ ok j) ⊎ In j js
  cons_ok-In (ok k) js j (inl e) = inl (ap (λ (i : RunJournal). ok i) (sym e))
  cons_ok-In (ok k) js j (inr h) = inr h
  cons_ok-In (err e) js j h = inr h

  cons_ok_keeps :
      (r : Result RunJournal) (js : List RunJournal) (j : RunJournal)
      → In j js
      → In j (cons_ok op now codec r js)
  cons_ok_keeps (ok k) js j h = inr h
  cons_ok_keeps (err e) js j h = h

  module _ (name : Text) (names : List Text) (w : World) (j : RunJournal) where
    abbrev after : Uuid → World
    after id = (load op now codec id w).1

    run_skipped :
        entry_run op now codec name ≡ none
        → load_entries op now codec (name ∷ names) w ≡ load_entries op now codec names w
    unfolding load_entries
    run_skipped e = rw (load_entries, e) refl

    run_read :
        (id : Uuid)
        → entry_run op now codec name ≡ some id
        → (load_entries op now codec (name ∷ names) w).0
          ≡ cons_ok op now codec
              (load op now codec id w).0
              (load_entries op now codec names (after id)).0
    unfolding load_entries
    run_read id e = rw (load_entries, e) refl

    abbrev IsLoaded : List RunJournal → Type 0
    IsLoaded js = In j js

    next_loaded :
        (o : Option Uuid)
        → entry_run op now codec name ≡ o
        → ((v : World) → In j (load_entries op now codec names v).0 → ReadOnce names v j)
        → In j (load_entries op now codec (name ∷ names) w).0
        → ReadOnce (name ∷ names) w j
    next_loaded none e rest h =
        once_more name names w w j refl
          (rest w (subst (λ (p : List RunJournal × World). IsLoaded p.0) (run_skipped e) h))
    next_loaded (some id) e rest h =
        let split : In j (
            cons_ok op now codec (load op now codec id w).0
              (load_entries op now codec names (after id)).0) =
          subst IsLoaded (run_read id e) h in
        elim (cons_ok-In _ _ j split) [
          | inl read ↦ (name, id, w, inl refl, e, refl, read)
          | inr later ↦
              once_more name names (after id) w j (load_keeps id w) (rest (after id) later)
        ]

    head_loaded :
        (id : Uuid)
        → entry_run op now codec name ≡ some id
        → (load op now codec id w).0 ≡ ok j
        → In j (load_entries op now codec (name ∷ names) w).0
    head_loaded id e read = subst IsLoaded (sym (run_read id e)) (rw read (inl refl))

    rest_loaded :
        (o : Option Uuid)
        → entry_run op now codec name ≡ o
        → ((v : World) → object v ≡ object w → In j (load_entries op now codec names v).0)
        → In j (load_entries op now codec (name ∷ names) w).0
    rest_loaded none e rest =
        subst (λ (p : List RunJournal × World). IsLoaded p.0) (sym (run_skipped e)) (rest w refl)
    rest_loaded (some id) e rest =
        subst IsLoaded (sym (run_read id e))
          (cons_ok_keeps (load op now codec id w).0 _ j (rest (after id) (load_keeps id w)))

  loaded :
      (names : List Text) (w : World) (j : RunJournal)
      → In j (load_entries op now codec names w).0
      → ReadOnce names w j
  unfolding load_entries
  loaded [] w j h = absurd h
  loaded (name ∷ names) w j h =
      next_loaded name names w j (entry_run op now codec name) refl (λ v. loaded names v j) h

  all_loaded :
      (names : List Text) (w : World) (j : RunJournal)
      → ReadAlways names w j
      → In j (load_entries op now codec names w).0
  unfolding load_entries
  all_loaded [] w j (n, id, at, run, always) = absurd at
  all_loaded (name ∷ names) w j (n, id, inl it, run, always) =
      head_loaded name names w j id (rw (sym it) run) (always w refl)
  all_loaded (name ∷ names) w j (n, id, inr at, run, always) =
      rest_loaded name names w j (entry_run op now codec name) refl
        (λ v same. all_loaded names v j (n, id, at, run, λ u kept. always u (kept ∙ same)))

  -- Where the runs are found, the journal prefix was listed, and they stand in the order of their
  -- starts, the later one first. Each of them belongs to the source, is open, and has been read from
  -- the store under a listed name of a run; and every open journal of the source that a listed name of
  -- a run reads as, as long as the store holds what it holds, is among them.
  pub open_runs_for_lem :
      (source_id : Text) (w : World) (found : List RunJournal)
      → (open_runs_for op now codec source_id w).0 ≡ ok found
      → (names : List Text) × ((op.list journal_prefix w).0 ≡ done names)
        × NewestFirst found
        × ((j : RunJournal)
            → (In j found → (wanted source_id j ≡ true) × ReadOnce names w j)
              × (ReadAlways names w j → wanted source_id j ≡ true → In j found))
  open_runs_for_lem source_id w found e =
      let (names, listed, newest, members) =
        open_runs_cases source_id w found (op.list journal_prefix w).0 refl e in
      let v : World = (op.list journal_prefix w).1 in
      let same : object v ≡ object w = laws.list_keeps journal_prefix w in
      (
        names,
        listed,
        newest,
        λ j. (
          λ h.
              let (at, good) = (members j).0 h in
              let (n, id, u, found_name, run, kept, read) = loaded names v j at in
              (good, (n, id, u, found_name, run, kept ∙ same, read)),
          λ reads good.
              let (n, id, at, run, always) = reads in
              (members j).1
                (all_loaded names v j (n, id, at, run, λ u kept. always u (kept ∙ same)), good),
        ),
      )
