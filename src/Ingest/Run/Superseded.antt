-- ===== src/Ingest/Run/Superseded.antt =====
-- Which objects the end of a run may change.
use anti_entropator.Prelude.{
  ℕ, ◌≡◌, refl, ap, ◌∙◌, ◌⊎◌, inl, inr, true, false, Option, none, some, List, [], ◌∷◌, length, In,
  Error, ◌==◌, ==_iff, Bool-cases, u64, Text, text_eq, text_eq_iff,
}
use anti_entropator.Ingest.Journal.{RunState, RunJournal, push}
use anti_entropator.Ingest.Journal.Persist.{Codec, journal_key, save, record_transition, close}
use anti_entropator.Ingest.Run.{JournaledCommitter, supersede_open_runs}
use anti_entropator.Ingest.Journal.Saved.{save_elsewhere}
use anti_entropator.Ingest.Run.Ending.{terminal_state, is_completed, finish_run}
use anti_entropator.Domain.FileInfo.{Timestamp}
use anti_entropator.Domain.Observation.{Uuid}
use anti_entropator.Storage.{Object, Operator, IsObjectStore}

is_completed_only :
    (f : Option Error) (n : ℕ) (errors : List Text)
    → is_completed (terminal_state f n errors) ≡ true
    → (f ≡ none) × (u64 (length errors) ≡ 0)
unfolding is_completed terminal_state
is_completed_only (some e) n errors h = cc
is_completed_only none n errors h = elim (Bool-cases (u64 (length errors) == 0)) [
  | inl z ↦ (refl, (==_iff _ 0).0 z)
  | inr z ↦ let g : false ≡ true = rw z at h in cc
]

module _ {World Writer : Type 0} (op : Operator World Writer) (now : World → Timestamp × World)
    (codec : Codec) (laws : IsObjectStore op)
    (now_keeps : (w : World) → laws.object (now w).1 ≡ laws.object w) where
  open laws use {object}

  abbrev key_of : RunJournal → Text
  key_of j = journal_key op now codec j.run_id

  -- The journal goes on under its key.
  push-key : (j : RunJournal) (s : RunState) (t : Timestamp) → key_of (push j s t) ≡ key_of j
  unfolding push
  push-key j s t = refl

  saved_elsewhere :
      (j : RunJournal) (s : RunState) (w : World) (key : Text)
      → text_eq (key_of j) key ≡ false
      → object (save op now codec (push j s (now w).0) (now w).1).1 key ≡ object w key
  saved_elsewhere j s w key ne =
      save_elsewhere op now codec laws (push j s (now w).0) (now w).1 key
        (rw (push-key j s (now w).0) ne)
      ∙ ap (λ (f : Text → Option Object). f key) (now_keeps w)

  superseded :
      (js : List RunJournal) (by : Uuid) (w : World) (key : Text)
      → (object (supersede_open_runs op now codec js by w) key ≡ object w key)
        ⊎ ((j : RunJournal) × In j js × (key_of j ≡ key))
  unfolding supersede_open_runs close
  superseded [] by w key = inl refl
  superseded (j ∷ js) by w key = elim (Bool-cases (text_eq (key_of j) key)) [
    | inl same ↦ inr (j, inl refl, (text_eq_iff (key_of j) key).0 same)
    | inr ne ↦ elim (superseded js by (close op now codec j (RunState.superseded_by by) w).1 key) [
      | inl kept ↦ inl (kept ∙ saved_elsewhere j (RunState.superseded_by by) w key ne)
      | inr (k, found, e) ↦ inr (k, inr found, e)
    ]
  ]

  -- Over a store that keeps its documented laws and a clock that leaves it alone: the end of a run
  -- changes no object but the journal of that run, unless no commit has failed and the count of the
  -- errors, modulo 2^64, is zero; then it may also change the journals of the earlier open runs, and
  -- no other object.
  pub finish_run-Touches :
      (c : JournaledCommitter) (f : Option Error) (n : ℕ) (errors : List Text)
      (open_runs : List RunJournal) (run_id : Uuid) (w : World) (key : Text)
      → (object (finish_run op now codec (some c) f n errors open_runs run_id w) key ≡ object w key)
        ⊎ (key_of c.journal ≡ key)
        ⊎ ((f ≡ none)
            × (u64 (length errors) ≡ 0)
            × ((j : RunJournal) × In j open_runs × (key_of j ≡ key)))
  unfolding finish_run record_transition
  finish_run-Touches c f n errors open_runs run_id w key =
      let terminal : RunState = terminal_state f n errors in
      let v : World = (record_transition op now codec terminal c.journal w).1 in
      elim (Bool-cases (text_eq (key_of c.journal) key)) [
        | inl same ↦ inr (inl ((text_eq_iff (key_of c.journal) key).0 same))
        | inr ne ↦
            let own : object v key ≡ object w key = saved_elsewhere c.journal terminal w key ne in
            elim (Bool-cases (is_completed terminal)) [
              | inl full ↦ elim (superseded open_runs run_id v key) [
                | inl kept ↦ inl (rw (finish_run, full) (kept ∙ own))
                | inr found ↦
                    let (none_failed, no_errors) = is_completed_only f n errors full in
                    inr (inr (none_failed, no_errors, found))
              ]
              | inr partial ↦ inl (rw (finish_run, partial) own)
            ]
      ]
