-- ===== src/Ingest/Journal/Saved.antt =====
-- What saving a journal does to the store.
use anti_entropator.Prelude.Io.{lift, with_context_io, bind_cases}
use anti_entropator.Prelude.{
  ◌≡◌, refl, sym, ◌⊎◌, inl, inr, false, some, ◌++◌, Result, ok, err, with_context, Bool-cases,
  Bytes, Text, ascii, text_eq, text_eq_iff,
}
use anti_entropator.Ingest.Journal.{RunJournal}
use anti_entropator.Domain.FileInfo.{Timestamp}
use anti_entropator.Storage.{
  Stored, done, failed, to_result, store_io, Operator, plain, Changed, IsObjectStore,
}
use anti_entropator.Ingest.Journal.Persist.{Codec, journal_key, save}

module _ {World Writer : Type 0} (op : Operator World Writer) (now : World → Timestamp × World)
    (codec : Codec) (laws : IsObjectStore op) where
  open laws use {object}

  abbrev pub key_of : RunJournal → Text
  key_of j = journal_key op now codec j.run_id

  unchanged_everywhere :
      (k : Text) (w w' : World)
      → Changed object k (object w k) w w'
      → (j : Text) → object w' j ≡ object w j
  unchanged_everywhere k w w' c j = elim (Bool-cases (text_eq k j)) [
    | inl same ↦ rw (sym ((text_eq_iff k j).0 same)) c.at_key
    | inr other ↦ c.elsewhere j other
  ]

  -- A write leaves the store as it was, or puts the whole body under its key.
  write_cases :
      (k : Text) (b : Bytes) (w : World) (r : Stored (Unit {0}))
      → (op.write k b w).0 ≡ r
      → ((j : Text) → object (op.write k b w).1 j ≡ object w j)
        ⊎ (object (op.write k b w).1 k ≡ some (plain b))
  write_cases k b w (done u) e = inr (laws.write_done k b w e).at_key
  write_cases k b w (failed x) e = elim (laws.write_failed k b w e) [
    | inl c ↦ inr c.at_key
    | inr c ↦ inl (unchanged_everywhere k w (op.write k b w).1 c)
  ]

  pub save_cases :
      (j : RunJournal) (w : World) (r : Result Bytes)
      → codec.encode j ≡ r
      → ((k : Text) → object (save op now codec j w).1 k ≡ object w k)
        ⊎ ((b : Bytes) × (codec.encode j ≡ ok b)
            × (object (save op now codec j w).1 (key_of j) ≡ some (plain b)))
  unfolding save
  save_cases j w (err x) e = inl (λ k. rw e refl)
  save_cases j w (ok b) e = elim (write_cases (key_of j) b w (op.write (key_of j) b w).0 refl) [
    | inl same ↦ inl (λ k. rw e (same k))
    | inr put ↦ inr (b, e, rw e put)
  ]

  write_done-put :
      (k : Text) (b : Bytes) (w : World) (r : Stored (Unit {0}))
      → (op.write k b w).0 ≡ r
      → (u : Unit {0}) (c : Text) → with_context c (to_result r) ≡ ok u
      → object (op.write k b w).1 k ≡ some (plain b)
  write_done-put k b w (done v) e u c h = (laws.write_done k b w e).at_key
  write_done-put k b w (failed x) e u c h = cc

  write_elsewhere :
      (k : Text) (b : Bytes) (w : World) (key : Text)
      → text_eq k key ≡ false
      → (r : Stored (Unit {0})) → (op.write k b w).0 ≡ r
      → object (op.write k b w).1 key ≡ object w key
  write_elsewhere k b w key ne (done u) e = (laws.write_done k b w e).elsewhere key ne
  write_elsewhere k b w key ne (failed x) e = elim (laws.write_failed k b w e) [
    | inl c ↦ c.elsewhere key ne
    | inr c ↦ c.elsewhere key ne
  ]

  pub save_elsewhere :
      (j : RunJournal) (w : World) (key : Text)
      → text_eq (key_of j) key ≡ false
      → object (save op now codec j w).1 key ≡ object w key
  unfolding save
  save_elsewhere j w key ne =
      bind_cases (λ r u. object u key ≡ object w key)
        (λ body.
          with_context_io (ascii "Failed to write " ++ key_of j)
            (store_io (op.write (key_of j) body)))
        (lift (with_context (ascii "Failed to serialize run journal") (codec.encode j))) w
        (λ e h. refl)
        (λ body h. write_elsewhere (key_of j) body w key ne (op.write (key_of j) body w).0 refl)

  -- A journal that has been saved is what its key holds.
  pub save-ok :
      (j : RunJournal) (w : World) (u : Unit {0}) (r : Result Bytes)
      → codec.encode j ≡ r
      → (save op now codec j w).0 ≡ ok u
      → (b : Bytes) × (codec.encode j ≡ ok b)
        × (object (save op now codec j w).1 (key_of j) ≡ some (plain b))
  unfolding save
  save-ok j w u (err x) e h = cc
  save-ok j w u (ok b) e h =
      (b, e, rw e (write_done-put (key_of j) b w (op.write (key_of j) b w).0 refl u _ (rw e at h)))
