-- ===== src/Ingest/Upload/Effect/Finished.antt =====
-- What the last step of an upload leaves in the store: the check of hash and length, then the close.
use anti_entropator.Prelude.{
  ℕ, ◌≡◌, refl, sym, ap, ◌∙◌, ◌⊎◌, inl, inr, Option, some, length, Error, message, context,
  source_changed, integrity_mismatch, non_utf8_path, Result, ok, err, ◌==◌, ==_iff, Bool-cases, u64,
  Bytes, Text, text_eq, text_eq_iff, decimal,
}
use anti_entropator.Storage.{
  StoreError, not_found, condition_not_match, other_failure, Stored, done, failed, Object, Operator,
  materialized, Changed, IsObjectStore,
}
use anti_entropator.Domain.ContentHash.{ContentHash, to_object_key, to_lower_hex}
use anti_entropator.Ingest.Upload.{
  UploadOutcome, uploaded, already_exists, Sha256, SourceFile, closed_outcome, finish_upload,
  user_metadata,
}
use anti_entropator.Ingest.Upload.Streaming.{received, IsStreaming, abort_quietly_keeps}

abbrev pub digest : (sha : Sha256) → Bytes → Bytes
digest sha bytes = sha.finalize (sha.update sha.start bytes)

module _ {World Writer : Type 0} (op : Operator World Writer) (sha : Sha256)
    (laws : IsObjectStore op) (hashing : IsStreaming sha) (file : SourceFile)
    (expected : ContentHash) (expected_len : ℕ) where
  open laws use {object, stream}

  abbrev pub upload_key : Text
  upload_key = to_object_key expected

  -- The object of the bytes that were read.
  abbrev pub read_blob : Object
  read_blob = record {
    content = received file.reads;
    sha256 = user_metadata op sha expected.value;
    size = user_metadata op sha (decimal expected_len);
  }

  -- The bytes that were read have the expected hash and length, and are what the key holds now.
  pub record IsPlaced (w w' : World) : Type 0 where
    pub hashes : to_lower_hex (digest sha (received file.reads)) ≡ expected.value
    pub measures : u64 (length (received file.reads)) ≡ expected_len
    pub placed : Changed object upload_key (some read_blob) w w'

  abbrev pub Outcome : Result UploadOutcome → World → World → Type 0
  Outcome (ok (uploaded n)) w w' = (n ≡ expected_len) × IsPlaced w w'
  Outcome (ok already_exists) w w' =
      ((k : Text) → object w' k ≡ object w k) × ((o : Object) × (object w' upload_key ≡ some o))
  Outcome (err (source_changed s)) w w' = (k : Text) → object w' k ≡ object w k
  Outcome (err e) w w' = ((k : Text) → object w' k ≡ object w k) ⊎ IsPlaced w w'

  pub unchanged-Outcome :
      (e : Error) (w w' : World) → ((k : Text) → object w' k ≡ object w k) → Outcome (err e) w w'
  unchanged-Outcome (message t) w w' s = inl s
  unchanged-Outcome (context c e) w w' s = inl s
  unchanged-Outcome (source_changed c) w w' s = s
  unchanged-Outcome (integrity_mismatch c) w w' s = inl s
  unchanged-Outcome (non_utf8_path c) w w' s = inl s

  -- A change after none is that change.
  Changed-trans :
      (o : Option Object) (w v w' : World)
      → ((k : Text) → object v k ≡ object w k)
      → (key : Text) → Changed object key o v w'
      → Changed object key o w w'
  Changed-trans o w v w' s key c = record {
    at_key = c.at_key;
    elsewhere = λ j ne. c.elsewhere j ne ∙ s j;
  }

  unchanged_after :
      (w v w' : World)
      → ((k : Text) → object v k ≡ object w k)
      → (key : Text) → Changed object key (object v key) v w'
      → (k : Text) → object w' k ≡ object w k
  unchanged_after w v w' s key c k = elim (Bool-cases (text_eq key k)) [
    | inl same ↦ let e : key ≡ k = (text_eq_iff key k).0 same in rw (sym e) (c.at_key ∙ s key)
    | inr other ↦ c.elsewhere k other ∙ s k
  ]

  module _ (w v : World) (x : Writer) (same : (k : Text) → object v k ≡ object w k)
      (full : stream v x ≡ record {
        key = upload_key;
        sha256 = user_metadata op sha expected.value;
        size = user_metadata op sha (decimal expected_len);
        bytes = received file.reads;
      })
      (hashes : to_lower_hex (digest sha (received file.reads)) ≡ expected.value)
      (measures : u64 (length (received file.reads)) ≡ expected_len) where
    IsPlaced-close :
        (w' : World)
        → Changed object (stream v x).key (some (materialized (stream v x))) v w'
        → IsPlaced w w'
    IsPlaced-close w' c = record {
      hashes = hashes;
      measures = measures;
      placed = Changed-trans (some read_blob) w v w' same upload_key (rw full at c);
    }

    taken :
        (w' : World)
        → object w' ≡ object v
        → (o : Object) × (object v (stream v x).key ≡ some o)
        → (o : Object) × (object w' upload_key ≡ some o)
    taken w' e (o, at) =
        let here : object v upload_key ≡ some o = rw full at at in
        (o, ap (λ (f : Text → Option Object). f upload_key) e ∙ here)

    failed_close :
        (e : StoreError)
        → (op.close x v).0 ≡ failed e
        → ((k : Text) → object (op.close x v).1 k ≡ object w k) ⊎ IsPlaced w (op.close x v).1
    failed_close e eq = elim (laws.close_failed x v eq) [
      | inl c ↦ inr (IsPlaced-close (op.close x v).1 c)
      | inr c ↦ inl (unchanged_after w v (op.close x v).1 same (stream v x).key c)
    ]

    close-Outcome :
        (n : ℕ)
        → n ≡ expected_len
        → (r : Stored (Unit {0})) → (op.close x v).0 ≡ r
        → Outcome (closed_outcome op sha upload_key n r) w (op.close x v).1
    close-Outcome n en (done u) eq = (en, IsPlaced-close (op.close x v).1 (laws.close_done x v eq))
    close-Outcome n en (failed (not_found t)) eq = failed_close (not_found t) eq
    close-Outcome n en (failed (condition_not_match t)) eq = (
      λ k. ap (λ (f : Text → Option Object). f k) (laws.close_loses x v eq) ∙ same k,
      taken (op.close x v).1 (laws.close_loses x v eq) (laws.close_loses_to x v eq),
    )
    close-Outcome n en (failed (other_failure t)) eq = failed_close (other_failure t) eq

  module _ (w v : World) (x : Writer) (same : (k : Text) → object v k ≡ object w k)
      (full : stream v x ≡ record {
        key = upload_key;
        sha256 = user_metadata op sha expected.value;
        size = user_metadata op sha (decimal expected_len);
        bytes = received file.reads;
      }) where
    abbrev finished : ℕ → Result UploadOutcome × World
    finished n =
        finish_upload op sha expected expected_len x (sha.update sha.start (received file.reads)) n
          v

    pub finish-Outcome :
        (n : ℕ) → n ≡ u64 (length (received file.reads)) → Outcome (finished n).0 w (finished n).1
    unfolding finish_upload
    finish-Outcome n en =
        elim (Bool-cases
          (text_eq (to_lower_hex (digest sha (received file.reads))) expected.value)) [
            | inl h ↦ elim (Bool-cases (n == expected_len)) [
              | inl l ↦
                  let len : n ≡ expected_len = (==_iff n expected_len).0 l in
                  rw (finish_upload, h, l)
                    (close-Outcome w v x same full ((text_eq_iff _ _).0 h) (sym en ∙ len) n len
                      (op.close x v).0 refl)
              | inr l ↦
                  rw (finish_upload, h, l)
                    (λ k. abort_quietly_keeps op sha laws hashing x v k ∙ same k)
            ]
            | inr h ↦
                rw (finish_upload, h) (λ k. abort_quietly_keeps op sha laws hashing x v k ∙ same k)
          ]
