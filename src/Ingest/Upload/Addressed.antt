-- ===== src/Ingest/Upload/Addressed.antt =====
-- The content-addressed store: what lies under the keys of hashes.
use anti_entropator.Prelude.{
  ℕ, ◌≡◌, refl, sym, ap, ◌∙◌, ◌≢◌, ◌⊎◌, inl, inr, true, Option, none, some, length, Error, message,
  context, source_changed, integrity_mismatch, non_utf8_path, Result, ok, err, ◌==◌, ==_iff,
  Bool-cases, Text, text_eq, text_eq_refl, text_eq_iff,
}
use anti_entropator.Storage.{
  not_found, condition_not_match, other_failure, Stored, done, failed, Object, ObjectMeta, describe,
  Operator, IsObjectStore,
}
use anti_entropator.Domain.ContentHash.{ContentHash, to_object_key, to_lower_hex}
use anti_entropator.Domain.ContentHash.Keys.{to_object_key-injective}
use anti_entropator.Ingest.Upload.{
  UploadOutcome, uploaded, already_exists, BlobVerdict, missing, verified, legacy, Sha256,
  SourceFile, user_metadata, upload_verified, check_meta, verdict_of, verify_existing,
}
use anti_entropator.Ingest.Upload.Streaming.{IsStreaming}
use anti_entropator.Ingest.Upload.Effect.{upload_verified_lem, Outcome, digest, read_blob, IsPlaced}

module _ {World Writer : Type 0} (op : Operator World Writer) (sha : Sha256)
    (laws : IsObjectStore op) where
  open laws use {object}

  -- The content of the object has the hash, and so has the metadata where the object carries it.
  pub record IsBlob (h : ContentHash) (o : Object) : Type 0 where
    pub content_hashes : to_lower_hex (digest sha o.content) ≡ h.value
    pub metadata_agrees : (o.sha256 ≡ none) ⊎ (o.sha256 ≡ some h.value)

  abbrev pub IsAddressed : World → Type 0
  IsAddressed w = (h : ContentHash) (o : Object) → object w (to_object_key h) ≡ some o → IsBlob h o

  pub kept-IsAddressed :
      (w w' : World) → ((k : Text) → object w' k ≡ object w k) → IsAddressed w → IsAddressed w'
  kept-IsAddressed w w' same inv h o e = inv h o (sym (same (to_object_key h)) ∙ e)

  metadata_cases : (t : Text) → (user_metadata op sha t ≡ none) ⊎ (user_metadata op sha t ≡ some t)
  metadata_cases t = elim (Bool-cases op.write_with_user_metadata) [
    | inl h ↦ inr (rw h refl)
    | inr h ↦ inl (rw h refl)
  ]

  some-injective : {o p : Object} → some o ≡ some p → o ≡ p
  some-injective e = cc

  module _ (hashing : IsStreaming sha) (file : SourceFile) (expected : ContentHash)
      (expected_len : ℕ) where
    placed-IsAddressed :
        (w w' : World)
        → IsPlaced op sha laws hashing file expected expected_len w w'
        → IsAddressed w
        → IsAddressed w'
    placed-IsAddressed w w' p inv h o e =
        elim (Bool-cases (text_eq (to_object_key expected) (to_object_key h))) [
          | inl hit ↦
              let same : expected ≡ h =
                to_object_key-injective expected h ((text_eq_iff _ _).0 hit) in
              let here : object w' (to_object_key expected) ≡ some o = rw same e in
              let back : read_blob op sha laws hashing file expected expected_len ≡ o =
                some-injective (sym p.placed.at_key ∙ here) in
              rw (sym same, sym back)
                (record {
                  content_hashes = p.hashes;
                  metadata_agrees = metadata_cases expected.value;
                })
          | inr other ↦ inv h o (sym (p.placed.elsewhere (to_object_key h) other) ∙ e)
        ]

    either-IsAddressed :
        (w w' : World)
        → ((k : Text) → object w' k ≡ object w k)
          ⊎ IsPlaced op sha laws hashing file expected expected_len w w'
        → IsAddressed w
        → IsAddressed w'
    either-IsAddressed w w' (inl same) inv = kept-IsAddressed w w' same inv
    either-IsAddressed w w' (inr p) inv = placed-IsAddressed w w' p inv

    error-IsAddressed :
        (e : Error) (w w' : World)
        → Outcome op sha laws hashing file expected expected_len (err e) w w'
        → IsAddressed w
        → IsAddressed w'
    error-IsAddressed (source_changed c) w w' same inv = kept-IsAddressed w w' same inv
    error-IsAddressed (message t) w w' u inv = either-IsAddressed w w' u inv
    error-IsAddressed (context c e) w w' u inv = either-IsAddressed w w' u inv
    error-IsAddressed (integrity_mismatch m) w w' u inv = either-IsAddressed w w' u inv
    error-IsAddressed (non_utf8_path t) w w' u inv = either-IsAddressed w w' u inv

    pub Outcome-IsAddressed :
        (r : Result UploadOutcome) (w w' : World)
        → Outcome op sha laws hashing file expected expected_len r w w'
        → IsAddressed w
        → IsAddressed w'
    Outcome-IsAddressed (ok (uploaded n)) w w' u inv = placed-IsAddressed w w' u.1 inv
    Outcome-IsAddressed (ok already_exists) w w' u inv = kept-IsAddressed w w' u.0 inv
    Outcome-IsAddressed (err e) w w' u inv = error-IsAddressed e w w' u inv

    -- Over a store and a hash function that keep their documented laws: if every object under the
    -- key of a hash has content of that hash, and metadata that does not contradict it, then so
    -- it is after an upload, on every outcome, errors included, and whatever the reads of the
    -- source file return.
    pub upload_verified-IsAddressed :
        (w : World)
        → IsAddressed w
        → IsAddressed (upload_verified op sha file expected expected_len w).1
    upload_verified-IsAddressed w inv =
        Outcome-IsAddressed (upload_verified op sha file expected expected_len w).0 w
          (upload_verified op sha file expected expected_len w).1
          (upload_verified_lem op sha laws hashing file expected expected_len w) inv

  -- The bytes under the key of `expected` have the expected hash and length.
  abbrev pub HoldsContent : ContentHash → ℕ → World → Type 0
  HoldsContent expected expected_len w =
      (o : Object) × (object w (to_object_key expected) ≡ some o)
      × (to_lower_hex (digest sha o.content) ≡ expected.value)
      × (length o.content ≡ expected_len)

  abbrev pub IsRight : ContentHash → ℕ → World → Result BlobVerdict → Type 0
  IsRight expected expected_len w (ok missing) = object w (to_object_key expected) ≡ none
  IsRight expected expected_len w (ok verified) = HoldsContent expected expected_len w
  IsRight expected expected_len w (ok legacy) = HoldsContent expected expected_len w
  IsRight expected expected_len w (err (integrity_mismatch m)) =
      (o : Object) × (object w (to_object_key expected) ≡ some o)
      × (length o.content ≢ expected_len)
  IsRight expected expected_len w (err e) = Unit

  found-IsRight :
      (expected : ContentHash) (expected_len : ℕ) (w : World) (o : Object)
      → object w (to_object_key expected) ≡ some o
      → IsBlob expected o
      → IsRight expected expected_len w
          (check_meta op (to_object_key expected) expected expected_len (describe o))
  unfolding check_meta
  found-IsRight expected expected_len w o at blob =
      elim (Bool-cases (length o.content == expected_len)) [
        | inl l ↦
            let len : length o.content ≡ expected_len = (==_iff _ _).0 l in
            elim blob.metadata_agrees [
              | inl absent ↦ rw (l, absent) (o, at, blob.content_hashes, len)
              | inr present ↦
                  rw (l, present, text_eq_refl expected.value) (o, at, blob.content_hashes, len)
            ]
        | inr l ↦ rw l (
          o,
          at,
          λ e. let hit : (length o.content == expected_len) ≡ true = (==_iff _ _).1 e in cc,
        )
      ]

  verdict-IsRight :
      (expected : ContentHash) (expected_len : ℕ) (w : World)
      → IsAddressed w
      → (r : Stored ObjectMeta) → (op.stat (to_object_key expected) w).0 ≡ r
      → IsRight expected expected_len w
          (verdict_of op (to_object_key expected) expected expected_len r)
  verdict-IsRight expected expected_len w inv (done meta) e =
      let (o, at, m) = laws.stat_finds (to_object_key expected) w e in
      rw m (found-IsRight expected expected_len w o at (inv expected o at))
  verdict-IsRight expected expected_len w inv (failed (not_found t)) e =
      laws.stat_misses (to_object_key expected) w e
  verdict-IsRight expected expected_len w inv (failed (condition_not_match t)) e = tt
  verdict-IsRight expected expected_len w inv (failed (other_failure t)) e = tt

  -- In a store that keeps its documented laws, where every object under the key of a hash has
  -- content of that hash and metadata that does not contradict it: where the verdict is that the
  -- object is missing there is none, where it is verified or predates the metadata, its bytes have
  -- the expected hash and length, and where it is a mismatch, its length differs. No object is
  -- touched.
  pub verify_existing_lem :
      (expected : ContentHash) (expected_len : ℕ) (w : World)
      → IsAddressed w
      → IsRight expected expected_len w (verify_existing op expected expected_len w).0
        × ((k : Text) → object (verify_existing op expected expected_len w).1 k ≡ object w k)
  unfolding verify_existing
  verify_existing_lem expected expected_len w inv = (
    verdict-IsRight expected expected_len w inv (op.stat (to_object_key expected) w).0 refl,
    λ k. ap (λ (f : Text → Option Object). f k) (laws.stat_keeps (to_object_key expected) w),
  )
