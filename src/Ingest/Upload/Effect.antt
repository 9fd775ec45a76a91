-- ===== src/Ingest/Upload/Effect.antt =====
-- What `upload_verified` does to the object store on every outcome.
pub mod Finished
pub use anti_entropator.Ingest.Upload.Effect.Finished.{digest, IsPlaced, Outcome, read_blob}
use anti_entropator.Prelude.Io.{Io, lift, fail, with_context_io, ◌>>=◌, bind_cases}
use anti_entropator.Prelude.{
  ℕ, ◌≡◌, refl, ap, ◌∙◌, inl, inr, not, Option, none, [], ◌++◌, arith, source_changed, Result, ok,
  with_context, ◌==◌, if◌then◌else◌, Bool-cases, Text, ascii, decimal,
}
use anti_entropator.Storage.{
  Stored, done, failed, to_result, store_io, Object, Operator, IsObjectStore,
}
use anti_entropator.Domain.ContentHash.{ContentHash}
use anti_entropator.Ingest.Upload.{
  UploadOutcome, Sha256, SourceFile, stream_chunks, finish_upload, user_metadata, stream_upload,
  upload_verified,
}
use anti_entropator.Ingest.Upload.Streaming.{received, IsStreaming, Streamed, stream_chunks_lem}
use anti_entropator.Ingest.Upload.Effect.Finished.{upload_key, unchanged-Outcome, finish-Outcome}

done_of_ok :
    {A : Type 0} (c : Text) (r : Stored A) {a : A}
    → with_context c (to_result r) ≡ ok a
    → r ≡ done a
done_of_ok c (done b) h = cc
done_of_ok c (failed e) h = cc

module _ {World Writer : Type 0} (op : Operator World Writer) (sha : Sha256)
    (laws : IsObjectStore op) (hashing : IsStreaming sha) (file : SourceFile)
    (expected : ContentHash) (expected_len : ℕ) where
  open laws use {object, stream}

  abbrev stream_into : Writer → World → Result (sha.Hasher × ℕ) × World
  stream_into x w =
      stream_chunks op sha (upload_key op sha laws hashing file expected expected_len) file.path x
        file.reads sha.start 0 w

  abbrev open_upload : World → Stored Writer × World
  open_upload w =
      op.open_writer (upload_key op sha laws hashing file expected expected_len)
        (user_metadata op sha expected.value) (user_metadata op sha (decimal expected_len)) w

  abbrev finish_streamed : Writer → sha.Hasher × ℕ → Io World UploadOutcome
  finish_streamed x p = finish_upload op sha expected expected_len x p.0 p.1

  streamed-Outcome :
      (w v : World) (x : Writer)
      → ((k : Text) → object v k ≡ object w k)
      → stream v x ≡ record {
        key = (upload_key op sha laws hashing file expected expected_len);
        sha256 = user_metadata op sha expected.value;
        size = user_metadata op sha (decimal expected_len);
        bytes = [];
      }
      → (p : sha.Hasher × ℕ) → (stream_into x v).0 ≡ ok p
      → Outcome op sha laws hashing file expected expected_len
          (finish_streamed x p (stream_into x v).1).0
          w
          (finish_streamed x p (stream_into x v).1).1
  streamed-Outcome w v x same empty p eq =
      let (kept, fed) =
        stream_chunks_lem op sha laws hashing
          (upload_key op sha laws hashing file expected expected_len) file.path x file.reads
          sha.start 0 v in
      let whole : Streamed op sha laws hashing x sha.start 0 (received file.reads) v
          (stream_into x v).1 (ok p) =
        rw eq at fed in
      rw (whole.0) (
        finish-Outcome op sha laws hashing file expected expected_len w (stream_into x v).1 x
          (λ k. kept k ∙ same k) (whole.2 ∙ rw empty refl) p.1 (whole.1 ∙ omega arith))

  opened-Outcome :
      (w : World) (x : Writer)
      → (open_upload w).0 ≡ done x
      → let m : Io World UploadOutcome = stream_into x >>= finish_streamed x in
        Outcome op sha laws hashing file expected expected_len
          (m (open_upload w).1).0
          w
          (m (open_upload w).1).1
  opened-Outcome w x eq =
      let v : World = (open_upload w).1 in
      let same : ((k : Text) → object v k ≡ object w k) =
        λ k. ap (λ (f : Text → Option Object). f k) (laws.open_keeps _ _ _ w) in
      bind_cases (λ r u. Outcome op sha laws hashing file expected expected_len r w u)
        (finish_streamed x) (stream_into x) v
        (λ e h.
          unchanged-Outcome op sha laws hashing file expected expected_len e w (stream_into x v).1
            (λ k.
              (stream_chunks_lem op sha laws hashing
                  (upload_key op sha laws hashing file expected expected_len) file.path x file.reads
                  sha.start 0 v).0
                k
              ∙ same k))
        (λ p h. streamed-Outcome w v x same (laws.open_streams _ _ _ w eq) p h)

  abbrev writer_io : Io World Writer
  writer_io =
      with_context_io
        (ascii "Failed to open storage writer for "
          ++ (upload_key op sha laws hashing file expected expected_len))
        (store_io open_upload)

  stream_upload-Outcome :
      (w : World)
      → Outcome op sha laws hashing file expected expected_len
          (stream_upload op sha file expected expected_len w).0
          w
          (stream_upload op sha file expected expected_len w).1
  unfolding stream_upload
  stream_upload-Outcome w =
      bind_cases (λ r u. Outcome op sha laws hashing file expected expected_len r w u)
        (λ (u : Unit {0}). writer_io >>= λ x. stream_into x >>= finish_streamed x)
        (lift (with_context (ascii "Failed to open source file " ++ file.path) file.opened)) w
        (λ e h. unchanged-Outcome op sha laws hashing file expected expected_len e w w (λ k. refl))
        (λ u h.
          bind_cases (λ r u. Outcome op sha laws hashing file expected expected_len r w u)
            (λ x. stream_into x >>= finish_streamed x) writer_io w
            (λ e h.
              unchanged-Outcome op sha laws hashing file expected expected_len e w (writer_io w).1
                (λ k. ap (λ (f : Text → Option Object). f k) (laws.open_keeps _ _ _ w)))
            (λ x h. opened-Outcome w x (done_of_ok _ (open_upload w).0 h)))

  -- Over a store and a hash function that keep their documented laws: where the upload succeeds,
  -- the key holds exactly the bytes that were read, which have the expected hash and, modulo
  -- 2^64, the expected length. Where another writer came first, the key holds an object; there,
  -- and where the source file turns out to have changed, no object is touched. After any other error, no object is touched, or
  -- the key holds the verified bytes.
  pub upload_verified_lem :
      (w : World)
      → Outcome op sha laws hashing file expected expected_len
          (upload_verified op sha file expected expected_len w).0
          w
          (upload_verified op sha file expected expected_len w).1
  unfolding upload_verified
  upload_verified_lem w =
      bind_cases (λ r u. Outcome op sha laws hashing file expected expected_len r w u)
        (λ current_len.
          if not (current_len == expected_len)
          then fail (
              source_changed (record {
                expected_hash = expected.value;
                actual_hash = none;
                expected_len = expected_len;
                actual_len = current_len;
              }))
          else stream_upload op sha file expected expected_len)
        (lift (with_context (ascii "Failed to stat source file " ++ file.path) file.metadata)) w
        (λ e h. unchanged-Outcome op sha laws hashing file expected expected_len e w w (λ k. refl))
        (λ n h. elim (Bool-cases (n == expected_len)) [
          | inl l ↦ rw l (stream_upload-Outcome w)
          | inr l ↦ rw l (λ k. refl)
        ])
