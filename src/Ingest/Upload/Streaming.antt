-- ===== src/Ingest/Upload/Streaming.antt =====
-- The reading loop of `upload_verified`: what the writer and the hasher have been given.
use mathlib.Core.List.{append_assoc, append-nil}
use anti_entropator.Prelude.{
  ℕ, ◌+◌, ◌≡◌, refl, sym, ap, ◌∙◌, Option, List, [], ◌∷◌, ◌++◌, arith, length, length-append,
  context, Result, ok, err, u64, Bytes, Text, ascii,
}
use anti_entropator.Storage.{
  StoreError, Stored, done, failed, store_message, Object, Operator, IsObjectStore,
}
use anti_entropator.Ingest.Upload.{Sha256, abort_quietly, stream_chunks}

-- The bytes that the reads deliver before the end of the file or an error.
abbrev pub received : List (Result Bytes) → Bytes
received [] = []
received (err e ∷ reads) = []
received (ok [] ∷ reads) = []
received (ok (b ∷ bs) ∷ reads) = (b ∷ bs) ++ received reads

-- Hashing piece by piece is hashing the whole.
pub record IsStreaming (sha : Sha256) : Type 0 where
  pub absorbs_nothing : (h : sha.Hasher) → sha.update h [] ≡ h
  pub absorbs :
      (h : sha.Hasher) (b c : Bytes) → sha.update (sha.update h b) c ≡ sha.update h (b ++ c)

module _ {World Writer : Type 0} (op : Operator World Writer) (sha : Sha256)
    (laws : IsObjectStore op) (hashing : IsStreaming sha) where
  open laws use {object, stream}

  abbrev pub Same : World → World → Type 0
  Same w w' = (k : Text) → object w' k ≡ object w k

  -- The writer and the hasher have taken `bytes`, after the bytes they had at `w`.
  abbrev pub Streamed :
      Writer → sha.Hasher → ℕ → Bytes → World → World → Result (sha.Hasher × ℕ) → Type 0
  Streamed x h m bytes w w' (err e) = Unit
  Streamed x h m bytes w w' (ok (h', n)) =
      (h' ≡ sha.update h bytes)
      × (n ≡ u64 (m + length bytes))
      × (stream w' x ≡ record (stream w x) { bytes = (stream w x).bytes ++ bytes })

  abbrev StreamedBy :
      (key path : Text) → Writer → List (Result Bytes) → sha.Hasher → ℕ → World → Type 0
  StreamedBy key path x reads h m w =
      let (r, w') = stream_chunks op sha key path x reads h (u64 m) w in
      Same w w' × Streamed x h m (received reads) w w' r

  nothing-Streamed :
      (x : Writer) (h : sha.Hasher) (m : ℕ) (w : World) → Streamed x h m [] w w (ok (h, u64 m))
  nothing-Streamed x h m w =
      (sym (hashing.absorbs_nothing h), omega arith, rw (append-nil (stream w x).bytes) refl)

  -- A chunk, and then the rest of the stream.
  Streamed-append :
      (x : Writer) (h : sha.Hasher) (m : ℕ) (b c : Bytes) (w v w' : World)
      → stream v x ≡ record (stream w x) { bytes = (stream w x).bytes ++ b }
      → (r : Result (sha.Hasher × ℕ)) → Streamed x (sha.update h b) (m + length b) c v w' r
      → Streamed x h m (b ++ c) w w' r
  Streamed-append x h m b c w v w' e (err d) s = s
  Streamed-append x h m b c w v w' e (ok p) s = (
    s.0 ∙ hashing.absorbs h b c,
    s.1 ∙ rw (length-append b c) (omega arith),
    s.2 ∙ rw (e, append_assoc (stream w x).bytes b c) refl,
  )

  chunk_fails :
      (key path : Text) (x : Writer) (b : ℕ) (bs : Bytes) (reads : List (Result Bytes))
      (h : sha.Hasher) (n : ℕ) (w : World) {e : StoreError}
      → (op.write_chunk x (b ∷ bs) w).0 ≡ failed e
      → stream_chunks op sha key path x (ok (b ∷ bs) ∷ reads) h n w ≡ (
        err (context (ascii "Failed to stream " ++ path ++ ascii " to " ++ key) (store_message e)),
        abort_quietly op sha x (op.write_chunk x (b ∷ bs) w).1,
      )
  unfolding stream_chunks
  chunk_fails key path x b bs reads h n w eq = rw (stream_chunks, eq) refl

  chunk_goes_on :
      (key path : Text) (x : Writer) (b : ℕ) (bs : Bytes) (reads : List (Result Bytes))
      (h : sha.Hasher) (n : ℕ) (w : World) {u : Unit {0}}
      → (op.write_chunk x (b ∷ bs) w).0 ≡ done u
      → stream_chunks op sha key path x (ok (b ∷ bs) ∷ reads) h n w
        ≡ stream_chunks op sha key path x reads
            (sha.update h (b ∷ bs))
            (u64 (n + length (b ∷ bs)))
            (op.write_chunk x (b ∷ bs) w).1
  unfolding stream_chunks
  chunk_goes_on key path x b bs reads h n w eq = rw (stream_chunks, eq) refl

  pub abort_quietly_keeps : (x : Writer) (w : World) → Same w (abort_quietly op sha x w)
  unfolding abort_quietly
  abort_quietly_keeps x w k = ap (λ (f : Text → Option Object). f k) (laws.abort_keeps x w)

  chunk_keeps : (x : Writer) (b : Bytes) (w : World) → Same w (op.write_chunk x b w).1
  chunk_keeps x b w k = ap (λ (f : Text → Option Object). f k) (laws.chunk_keeps x b w)

  wrapped_sum : (m n : ℕ) → u64 (u64 m + n) ≡ u64 (m + n)
  wrapped_sum m n = omega arith

  chunk_streamed :
      (key path : Text) (x : Writer) (b : ℕ) (bs : Bytes) (reads : List (Result Bytes))
      (h : sha.Hasher) (m : ℕ) (w : World)
      → StreamedBy key path x reads
          (sha.update h (b ∷ bs))
          (m + length (b ∷ bs))
          (op.write_chunk x (b ∷ bs) w).1
      → (r : Stored (Unit {0})) → (op.write_chunk x (b ∷ bs) w).0 ≡ r
      → StreamedBy key path x (ok (b ∷ bs) ∷ reads) h m w
  chunk_streamed key path x b bs reads h m w ih (failed e) eq =
      let v : World = (op.write_chunk x (b ∷ bs) w).1 in
      rw (chunk_fails key path x b bs reads h (u64 m) w eq)
        (λ k. abort_quietly_keeps x v k ∙ chunk_keeps x (b ∷ bs) w k, tt)
  chunk_streamed key path x b bs reads h m w ih (done u) eq =
      let v : World = (op.write_chunk x (b ∷ bs) w).1 in
      rw (chunk_goes_on key path x b bs reads h (u64 m) w eq, wrapped_sum m (length (b ∷ bs)))
        (
          λ k. ih.0 k ∙ chunk_keeps x (b ∷ bs) w k,
          Streamed-append x h m (b ∷ bs) (received reads) w v
              (stream_chunks op sha key path x reads (sha.update h (b ∷ bs))
                (u64 (m + length (b ∷ bs))) v).1
              (laws.chunk_streams x (b ∷ bs) w eq)
              (stream_chunks op sha key path x reads (sha.update h (b ∷ bs))
                (u64 (m + length (b ∷ bs))) v).0
              ih.1,
        )

  -- The loop leaves every object as it was; where it reaches the end of the file, the writer and the
  -- hasher have been given the bytes that were read.
  pub stream_chunks_lem :
      (key path : Text) (x : Writer) (reads : List (Result Bytes)) (h : sha.Hasher) (m : ℕ)
      (w : World)
      → StreamedBy key path x reads h m w
  unfolding stream_chunks
  stream_chunks_lem key path x [] h m w = (λ k. refl, nothing-Streamed x h m w)
  stream_chunks_lem key path x (err e ∷ reads) h m w = (abort_quietly_keeps x w, tt)
  stream_chunks_lem key path x (ok [] ∷ reads) h m w = (λ k. refl, nothing-Streamed x h m w)
  stream_chunks_lem key path x (ok (b ∷ bs) ∷ reads) h m w =
      chunk_streamed key path x b bs reads h m w
        (stream_chunks_lem key path x reads (sha.update h (b ∷ bs)) (m + length (b ∷ bs))
          (op.write_chunk x (b ∷ bs) w).1)
        (op.write_chunk x (b ∷ bs) w).0 refl
