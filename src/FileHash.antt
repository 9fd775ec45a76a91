-- ===== src/FileHash.antt =====
-- src/file_hash.rs: SHA-256 of a whole file and of its first block, over the results of the reads.
mod Tests
use anti_entropator.Prelude.{
  ℕ, ◌≡◌, refl, sym, ap, ◌∙◌, Option, none, some, List, [], ◌∷◌, Error, Result, ok, err, ◌>>=◌,
  Bytes, Text,
}
use anti_entropator.Ingest.Upload.{Sha256}
use anti_entropator.Domain.ContentHash.{to_lower_hex}
use anti_entropator.Ingest.Upload.Streaming.{received, IsStreaming}
use anti_entropator.Ingest.Upload.Effect.{digest}

-- What the file system answers: whether the file opens, and the results of consecutive reads into a
-- buffer of the given size. A read of no bytes, or the end of the list, is the end of the file.
pub record ReadableFile : Type 0 where
  pub opened : Result (Unit {0})
  pub reads : ℕ → List (Result Bytes)

abbrev first_read : List (Result Bytes) → Result Bytes
first_read [] = ok []
first_read (r ∷ rs) = r

module _ (sha : Sha256) where
  -- The reading loop.
  unfoldable pub hash_reads : List (Result Bytes) → sha.Hasher → Result sha.Hasher
  hash_reads [] hasher = ok hasher
  hash_reads (err e ∷ rs) hasher = err e
  hash_reads (ok [] ∷ rs) hasher = ok hasher
  hash_reads (ok (b ∷ bs) ∷ rs) hasher = hash_reads rs (sha.update hasher (b ∷ bs))

  unfoldable pub full_sha256 : ReadableFile → Result Text
  full_sha256 file = do
    u ← file.opened
    hasher ← hash_reads (file.reads 8192) sha.start
    ok (to_lower_hex (sha.finalize hasher))

  unfoldable pub quick_sha256 : ReadableFile → (block_size : ℕ) → Result Text
  quick_sha256 file block_size = do
    u ← file.opened
    buffer ← first_read (file.reads block_size)
    ok (to_lower_hex (sha.finalize (sha.update sha.start buffer)))

-- The error that a reader meets before the end of the file.
abbrev pub read_error : List (Result Bytes) → Option Error
read_error [] = none
read_error (err e ∷ rs) = some e
read_error (ok [] ∷ rs) = none
read_error (ok (b ∷ bs) ∷ rs) = read_error rs

abbrev pub unless : {A : Type 0} → Option Error → A → Result A
unless none a = ok a
unless (some e) a = err e

module _ (sha : Sha256) (hashing : IsStreaming sha) where
  hash_reads_lem :
      (rs : List (Result Bytes)) (h : sha.Hasher)
      → hash_reads sha rs h ≡ unless (read_error rs) (sha.update h (received rs))
  unfolding hash_reads
  hash_reads_lem [] h = ap (λ (x : sha.Hasher). ok x) (sym (hashing.absorbs_nothing h))
  hash_reads_lem (err e ∷ rs) h = refl
  hash_reads_lem (ok [] ∷ rs) h = ap (λ (x : sha.Hasher). ok x) (sym (hashing.absorbs_nothing h))
  hash_reads_lem (ok (b ∷ bs) ∷ rs) h =
      hash_reads_lem rs (sha.update h (b ∷ bs))
      ∙ ap (λ (x : sha.Hasher). unless (read_error rs) x) (hashing.absorbs h (b ∷ bs) (received rs))

  -- The printed hash of all the bytes of the file, unless it cannot be opened or read.
  abbrev pub hash_of_content : Result (Unit {0}) → List (Result Bytes) → Result Text
  hash_of_content (err e) rs = err e
  hash_of_content (ok u) rs = unless (read_error rs) (to_lower_hex (digest sha (received rs)))

  finalized :
      (o : Option Error) (hasher : sha.Hasher)
      → (unless o hasher >>= λ h. ok (to_lower_hex (sha.finalize h)))
        ≡ unless o (to_lower_hex (sha.finalize hasher))
  finalized none hasher = refl
  finalized (some e) hasher = refl

  full_cases :
      (opened : Result (Unit {0})) (rs : List (Result Bytes))
      → (opened >>= λ u. hash_reads sha rs sha.start >>= λ h. ok (to_lower_hex (sha.finalize h)))
        ≡ hash_of_content opened rs
  full_cases (err e) rs = refl
  full_cases (ok u) rs = rw (hash_reads_lem rs sha.start) (finalized (read_error rs) _)

  -- Over a hash function that may be fed piece by piece: `full_sha256` returns the printed hash of
  -- exactly the bytes that the reads deliver before the end of the file; where the file does not
  -- open, or a read before its end fails, it returns that error.
  pub full_sha256-content :
      (file : ReadableFile) → full_sha256 sha file ≡ hash_of_content file.opened (file.reads 8192)
  unfolding full_sha256
  full_sha256-content file = full_cases file.opened (file.reads 8192)
