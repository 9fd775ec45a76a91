-- ===== src/Ingest/Upload.antt =====
-- src/ingest/upload.rs: streaming a file into the object under the key of its hash, and checking an
-- object that is there already. The file, SHA-256 and the object store are parameters.
pub mod Streaming
pub mod Effect
pub mod Addressed
pub mod Sample
mod Tests
use anti_entropator.Prelude.Io.{Io, lift, fail, with_context_io, ◌>>=◌, ◌>>◌}
use anti_entropator.Prelude.{
  ℕ, ◌+◌, ◌||◌, not, Option, none, some, List, [], ◌∷◌, ◌++◌, length, context, source_changed,
  integrity_mismatch, Result, ok, err, with_context, ◌==◌, if◌then◌else◌, u64, Bytes, Text, ascii,
  text_eq, decimal,
}
use anti_entropator.Storage.{
  not_found, condition_not_match, Stored, done, failed, store_message, store_io, ObjectMeta,
  Operator,
}
use anti_entropator.Domain.ContentHash.{ContentHash, to_object_key, to_lower_hex}

pub data UploadOutcome : Type 0 where
  uploaded : (bytes : ℕ) → UploadOutcome
  already_exists : UploadOutcome

pub data BlobVerdict : Type 0 where
  missing verified legacy : BlobVerdict

-- `sha2::Sha256` as the program uses it.
pub record Sha256 : Type 1 where
  pub Hasher : Type 0
  pub start : Hasher
  pub update : Hasher → Bytes → Hasher
  pub finalize : Hasher → Bytes

-- What the file system answers for the source file: its length, whether it opens, and the results
-- of the reads. A read of no bytes, or the end of the list, is the end of the file.
pub record SourceFile : Type 0 where
  pub path : Text
  pub metadata : Result ℕ
  pub opened : Result (Unit {0})
  pub reads : List (Result Bytes)

module _ {World Writer : Type 0} (op : Operator World Writer) (sha : Sha256) where
  -- Best effort: the abort's own failure is logged.
  unfoldable pub abort_quietly : Writer → World → World
  abort_quietly writer w = (op.abort writer w).1

  -- The reading loop.
  unfoldable pub stream_chunks :
      (key path : Text) (writer : Writer)
      → List (Result Bytes)
      → sha.Hasher
      → ℕ
      → Io World (sha.Hasher × ℕ)
  stream_chunks key path writer [] hasher actual_len w = (ok (hasher, actual_len), w)
  stream_chunks key path writer (ok [] ∷ reads) hasher actual_len w = (ok (hasher, actual_len), w)
  stream_chunks key path writer (err e ∷ reads) hasher actual_len w =
      (err (context (ascii "Failed to read " ++ path) e), abort_quietly writer w)
  stream_chunks key path writer (ok (b ∷ bs) ∷ reads) hasher actual_len w =
      let (r, w') = op.write_chunk writer (b ∷ bs) w in
      elim r [
        | done u ↦
            stream_chunks key path writer reads (sha.update hasher (b ∷ bs))
              (u64 (actual_len + length (b ∷ bs))) w'
        | failed e ↦ (
          err (
              context (ascii "Failed to stream " ++ path ++ ascii " to " ++ key) (store_message e)),
          abort_quietly writer w',
        )
      ]

  abbrev pub closed_outcome :
      (key : Text) (actual_len : ℕ) → Stored (Unit {0}) → Result UploadOutcome
  closed_outcome key actual_len (done u) = ok (uploaded actual_len)
  closed_outcome key actual_len (failed (condition_not_match t)) = ok already_exists
  closed_outcome key actual_len (failed e) =
      err (context (ascii "Failed to finalize upload of " ++ key) (store_message e))

  -- The part of `upload_verified` behind the loop.
  unfoldable pub finish_upload :
      (expected : ContentHash) (expected_len : ℕ) (writer : Writer)
      → sha.Hasher
      → ℕ
      → Io World UploadOutcome
  finish_upload expected expected_len writer hasher actual_len w =
      let actual_hash = to_lower_hex (sha.finalize hasher) in
      if not (text_eq actual_hash expected.value) || not (actual_len == expected_len)
      then (
        err (
            source_changed (record {
              expected_hash = expected.value;
              actual_hash = some actual_hash;
              expected_len = expected_len;
              actual_len = actual_len;
            })),
        abort_quietly writer w,
      )
      else (
        closed_outcome (to_object_key expected) actual_len (op.close writer w).0,
        (op.close writer w).1,
      )

  abbrev pub user_metadata : Text → Option Text
  user_metadata value = if op.write_with_user_metadata then some value else none

  -- `upload_verified` once the length on disk has been found as expected.
  unfoldable pub stream_upload : SourceFile → ContentHash → ℕ → Io World UploadOutcome
  stream_upload file expected expected_len = do
    lift (with_context (ascii "Failed to open source file " ++ file.path) file.opened)
    writer ←
        with_context_io (ascii "Failed to open storage writer for " ++ to_object_key expected) (
          store_io (
            op.open_writer (to_object_key expected) (user_metadata expected.value)
              (user_metadata (decimal expected_len))))
    (hasher, actual_len) ←
        stream_chunks (to_object_key expected) file.path writer file.reads sha.start 0
    finish_upload expected expected_len writer hasher actual_len

  unfoldable pub upload_verified : SourceFile → ContentHash → ℕ → Io World UploadOutcome
  upload_verified file expected expected_len = do
    current_len ←
        lift (with_context (ascii "Failed to stat source file " ++ file.path) file.metadata)
    if not (current_len == expected_len)
        then fail (
            source_changed (record {
              expected_hash = expected.value;
              actual_hash = none;
              expected_len = expected_len;
              actual_len = current_len;
            }))
        else stream_upload file expected expected_len

module _ {World Writer : Type 0} (op : Operator World Writer) where
  abbrev compare_checksum : (key : Text) → ContentHash → Option Text → Result BlobVerdict
  compare_checksum key expected none = ok legacy
  compare_checksum key expected (some stored) =
      if text_eq stored expected.value
      then ok verified
      else err (
          integrity_mismatch (record {
            key = key;
            field = ascii "sha256";
            stored = stored;
            expected = expected.value;
          }))

  unfoldable pub check_meta : (key : Text) → ContentHash → ℕ → ObjectMeta → Result BlobVerdict
  check_meta key expected expected_len meta =
      if meta.content_length == expected_len
      then compare_checksum key expected meta.sha256
      else err (
          integrity_mismatch (record {
            key = key;
            field = ascii "size";
            stored = decimal meta.content_length;
            expected = decimal expected_len;
          }))

  abbrev verdict_of : (key : Text) → ContentHash → ℕ → Stored ObjectMeta → Result BlobVerdict
  verdict_of key expected expected_len (done meta) = check_meta key expected expected_len meta
  verdict_of key expected expected_len (failed (not_found t)) = ok missing
  verdict_of key expected expected_len (failed e) =
      err (context (ascii "Failed to stat " ++ key) (store_message e))

  unfoldable pub verify_existing : ContentHash → ℕ → Io World BlobVerdict
  verify_existing expected expected_len w = (
    verdict_of (to_object_key expected) expected expected_len
        (op.stat (to_object_key expected) w).0,
    (op.stat (to_object_key expected) w).1,
  )
