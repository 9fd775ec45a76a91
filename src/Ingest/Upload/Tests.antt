-- ===== src/Ingest/Upload/Tests.antt =====
-- Uploads into a memory store, with the identity in the place of SHA-256.
use anti_entropator.Prelude.{
  ◌≡◌, refl, sym, ◌∙◌, Bool, true, false, none, some, [], ◌∷◌, lookup, insert, Result, ok, err,
  is_source_changed, Text, ascii, text_eq,
}
use anti_entropator.Storage.Memory.{
  Memory, empty_memory, stat_object, close_memory, memory, memory-IsObjectStore, memory_object,
}
use anti_entropator.Domain.ContentHash.{ContentHash, to_object_key, to_lower_hex}
use anti_entropator.Ingest.Upload.{
  UploadOutcome, uploaded, verified, SourceFile, stream_chunks, finish_upload, stream_upload,
  upload_verified, check_meta, verify_existing,
}
use anti_entropator.Ingest.Upload.Sample.{plain_sha, plain_sha-IsStreaming}
use anti_entropator.Ingest.Upload.Effect.{upload_verified_lem, Outcome}
use anti_entropator.Ingest.Upload.Addressed.{
  verify_existing_lem, upload_verified-IsAddressed, IsAddressed, IsRight,
}

-- A file of three bytes in two reads, and the hash that the scan found.
abbrev photo : SourceFile
photo = record {
  path = ascii "/usb/photo";
  metadata = ok 3;
  opened = ok tt;
  reads = ok (1 ∷ 2 ∷ []) ∷ ok (3 ∷ []) ∷ [];
}

abbrev photo_hash : ContentHash
photo_hash = record { value = ascii "010203" }

upload_runs : (upload_verified memory plain_sha photo photo_hash 3 empty_memory).0 ≡ ok (uploaded 3)
unfolding upload_verified stream_upload stream_chunks finish_upload text_eq to_lower_hex
    close_memory lookup insert stat_object to_object_key
upload_runs = refl

-- The file changed after the scan, and kept its length.
abbrev changed_photo : SourceFile
changed_photo = record photo { reads = ok (1 ∷ 2 ∷ []) ∷ ok (4 ∷ []) ∷ [] }

abbrev is_err_changed : Result UploadOutcome → Bool
is_err_changed (ok o) = false
is_err_changed (err e) = is_source_changed e

changed_upload_runs :
    is_err_changed (upload_verified memory plain_sha changed_photo photo_hash 3 empty_memory).0
    ≡ true
unfolding upload_verified stream_upload stream_chunks finish_upload text_eq to_lower_hex
    close_memory lookup insert stat_object to_object_key is_source_changed
changed_upload_runs = refl

upload_verified_lem_example :
    Outcome memory plain_sha memory-IsObjectStore plain_sha-IsStreaming photo photo_hash 3
      (upload_verified memory plain_sha photo photo_hash 3 empty_memory).0
      empty_memory
      (upload_verified memory plain_sha photo photo_hash 3 empty_memory).1
upload_verified_lem_example =
    upload_verified_lem memory plain_sha memory-IsObjectStore plain_sha-IsStreaming photo photo_hash
      3 empty_memory

empty_memory-IsAddressed : IsAddressed memory plain_sha memory-IsObjectStore empty_memory
unfolding lookup
empty_memory-IsAddressed h o e =
    let bad : none ≡ some o = sym (memory_object empty_memory (to_object_key h)) ∙ e in absurd cc

upload_verified-IsAddressed_example :
    IsAddressed memory plain_sha memory-IsObjectStore
      (upload_verified memory plain_sha photo photo_hash 3 empty_memory).1
upload_verified-IsAddressed_example =
    upload_verified-IsAddressed memory plain_sha memory-IsObjectStore plain_sha-IsStreaming photo
      photo_hash 3 empty_memory empty_memory-IsAddressed

abbrev after_upload : Memory
after_upload = (upload_verified memory plain_sha photo photo_hash 3 empty_memory).1

verify_existing_runs : (verify_existing memory photo_hash 3 after_upload).0 ≡ ok verified
unfolding upload_verified stream_upload stream_chunks finish_upload text_eq to_lower_hex
    close_memory lookup insert stat_object to_object_key verify_existing check_meta
verify_existing_runs = refl

verify_existing_lem_example :
    IsRight memory plain_sha memory-IsObjectStore photo_hash 3 after_upload
      (verify_existing memory photo_hash 3 after_upload).0
    × ((k : Text)
        → memory-IsObjectStore.object (verify_existing memory photo_hash 3 after_upload).1 k
          ≡ memory-IsObjectStore.object after_upload k)
verify_existing_lem_example =
    verify_existing_lem memory plain_sha memory-IsObjectStore photo_hash 3 after_upload (
      upload_verified-IsAddressed memory plain_sha memory-IsObjectStore plain_sha-IsStreaming photo
        photo_hash 3 empty_memory empty_memory-IsAddressed)
