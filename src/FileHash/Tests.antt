-- ===== src/FileHash/Tests.antt =====
-- A file of three bytes in two reads.
use anti_entropator.Ingest.Upload.Sample.{plain_sha, plain_sha-IsStreaming}
use anti_entropator.Prelude.{◌≡◌, [], ◌∷◌, ok, ascii}
use anti_entropator.FileHash.{ReadableFile, full_sha256, full_sha256-content}
use anti_entropator.Domain.ContentHash.{to_lower_hex}

abbrev three_byte_file : ReadableFile
three_byte_file = record { opened = ok tt; reads = λ n. ok (1 ∷ 2 ∷ []) ∷ ok (3 ∷ []) ∷ [] }

full_sha256-content_example : full_sha256 plain_sha three_byte_file ≡ ok (ascii "010203")
unfolding to_lower_hex
full_sha256-content_example = full_sha256-content plain_sha plain_sha-IsStreaming three_byte_file
