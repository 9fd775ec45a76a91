-- ===== src/Ingest/File/Tests.antt =====
-- One file of three bytes, processed against a store in memory.
use anti_entropator.Ingest.Upload.Sample.{plain_sha, plain_sha-IsStreaming}
use anti_entropator.Prelude.Chars.{lines, before}
use anti_entropator.Ingest.File.Prepared.{prepare_file_lem, Prepares}
use anti_entropator.Ingest.File.Placed.{process_file-IsBacked, IsBacked}
use anti_entropator.Ingest.File.Preview.{process_file_keeps}
use anti_entropator.Prelude.{
  is_one_of, decimal, ◌≡◌, refl, sym, ◌∙◌, true, false, Option, none, some, [], ◌∷◌, length, lookup,
  insert, Result, ok, starts_with, contains, trim_start_matches, split_on, join, Bytes, Text, ascii,
  text_eq,
}
use anti_entropator.Scan.Sample.{one_line, three_bytes, three_bytes-IsReadOnly}
use anti_entropator.Storage.Memory.{
  Memory, empty_memory, stat_object, close_memory, memory, memory-IsObjectStore, memory_object,
}
use anti_entropator.Ingest.File.{
  try_file, attempt, RunContext, FileContext, observed_info, prepare_file, process_file,
}
use anti_entropator.Ingest.Pipeline.{BlobState, IngestOutcome}
use anti_entropator.Ingest.Output.{IngestMode, dry_run, ingest, writes}
use anti_entropator.Ingest.Upload.{
  SourceFile, stream_chunks, finish_upload, stream_upload, upload_verified, verify_existing,
}
use anti_entropator.Ingest.Upload.Addressed.{IsAddressed}
use anti_entropator.Ingest.State.{decide}
use anti_entropator.Scan.{
  tool_name, fallback_name, get_suggested_name, blocking_io, describe_file, scan_file,
}
use anti_entropator.Scan.Enrichers.{Tools, run_tool, exiftool_datetime}
use anti_entropator.Scan.Names.{is_uuid_like, is_hex_hash, is_generic_filename}
use anti_entropator.Storage.{Object}
use anti_entropator.FileHash.{hash_reads, full_sha256, quick_sha256}
use anti_entropator.Domain.FileInfo.{
  FilePath, FileInfo, new, with_observation, with_parent_dir, with_content_hash, with_partial_hash,
}
use anti_entropator.Domain.Paths.{file_name, extension, strip_prefix, parent}
use anti_entropator.Domain.RelativePath.{components, normalize_relative_path}
use anti_entropator.Domain.ContentHash.{to_object_key, to_lower_hex}
use anti_entropator.Domain.Observation.{Uuid}
use anti_entropator.Domain.Category.{from_extension, extension_category, classify}
use anti_entropator.Domain.Utf8.{is_utf8}

abbrev no_tools : Tools Memory
no_tools = one_line []

abbrev no_uuid : Uuid → Bytes → Uuid
no_uuid ns name = length name

abbrev same_bytes : FilePath → Memory → SourceFile
same_bytes path w = record {
  path = path;
  metadata = ok 3;
  opened = ok tt;
  reads = ok (1 ∷ 2 ∷ []) ∷ ok (3 ∷ []) ∷ [];
}

abbrev first_run : RunContext
first_run = record { run_id = 1; source_id = ascii "usb" }

abbrev connected : IngestMode → FileContext Memory Text
connected mode = record {
  root = ascii "/usb";
  bucket = ascii "lake";
  operator = some memory;
  mode = mode;
  run = first_run;
  state = none;
}

abbrev photo_path : FilePath
photo_path = ascii "/usb/dcim/photo.jpg"

abbrev processed : IngestMode → Result IngestOutcome × Memory
processed mode =
    process_file no_tools three_bytes plain_sha no_uuid same_bytes (connected mode) photo_path
      empty_memory

writing_mode : writes (connected ingest).mode ≡ true
unfolding writes
writing_mode = refl

preview_mode : writes (connected dry_run).mode ≡ false
unfolding writes
preview_mode = refl

empty_memory-IsAddressed : IsAddressed memory plain_sha memory-IsObjectStore empty_memory
unfolding lookup
empty_memory-IsAddressed h o e =
    let bad : none ≡ some o = sym (memory_object empty_memory (to_object_key h)) ∙ e in absurd cc

process_file-IsBacked_example :
    IsAddressed memory plain_sha memory-IsObjectStore (processed ingest).1
    × IsBacked no_tools three_bytes plain_sha no_uuid same_bytes memory memory-IsObjectStore
        plain_sha-IsStreaming
        (three_bytes-IsReadOnly memory-IsObjectStore.object [])
        (connected ingest)
        photo_path
        (processed ingest).0
        (processed ingest).1
process_file-IsBacked_example =
    process_file-IsBacked no_tools three_bytes plain_sha no_uuid same_bytes memory
      memory-IsObjectStore plain_sha-IsStreaming
      (three_bytes-IsReadOnly memory-IsObjectStore.object []) (connected ingest) photo_path
      writing_mode empty_memory refl empty_memory-IsAddressed

abbrev objects_of : Memory → Text → Option Object
objects_of = memory-IsObjectStore.object

process_file_keeps_example : objects_of (processed dry_run).1 ≡ objects_of empty_memory
process_file_keeps_example =
    process_file_keeps objects_of no_tools three_bytes plain_sha no_uuid same_bytes
      (three_bytes-IsReadOnly objects_of []) (connected dry_run) photo_path preview_mode
      empty_memory (λ k w. memory-IsObjectStore.stat_keeps k w)

abbrev prepared : Result FileInfo × Memory
prepared =
    prepare_file no_tools three_bytes plain_sha no_uuid same_bytes (connected ingest) photo_path
      empty_memory

prepare_file_lem_example :
    Prepares objects_of no_tools three_bytes plain_sha no_uuid same_bytes
      (three_bytes-IsReadOnly objects_of [])
      (connected ingest)
      photo_path
      prepared.0
    × (objects_of prepared.1 ≡ objects_of empty_memory)
prepare_file_lem_example =
    prepare_file_lem objects_of no_tools three_bytes plain_sha no_uuid same_bytes
      (three_bytes-IsReadOnly objects_of []) (connected ingest) photo_path empty_memory

abbrev uploaded_as : Result IngestOutcome → Option (Option Text)
uploaded_as (ok (IngestOutcome.observed info BlobState.uploaded)) = some info.relative_path
uploaded_as _ = none

process_file_runs : uploaded_as (processed ingest).0 ≡ some (some (ascii "dcim/photo.jpg"))
unfolding process_file prepare_file scan_file normalize_relative_path components strip_prefix
    text_eq starts_with trim_start_matches split_on is_utf8 get_suggested_name tool_name
    describe_file blocking_io full_sha256 hash_reads to_lower_hex with_content_hash
    with_partial_hash with_parent_dir quick_sha256 fallback_name is_generic_filename is_uuid_like
    is_hex_hash contains before parent observed_info with_observation attempt try_file decide
    verify_existing lookup stat_object upload_verified stream_upload stream_chunks finish_upload
    close_memory insert to_object_key writes join new classify exiftool_datetime run_tool lines
    extension file_name from_extension extension_category is_one_of
process_file_runs = refl

stored_bytes :
    lookup (to_object_key (record { value = ascii "010203" })) (processed ingest).1.objects
    ≡ some (record {
      content = 1 ∷ 2 ∷ 3 ∷ [];
      sha256 = some (ascii "010203");
      size = some (ascii "3");
    })
unfolding process_file prepare_file scan_file normalize_relative_path components strip_prefix
    text_eq starts_with trim_start_matches split_on is_utf8 get_suggested_name tool_name
    describe_file blocking_io full_sha256 hash_reads to_lower_hex with_content_hash
    with_partial_hash with_parent_dir quick_sha256 fallback_name is_generic_filename is_uuid_like
    is_hex_hash contains before parent observed_info with_observation attempt try_file decide
    verify_existing lookup stat_object upload_verified stream_upload stream_chunks finish_upload
    close_memory insert to_object_key writes join new classify exiftool_datetime run_tool lines
    extension file_name from_extension extension_category is_one_of decimal
stored_bytes = refl
