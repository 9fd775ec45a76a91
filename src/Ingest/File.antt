-- ===== src/Ingest/File.antt =====
-- src/ingest/mod.rs: what a worker does with one file. A panic of the worker (`expect`) is an error of
-- the model.
pub mod Prepared
pub mod Placed
pub mod Preview
mod Tests
use anti_entropator.Prelude.Io.{Io, pure, fail, lift, with_context_io, ◌>>=◌, ◌>>◌}
use anti_entropator.Prelude.{
  ℕ, zero, suc, ◌+◌, ◌-◌, ◌/◌, ◌<◌, not, Option, none, some, ◌++◌, Error, message, context, Result,
  ok, err, is_source_changed, if◌then◌else◌, Bytes, Text, ascii,
}
use anti_entropator.Ingest.Pipeline.{
  BlobState, uploaded, existing, IngestOutcome, observed, unchanged, Writer,
}
use anti_entropator.Ingest.Output.{IngestMode, writes, failed}
use anti_entropator.Ingest.Upload.{
  UploadOutcome, already_exists, BlobVerdict, missing, verified, legacy, Sha256, SourceFile,
  upload_verified, verify_existing,
}
use anti_entropator.Ingest.State.{CurrentState, PathDecision, observe, decide}
use anti_entropator.Scan.{Disk, scan_file}
use anti_entropator.Scan.Enrichers.{Tools}
use anti_entropator.Storage.{Operator}
use anti_entropator.FileHash.{full_sha256}
use anti_entropator.Domain.FileInfo.{
  FilePath, Timestamp, FileInfo, with_observation, with_parent_dir,
}
use anti_entropator.Domain.Paths.{strip_prefix, parent}
use anti_entropator.Domain.RelativePath.{normalize_relative_path}
use anti_entropator.Domain.Utf8.{is_utf8}
use anti_entropator.Domain.ContentHash.{ContentHash, to_object_key}
use anti_entropator.Domain.Observation.{present, Uuid}

pub record RunContext : Type 0 where
  pub run_id : Uuid
  pub source_id : Text

pub record FileContext (World Writer : Type 0) : Type 0 where
  pub root : FilePath
  pub bucket : Text  -- of the configuration
  pub operator : Option (Operator World Writer)
  pub mode : IngestMode
  pub run : RunContext
  pub state : Option CurrentState

abbrev pub source_changed_retries : ℕ
source_changed_retries = 1

abbrev or_else : {A : Type 0} → A → Option A → A
or_else a none = a
or_else a (some b) = b

abbrev pub expect : {A : Type 0} → Text → Option A → Result A
expect panic none = err (message panic)
expect panic (some a) = ok a

-- The parent directory, where it can be printed.
abbrev set_parent : Option Bytes → FileInfo → FileInfo
set_parent none info = info
set_parent (some dir) info = if is_utf8 dir then with_parent_dir info dir else info

abbrev pub relative_to : (root path : FilePath) → Bytes
relative_to root path = or_else path (strip_prefix root path)

abbrev pub object_uri : (bucket : Text) → ContentHash → Text
object_uri bucket h = ascii "s3://" ++ bucket ++ ascii "/" ++ to_object_key h

module _ {World : Type 0} (tools : Tools World) (disk : Disk World) where
  -- `RunContext::new`
  unfoldable pub new_run : (root : FilePath) → (source : Option Text) → Io World RunContext
  new_run root source w =
      let (id, w') = disk.fresh_uuid w in
      elim source [
        | some name ↦ (ok (record { run_id = id; source_id = name }), w')
        | none ↦ if is_utf8 root then (ok (record { run_id = id; source_id = root }), w') else (
          err (
              message (
                ascii "Root path is not valid UTF-8 and cannot be the source identity: "
                ++ tools.to_string_lossy root
                ++ ascii ". Pass --source <name> to name this source explicitly.")),
          w,
        )
      ]

module _ {World : Type 0} (disk : Disk World) (sha : Sha256) where
  -- The hash of the scan, or a hash of the whole file.
  abbrev ensure_hash : FilePath → Option ContentHash → Io World ContentHash
  ensure_hash path (some h) = pure h
  ensure_hash path none = do
    file ← λ w. (ok (disk.open_file path w).0, (disk.open_file path w).1)
    with_context_io (ascii "Blocking hash task panicked") disk.join_blocking
    value ← lift (full_sha256 sha file)
    pure (record { value = value })

module _ {World Writer : Type 0} (tools : Tools World) (disk : Disk World) (sha : Sha256)
    (uuid_v5 : Uuid → Bytes → Uuid) (source_file : FilePath → World → SourceFile) where
  -- The row of a scanned file.
  unfoldable pub observed_info :
      FileContext World Writer
      → (relative_path : Text) (h : ContentHash) (now : Timestamp) → FileInfo
      → FileInfo
  observed_info fc relative_path h now info =
      with_observation uuid_v5
        (record info { content_hash = some h; object_uri = some (object_uri fc.bucket h) })
        fc.run.source_id relative_path fc.run.run_id present now

  unfoldable pub prepare_file : FileContext World Writer → FilePath → Io World FileInfo
  prepare_file fc path = do
    info ← scan_file tools disk sha path
    relative_path ← lift (normalize_relative_path tools.to_string_lossy (relative_to fc.root path))
    h ← ensure_hash disk sha path info.content_hash
    λ w. (
      ok (
          observed_info fc relative_path h (disk.now w).0
            (set_parent (parent (relative_to fc.root path)) info)),
      (disk.now w).1,
    )

  module _ (fc : FileContext World Writer) (op : Operator World Writer) (path : FilePath) where
    abbrev stamp_ingested : FileInfo → BlobState → Io World IngestOutcome
    stamp_ingested info blob w =
        if writes fc.mode
        then (
          ok (IngestOutcome.observed (record info { ingested_at = some (disk.now w).0 }) blob),
          (disk.now w).1,
        )
        else (ok (IngestOutcome.observed info blob), w)

    -- The end of a round of the loop.
    abbrev conclude : FileInfo → BlobState → PathDecision → Io World IngestOutcome
    conclude info blob PathDecision.unchanged = pure (IngestOutcome.unchanged blob)
    conclude info blob observe = stamp_ingested info blob

    abbrev give_up : Error → Io World IngestOutcome
    give_up e = fail (context (ascii "upload failed after 1 retry") e)

    abbrev retry_or : Option (Io World IngestOutcome) → Error → Io World IngestOutcome
    retry_or none e = give_up e
    retry_or (some retry) e = if is_source_changed e then retry else give_up e

    abbrev on_upload :
        (retry : Option (Io World IngestOutcome))
        → FileInfo
        → PathDecision
        → Result UploadOutcome
        → Io World IngestOutcome
    on_upload retry info decision (ok (UploadOutcome.uploaded n)) =
        conclude info BlobState.uploaded decision
    on_upload retry info decision (ok already_exists) = conclude info existing decision
    on_upload retry info decision (err e) = retry_or retry e

    abbrev upload_blob :
        (retry : Option (Io World IngestOutcome))
        → FileInfo
        → ContentHash
        → PathDecision
        → Io World IngestOutcome
    upload_blob retry info h decision w =
        let (r, w') = upload_verified op sha (source_file path w) h info.size_bytes w in
        on_upload retry info decision r w'

    abbrev on_verdict :
        (retry : Option (Io World IngestOutcome))
        → FileInfo
        → ContentHash
        → PathDecision
        → BlobVerdict
        → Io World IngestOutcome
    on_verdict retry info h decision verified = conclude info existing decision
    on_verdict retry info h decision legacy = conclude info existing decision
    on_verdict retry info h decision missing =
        if not (writes fc.mode)
        then conclude info BlobState.uploaded decision
        else upload_blob retry info h decision

    -- One round of the loop, with what a retry is.
    unfoldable pub try_file :
        (retry : Option (Io World IngestOutcome)) → FileInfo → Io World IngestOutcome
    try_file retry info = do
      h ← lift (expect (ascii "prepare_file always sets the content hash") info.content_hash)
      relative_path ←
          lift (expect (ascii "prepare_file always sets the relative path") info.relative_path)
      verdict ← verify_existing op h info.size_bytes
      on_verdict retry info h (decide fc.state relative_path h.value) verdict

    -- The loop, with the attempts that are left.
    unfoldable pub attempt : ℕ → FileInfo → Io World IngestOutcome
    attempt zero info = try_file none info
    attempt (suc left) info = try_file (some (prepare_file fc path >>= attempt left)) info

  abbrev process_prepared :
      FileContext World Writer
      → Option (Operator World Writer)
      → FilePath
      → FileInfo
      → Io World IngestOutcome
  process_prepared fc none path info = pure (IngestOutcome.observed info BlobState.uploaded)
  process_prepared fc (some op) path info = attempt fc op path source_changed_retries info

  unfoldable pub process_file : FileContext World Writer → FilePath → Io World IngestOutcome
  process_file fc path = do info ← prepare_file fc path; process_prepared fc fc.operator path info
