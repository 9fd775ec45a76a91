-- ===== src/Scan.antt =====
-- src/scan/mod.rs: the description of one file. The file system and the detection of MIME types are
-- parameters; the printing loop of the command is not modelled.
pub mod Names
pub mod Enrichers
pub mod Suggested
pub mod ReadOnly
pub mod Hashed
pub mod Sample
mod Tests
use anti_entropator.Prelude.Io.{Io, with_context_io, ◌>>=◌, ◌>>◌}
use anti_entropator.Prelude.{
  ℕ, ◌+◌, ◌/◌, Bool, true, false, ◌&&◌, Option, none, some, [], ◌++◌, Result, ok, err, ltb,
  if◌then◌else◌, Bytes, Text, ascii, text_eq,
}
use anti_entropator.Domain.FileInfo.{
  FilePath, Timestamp, FileInfo, new, with_mime_type, with_content_hash, with_partial_hash,
  with_suggested_name,
}
use anti_entropator.Domain.Paths.{file_name, extension}
use anti_entropator.Domain.Category.{FileCategory, image, video, audio, document}
use anti_entropator.Domain.Observation.{Uuid}
use anti_entropator.FileHash.{ReadableFile, full_sha256, quick_sha256}
use anti_entropator.Ingest.Upload.{Sha256}
use anti_entropator.Scan.Enrichers.{
  Tools, dotted, exiftool_datetime, ffprobe_datetime, pdfinfo_title,
}
use anti_entropator.Scan.Names.{is_generic_filename}

pub record Metadata : Type 0 where
  pub len : ℕ
  pub modified : Option Timestamp
  pub created : Option Timestamp

-- The file system, the clock, the detection of MIME types, and whether a blocking task panicked.
pub record Disk (World : Type 0) : Type 0 where
  pub metadata : FilePath → Io World Metadata
  pub infer_mime : FilePath → World → Option Text × World
  pub open_file : FilePath → World → ReadableFile × World
  pub join_blocking : Io World (Unit {0})
  pub fresh_uuid : World → Uuid × World
  pub now : World → Timestamp × World
  pub format_stamp : Timestamp → Text

abbrev ok_of : {A : Type 0} → Result A → Option A
ok_of (ok a) = some a
ok_of (err e) = none

abbrev apply : {A : Type 0} → Option A → (FileInfo → A → FileInfo) → FileInfo → FileInfo
apply none f info = info
apply (some a) f info = f info a

module _ {World : Type 0} (tools : Tools World) (disk : Disk World) (sha : Sha256) where
  abbrev pub lossy_name : Option Bytes → Text
  lossy_name none = []
  lossy_name (some name) = tools.to_string_lossy name

  -- The external tool for the category.
  unfoldable pub tool_name :
      FileCategory → FilePath → (extension : Text) → World → Option (Text × Text) × World
  tool_name image path extension w = exiftool_datetime tools path w
  tool_name video path extension w = ffprobe_datetime tools path w
  tool_name audio path extension w = ffprobe_datetime tools path w
  tool_name document path extension w =
      if text_eq extension (ascii ".pdf") then pdfinfo_title tools path w else (none, w)
  tool_name _ path extension w = (none, w)

  abbrev dated_name : (extension : Text) → Option Timestamp → Option (Text × Text)
  dated_name extension none = none
  dated_name extension (some modified) =
      some (disk.format_stamp modified ++ extension, ascii "modified_date_fallback")

  unfoldable pub fallback_name : FileInfo → Option (Text × Text)
  fallback_name info =
      if is_generic_filename tools.to_lowercase info.filename
      then dated_name info.extension info.modified_at
      else none

  abbrev or_fallback : FileInfo → Option (Text × Text) → Option (Text × Text)
  or_fallback info none = fallback_name info
  or_fallback info (some name) = some name

  unfoldable pub get_suggested_name : FilePath → FileInfo → World → Option (Text × Text) × World
  get_suggested_name path info w =
      let (found, w') = tool_name info.category path info.extension w in
      (or_fallback info found, w')

  abbrev hash_if : Bool → (ReadableFile → Result Text) → FilePath → World → Option Text × World
  hash_if false hash path w = (none, w)
  hash_if true hash path w = (ok_of (hash (disk.open_file path w).0), (disk.open_file path w).1)

  -- The blocking task: MIME type, hash of the first block, hash of the whole.
  unfoldable pub blocking_io :
      FilePath → (size_bytes : ℕ) → World → (Option Text × Option Text × Option Text) × World
  blocking_io path size_bytes w =
      let (mime, w1) = disk.infer_mime path w in
      let (partial, w2) =
        hash_if (ltb 0 size_bytes && ltb size_bytes 104857600) (λ f. quick_sha256 sha f 65536) path
          w1 in
      let (full, w3) =
        hash_if (ltb 0 size_bytes && ltb size_bytes 10485760) (full_sha256 sha) path w2 in
      ((mime, partial, full), w3)

  abbrev fresh_info : FilePath → Metadata → World → FileInfo × World
  fresh_info path metadata w =
      let (id, w1) = disk.fresh_uuid w in
      let (now, w2) = disk.now w1 in
      (
        new tools.to_lowercase id now path (lossy_name (file_name path))
            (dotted tools (ascii "(none)") (extension path)) metadata.len metadata.modified
            metadata.created,
        w2,
      )

  -- The builders, in the order of the code.
  unfoldable pub describe_file : FileInfo → Option Text × Option Text × Option Text → FileInfo
  describe_file info found =
      apply found.2 (λ i h. with_content_hash i (record { value = h }))
        (apply found.1 (λ i h. with_partial_hash i (record { value = h }))
          (apply found.0 (with_mime_type tools.to_lowercase) info))

  abbrev name_file : FilePath → FileInfo → World → FileInfo × World
  name_file path info w =
      let (name, w') = get_suggested_name path info w in
      (apply name (λ i n. with_suggested_name i n.0 n.1) info, w')

  -- `scan_file` behind the reading of the metadata.
  abbrev scan_rest : FilePath → Metadata → Io World FileInfo
  scan_rest path metadata = do
    info ← λ w. (ok (fresh_info path metadata w).0, (fresh_info path metadata w).1)
    found ← λ w. (ok (blocking_io path metadata.len w).0, (blocking_io path metadata.len w).1)
    with_context_io (ascii "Blocking I/O task panicked") disk.join_blocking
    λ w. (
      ok (name_file path (describe_file info found) w).0,
      (name_file path (describe_file info found) w).1,
    )

  unfoldable pub scan_file : FilePath → Io World FileInfo
  scan_file path = do
    metadata ← with_context_io (ascii "Failed to read file metadata") (disk.metadata path)
    scan_rest path metadata
