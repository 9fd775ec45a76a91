-- ===== src/Scan/ReadOnly.antt =====
-- Scanning a file changes nothing that its operations leave alone.
use anti_entropator.Prelude.Io.{bind_cases, with_context_io}
use anti_entropator.Prelude.{
  ℕ, ◌≡◌, refl, ◌∙◌, inl, inr, Bool, true, false, List, Result, Bool-cases, Text, ascii, text_eq,
}
use anti_entropator.Scan.{
  Metadata, Disk, tool_name, get_suggested_name, hash_if, blocking_io, fresh_info, describe_file,
  name_file, scan_rest, scan_file,
}
use anti_entropator.Scan.Enrichers.{Tools}
use anti_entropator.Scan.Enrichers.ReadOnly.{
  exiftool_datetime_keeps, ffprobe_datetime_keeps, pdfinfo_title_keeps,
}
use anti_entropator.Domain.FileInfo.{FilePath, FileInfo}
use anti_entropator.Domain.Category.{
  FileCategory, image, video, audio, document, archive, code, font, tabular, other,
}
use anti_entropator.Ingest.Upload.{Sha256}
use anti_entropator.FileHash.{ReadableFile, full_sha256, quick_sha256}

-- What `view` shows of the world, such as the objects of a store, is not changed by reading files,
-- by running the tools, and by taking the time or a random number.
pub record IsReadOnly {World V : Type 0} (view : World → V) (tools : Tools World)
    (disk : Disk World) : Type 0 where
  pub metadata_keeps : (path : FilePath) (w : World) → view (disk.metadata path w).1 ≡ view w
  pub infer_keeps : (path : FilePath) (w : World) → view (disk.infer_mime path w).1 ≡ view w
  pub open_keeps : (path : FilePath) (w : World) → view (disk.open_file path w).1 ≡ view w
  pub join_keeps : (w : World) → view (disk.join_blocking w).1 ≡ view w
  pub uuid_keeps : (w : World) → view (disk.fresh_uuid w).1 ≡ view w
  pub now_keeps : (w : World) → view (disk.now w).1 ≡ view w
  pub spawn_keeps :
      (program : Text) (args : List Text) (w : World) → view (tools.spawn program args w).1 ≡ view w
  pub wait_keeps : (child : tools.Child) (w : World) → view (tools.wait child w).1 ≡ view w

module _ {World V : Type 0} (view : World → V) (tools : Tools World) (disk : Disk World)
    (sha : Sha256) (keeps : IsReadOnly view tools disk) where
  tool_name_keeps :
      (category : FileCategory) (path : FilePath) (ext : Text) (w : World)
      → view (tool_name tools disk sha category path ext w).1 ≡ view w
  unfolding tool_name
  tool_name_keeps image path ext w =
      exiftool_datetime_keeps view tools keeps.spawn_keeps keeps.wait_keeps path w
  tool_name_keeps video path ext w =
      ffprobe_datetime_keeps view tools keeps.spawn_keeps keeps.wait_keeps path w
  tool_name_keeps audio path ext w =
      ffprobe_datetime_keeps view tools keeps.spawn_keeps keeps.wait_keeps path w
  tool_name_keeps document path ext w = elim (Bool-cases (text_eq ext (ascii ".pdf"))) [
    | inl h ↦
        rw (tool_name, h) (pdfinfo_title_keeps view tools keeps.spawn_keeps keeps.wait_keeps path w)
    | inr h ↦ rw (tool_name, h) refl
  ]
  tool_name_keeps archive path ext w = refl
  tool_name_keeps code path ext w = refl
  tool_name_keeps font path ext w = refl
  tool_name_keeps tabular path ext w = refl
  tool_name_keeps other path ext w = refl

  hash_if_keeps :
      (b : Bool) (hash : ReadableFile → Result Text) (path : FilePath) (w : World)
      → view (hash_if tools disk sha b hash path w).1 ≡ view w
  hash_if_keeps false hash path w = refl
  hash_if_keeps true hash path w = keeps.open_keeps path w

  blocking_io_keeps :
      (path : FilePath) (size : ℕ) (w : World)
      → view (blocking_io tools disk sha path size w).1 ≡ view w
  unfolding blocking_io
  blocking_io_keeps path size w =
      hash_if_keeps _ (full_sha256 sha) path _
      ∙ hash_if_keeps _ (λ f. quick_sha256 sha f 65536) path (disk.infer_mime path w).1
      ∙ keeps.infer_keeps path w

  fresh_info_keeps :
      (path : FilePath) (m : Metadata) (w : World)
      → view (fresh_info tools disk sha path m w).1 ≡ view w
  fresh_info_keeps path m w = keeps.now_keeps (disk.fresh_uuid w).1 ∙ keeps.uuid_keeps w

  name_file_keeps :
      (path : FilePath) (info : FileInfo) (w : World)
      → view (name_file tools disk sha path info w).1 ≡ view w
  unfolding get_suggested_name
  name_file_keeps path info w = tool_name_keeps info.category path info.extension w

  scan_rest_keeps :
      (path : FilePath) (m : Metadata) (w : World)
      → view (scan_rest tools disk sha path m w).1 ≡ view w
  scan_rest_keeps path m w =
      let (info, w1) = fresh_info tools disk sha path m w in
      let (found, w2) = blocking_io tools disk sha path m.len w1 in
      let joined : view (disk.join_blocking w2).1 ≡ view w =
        keeps.join_keeps w2 ∙ blocking_io_keeps path m.len w1 ∙ fresh_info_keeps path m w in
      bind_cases (λ r u. view u ≡ view w) _
        (with_context_io (ascii "Blocking I/O task panicked") disk.join_blocking) w2 (λ e h. joined)
        (λ u h.
          name_file_keeps path (describe_file tools disk sha info found) (disk.join_blocking w2).1
          ∙ joined)

  -- `scan_file` leaves what its operations leave.
  pub scan_file_keeps :
      (path : FilePath) (w : World) → view (scan_file tools disk sha path w).1 ≡ view w
  unfolding scan_file
  scan_file_keeps path w =
      bind_cases (λ r u. view u ≡ view w) (scan_rest tools disk sha path)
        (with_context_io (ascii "Failed to read file metadata") (disk.metadata path)) w
        (λ e h. keeps.metadata_keeps path w)
        (λ m h. scan_rest_keeps path m (disk.metadata path w).1 ∙ keeps.metadata_keeps path w)
