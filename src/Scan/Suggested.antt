-- ===== src/Scan/Suggested.antt =====
-- The names that `scan_file` suggests and the path separator.
use anti_entropator.Prelude.Io.{bind_cases, with_context_io}
use anti_entropator.Domain.Paths.Laws.{Lacks}
use anti_entropator.Prelude.{
  ◌≡◌, refl, ◌∙◌, inl, inr, false, Option, none, some, Result, ok, err, has_byte, Bool-cases, Text,
  ascii, text_eq,
}
use anti_entropator.Scan.{
  Metadata, Disk, apply, tool_name, dated_name, fallback_name, or_fallback, get_suggested_name,
  blocking_io, fresh_info, describe_file, name_file, scan_rest, scan_file,
}
use anti_entropator.Scan.Enrichers.{Tools}
use anti_entropator.Scan.Enrichers.PlainNames.{
  IsTextual, has_byte-append, IsPlainName, dotted_lacks, exiftool_datetime-IsPlainName,
  ffprobe_datetime-IsPlainName, pdfinfo_title-IsPlainName,
}
use anti_entropator.Scan.Names.{is_generic_filename}
use anti_entropator.Domain.FileInfo.{
  FilePath, Timestamp, FileInfo, new, with_mime_type, with_content_hash, with_partial_hash,
  with_suggested_name,
}
use anti_entropator.Domain.Category.{
  FileCategory, image, video, audio, document, archive, code, font, tabular, other,
}
use anti_entropator.Ingest.Upload.{Sha256}

module _ {World : Type 0} (tools : Tools World) (disk : Disk World) (sha : Sha256)
    (textual : IsTextual tools)
    (stamp_lacks : (t : Timestamp) → has_byte b'/' (disk.format_stamp t) ≡ false) where
  tool_name-IsPlainName :
      (category : FileCategory) (path : FilePath) (ext : Text) (w : World)
      → IsPlainName (tool_name tools disk sha category path ext w).0
  unfolding tool_name
  tool_name-IsPlainName image path ext w = exiftool_datetime-IsPlainName tools textual path w
  tool_name-IsPlainName video path ext w = ffprobe_datetime-IsPlainName tools textual path w
  tool_name-IsPlainName audio path ext w = ffprobe_datetime-IsPlainName tools textual path w
  tool_name-IsPlainName document path ext w = elim (Bool-cases (text_eq ext (ascii ".pdf"))) [
    | inl h ↦ rw (tool_name, h) (pdfinfo_title-IsPlainName tools textual path w)
    | inr h ↦ rw (tool_name, h) tt
  ]
  tool_name-IsPlainName archive path ext w = tt
  tool_name-IsPlainName code path ext w = tt
  tool_name-IsPlainName font path ext w = tt
  tool_name-IsPlainName tabular path ext w = tt
  tool_name-IsPlainName other path ext w = tt

  dated_name-IsPlainName :
      (ext : Text) (o : Option Timestamp)
      → has_byte b'/' ext ≡ false
      → IsPlainName (dated_name tools disk sha ext o)
  dated_name-IsPlainName ext none h = tt
  dated_name-IsPlainName ext (some t) h =
      has_byte-append b'/' (disk.format_stamp t) ext (stamp_lacks t) h

  fallback_name-IsPlainName :
      (info : FileInfo)
      → has_byte b'/' info.extension ≡ false
      → IsPlainName (fallback_name tools disk sha info)
  unfolding fallback_name
  fallback_name-IsPlainName info h =
      elim (Bool-cases (is_generic_filename tools.to_lowercase info.filename)) [
        | inl g ↦ rw (fallback_name, g) (dated_name-IsPlainName info.extension info.modified_at h)
        | inr g ↦ rw (fallback_name, g) tt
      ]

  or_fallback-IsPlainName :
      (info : FileInfo) (o : Option (Text × Text))
      → has_byte b'/' info.extension ≡ false
      → IsPlainName o
      → IsPlainName (or_fallback tools disk sha info o)
  or_fallback-IsPlainName info none e h = fallback_name-IsPlainName info e
  or_fallback-IsPlainName info (some n) e h = h

  -- The name that the description of a file suggests has no separator.
  abbrev pub SuggestsPlainName : Result FileInfo → Type 0
  SuggestsPlainName (err e) = Unit
  SuggestsPlainName (ok info) = Lacks b'/' info.suggested_name

  named :
      (o : Option (Text × Text)) (info : FileInfo)
      → info.suggested_name ≡ none
      → IsPlainName o
      → Lacks b'/' (apply o (λ i n. with_suggested_name i n.0 n.1) info).suggested_name
  unfolding with_suggested_name
  named none info e h = rw e tt
  named (some n) info e h = h

  described :
      (info : FileInfo) (found : Option Text × Option Text × Option Text)
      → ((describe_file tools disk sha info found).suggested_name ≡ info.suggested_name)
        × ((describe_file tools disk sha info found).extension ≡ info.extension)
  unfolding describe_file with_content_hash with_partial_hash with_mime_type
  described info (none, none, none) = (refl, refl)
  described info (none, none, some c) = (refl, refl)
  described info (none, some b, none) = (refl, refl)
  described info (none, some b, some c) = (refl, refl)
  described info (some a, none, none) = (refl, refl)
  described info (some a, none, some c) = (refl, refl)
  described info (some a, some b, none) = (refl, refl)
  described info (some a, some b, some c) = (refl, refl)

  name_file-IsPlain :
      (path : FilePath) (info : FileInfo) (w : World)
      → info.suggested_name ≡ none
      → has_byte b'/' info.extension ≡ false
      → Lacks b'/' (name_file tools disk sha path info w).0.suggested_name
  unfolding get_suggested_name
  name_file-IsPlain path info w e h =
      named (get_suggested_name tools disk sha path info w).0 info e (
        or_fallback-IsPlainName info
          (tool_name tools disk sha info.category path info.extension w).0 h
          (tool_name-IsPlainName info.category path info.extension w))

  fresh_plain :
      (path : FilePath) (metadata : Metadata) (w : World)
      → ((fresh_info tools disk sha path metadata w).0.suggested_name ≡ none)
        × (has_byte b'/' (fresh_info tools disk sha path metadata w).0.extension ≡ false)
  unfolding has_byte new
  fresh_plain path metadata w = (refl, dotted_lacks tools textual (ascii "(none)") path refl)

  scan_rest-SuggestsPlainName :
      (path : FilePath) (metadata : Metadata) (w : World)
      → SuggestsPlainName (scan_rest tools disk sha path metadata w).0
  scan_rest-SuggestsPlainName path metadata w =
      let (info, w1) = fresh_info tools disk sha path metadata w in
      let (found, w2) = blocking_io tools disk sha path metadata.len w1 in
      bind_cases (λ r u. SuggestsPlainName r) _
        (with_context_io (ascii "Blocking I/O task panicked") disk.join_blocking) w2 (λ e h. tt)
        (λ u h.
          let (named_as, ext) = described info found in
          let (no_name, plain) = fresh_plain path metadata w in
          name_file-IsPlain path (describe_file tools disk sha info found) (disk.join_blocking w2).1
            (named_as ∙ no_name) (rw ext plain))

  -- Where the libraries put no separator into a text that has none, and none into a printed time: a
  -- name that `scan_file` suggests, from the output of a tool or from the time of the last change,
  -- has no path separator, whatever the tools print.
  pub scan_file-SuggestsPlainName :
      (path : FilePath) (w : World) → SuggestsPlainName (scan_file tools disk sha path w).0
  unfolding scan_file
  scan_file-SuggestsPlainName path w =
      bind_cases (λ r u. SuggestsPlainName r) (scan_rest tools disk sha path)
        (with_context_io (ascii "Failed to read file metadata") (disk.metadata path)) w (λ e h. tt)
        (λ m h. scan_rest-SuggestsPlainName path m (disk.metadata path w).1)
