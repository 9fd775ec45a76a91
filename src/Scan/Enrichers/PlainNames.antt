-- ===== src/Scan/Enrichers/PlainNames.antt =====
-- The names that the enrichers return hold no separator.
-- The libraries make no separator where there is none.
use anti_entropator.Prelude.Chars.{
  Chars, encode_utf8, encode_utf8-lacks, trim, lines, is_ascii_digit, between,
}
use anti_entropator.Domain.Paths.Laws.{Lacks, extension-plain}
use anti_entropator.Prelude.{
  ℕ, ◌≡◌, refl, Bool, true, false, not, Option, none, some, List, [], ◌∷◌, ◌++◌, arith, is_empty,
  any-append, all-weaken, starts_with, is_one_of, has_byte, ◌==◌, if◌then◌else◌, Bytes, Text, ascii,
  text_eq,
}
use anti_entropator.Scan.Enrichers.{
  parse_exif_datetime, parse_iso_datetime, sanitize_filename, title_tag, trim_title, ToolOutput,
  Tools, dotted, stamped, first_exif, exif_output, exiftool_datetime, and_then, creation_time,
  ffprobe_output, ffprobe_datetime, title_name, first_title, pdfinfo_output, pdfinfo_title,
}
use anti_entropator.Scan.Enrichers.Stamps.{is_stamp_char, IsStamp, datetimes-IsStamp}
use anti_entropator.Scan.Enrichers.Sanitized.{is_safe, sanitize_filename_lem}
use anti_entropator.Domain.Paths.{extension}
use anti_entropator.Domain.FileInfo.{FilePath}

pub record IsTextual {World : Type 0} (tools : Tools World) : Type 0 where
  pub lossy_lacks :
      (s : Bytes)
      → has_byte b'/' s ≡ false
      → has_byte b'/' (tools.to_lowercase (tools.to_string_lossy s)) ≡ false

pub has_byte-append :
    (b : ℕ) (s t : Text) → has_byte b s ≡ false → has_byte b t ≡ false → has_byte b (s ++ t) ≡ false
unfolding has_byte
has_byte-append b s t h k = rw (any-append (λ d. d == b) s t) (ground arith)

abbrev is_no_slash : ℕ → Bool
is_no_slash c = not (c == b'/')

stamp_no_slash : (c : ℕ) → is_stamp_char c ≡ true → is_no_slash c ≡ true
unfolding is_stamp_char is_ascii_digit between
stamp_no_slash c h = ground arith

safe_no_slash : (c : ℕ) → is_safe c ≡ true → is_no_slash c ≡ true
unfolding is_safe is_one_of text_eq
safe_no_slash c h = ground arith

-- A suggestion has no separator.
abbrev pub IsPlainName : Option (Text × Text) → Type 0
IsPlainName none = Unit
IsPlainName (some n) = has_byte b'/' n.0 ≡ false

module _ {World : Type 0} (tools : Tools World) (textual : IsTextual tools) where
  dotted_cases :
      (absent : Text) (o : Option Bytes)
      → has_byte b'/' absent ≡ false
      → Lacks b'/' o
      → has_byte b'/' (dotted tools absent o) ≡ false
  dotted_cases absent none m h = m
  dotted_cases absent (some e) m h = unfold has_byte in ground (arith, textual.lossy_lacks e h)

  pub dotted_lacks :
      (absent : Text) (path : FilePath)
      → has_byte b'/' absent ≡ false
      → has_byte b'/' (dotted tools absent (extension path)) ≡ false
  dotted_lacks absent path m = dotted_cases absent (extension path) m (extension-plain path)

  stamped-IsPlainName :
      (path : FilePath) (reason : Text) (o : Option Chars)
      → IsStamp o
      → IsPlainName (stamped tools path reason o)
  unfolding has_byte
  stamped-IsPlainName path reason none h = tt
  stamped-IsPlainName path reason (some s) h =
      has_byte-append b'/' (encode_utf8 s) (dotted tools [] (extension path))
        (encode_utf8-lacks b'/' s refl (all-weaken is_stamp_char is_no_slash stamp_no_slash s h))
        (dotted_lacks [] path refl)

  later_exif :
      (o found : Option Chars) (skip : Bool)
      → IsStamp o
      → IsStamp found
      → IsStamp (elim o [ some s ↦ if skip then found else some s | none ↦ found ])
  later_exif none found skip h k = k
  later_exif (some s) found true h k = k
  later_exif (some s) found false h k = h

  first_exif-IsStamp : (ls : List Chars) → IsStamp (first_exif tools ls)
  first_exif-IsStamp [] = tt
  first_exif-IsStamp (line ∷ rest) =
      later_exif (parse_exif_datetime (trim line)) (first_exif tools rest) (is_empty (trim line))
        (datetimes-IsStamp (trim line)).0 (first_exif-IsStamp rest)

  exif_output-IsPlainName :
      (path : FilePath) (o : Option ToolOutput) → IsPlainName (exif_output tools path o)
  exif_output-IsPlainName path none = tt
  exif_output-IsPlainName path (some output) =
      stamped-IsPlainName path (ascii "exif_datetime_original")
        (first_exif tools (lines (tools.from_utf8_lossy output.stdout)))
        (first_exif-IsStamp (lines (tools.from_utf8_lossy output.stdout)))

  iso-IsStamp : (o : Option Chars) → IsStamp (and_then tools o parse_iso_datetime)
  iso-IsStamp none = tt
  iso-IsStamp (some s) = (datetimes-IsStamp s).1

  ffprobe_output-IsPlainName :
      (path : FilePath) (o : Option ToolOutput) → IsPlainName (ffprobe_output tools path o)
  ffprobe_output-IsPlainName path none = tt
  ffprobe_output-IsPlainName path (some output) =
      stamped-IsPlainName path (ascii "ffprobe_creation_time") _
        (iso-IsStamp (creation_time tools (tools.from_utf8_lossy output.stdout)))

  if-IsPlainName :
      (b : Bool) (n : Text × Text)
      → has_byte b'/' n.0 ≡ false
      → IsPlainName (if b then some n else none)
  if-IsPlainName true n h = h
  if-IsPlainName false n h = tt

  title_name-IsPlainName : (title : Chars) → IsPlainName (title_name tools title)
  unfolding has_byte
  title_name-IsPlainName title = if-IsPlainName _ _ (
      has_byte-append b'/' (encode_utf8 (sanitize_filename title)) (ascii ".pdf")
        (encode_utf8-lacks b'/' (sanitize_filename title) refl
          (all-weaken is_safe is_no_slash safe_no_slash _ (sanitize_filename_lem title).1))
        refl)

  later_title :
      (o found : Option (Text × Text)) (keep : Bool)
      → IsPlainName o
      → IsPlainName found
      → IsPlainName (elim o [ some n ↦ if keep then some n else found | none ↦ found ])
  later_title none found keep h k = k
  later_title (some n) found true h k = h
  later_title (some n) found false h k = k

  first_title-IsPlainName : (ls : List Chars) → IsPlainName (first_title tools ls)
  first_title-IsPlainName [] = tt
  first_title-IsPlainName (line ∷ rest) =
      later_title (title_name tools (trim (trim_title 0 line))) (first_title tools rest)
        (starts_with line title_tag) (title_name-IsPlainName (trim (trim_title 0 line)))
        (first_title-IsPlainName rest)

  pdfinfo_output-IsPlainName : (o : Option ToolOutput) → IsPlainName (pdfinfo_output tools o)
  pdfinfo_output-IsPlainName none = tt
  pdfinfo_output-IsPlainName (some output) =
      first_title-IsPlainName (lines (tools.from_utf8_lossy output.stdout))

  pub exiftool_datetime-IsPlainName :
      (path : FilePath) (w : World) → IsPlainName (exiftool_datetime tools path w).0
  unfolding exiftool_datetime
  exiftool_datetime-IsPlainName path w = exif_output-IsPlainName path _

  pub ffprobe_datetime-IsPlainName :
      (path : FilePath) (w : World) → IsPlainName (ffprobe_datetime tools path w).0
  unfolding ffprobe_datetime
  ffprobe_datetime-IsPlainName path w = ffprobe_output-IsPlainName path _

  pub pdfinfo_title-IsPlainName :
      (path : FilePath) (w : World) → IsPlainName (pdfinfo_title tools path w).0
  unfolding pdfinfo_title
  pdfinfo_title-IsPlainName path w = pdfinfo_output-IsPlainName _
