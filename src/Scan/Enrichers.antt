-- ===== src/Scan/Enrichers.antt =====
-- src/scan/enrichers.rs: names from the output of exiftool, ffprobe and pdfinfo. The programs, the
-- decoding of their output, JSON and the lower-casing are parameters; texts are lists of characters.
pub mod Stamps
pub mod Sanitized
pub mod PlainNames
pub mod ReadOnly
mod Tests
use anti_entropator.Prelude.Chars.{
  Chars, is_ascii_digit, is_control, utf8_len, encode_utf8, trim, split_whitespace, lines,
  split_first, split_last, before, parses_u32, replace,
}
use anti_entropator.Prelude.{
  ℕ, zero, suc, ◌+◌, ◌-◌, ◌*◌, ◌/◌, ◌<◌, Bool, ◌&&◌, ◌||◌, not, Option, none, some, List, [], ◌∷◌,
  ◌++◌, map, length, take, is_empty, all, starts_with, is_one_of, split_on, ltb, leb, ◌==◌,
  if◌then◌else◌, Bytes, Text, ascii, text_eq,
}
use anti_entropator.Domain.FileInfo.{FilePath}
use anti_entropator.Domain.Paths.{extension}

unfoldable pub is_offset_shape : Chars → Bool
is_offset_shape s =
    let parts = split_on b':' s in
    length parts == 2 && all (λ p. not (is_empty p) && all is_ascii_digit p) parts

abbrev pub stamp : (y m d h min s : Chars) → Chars
stamp y m d h min s =
    y ++ ascii "-" ++ m ++ ascii "-" ++ d ++ ascii "_" ++ h ++ ascii "-" ++ min ++ ascii "-" ++ s

abbrev exif_of : (date time : List Chars) → Option Chars
exif_of (y ∷ m ∷ d ∷ []) (h ∷ min ∷ []) =
    if all parses_u32 (y ∷ m ∷ d ∷ []) && all parses_u32 (h ∷ min ∷ [])
    then some (stamp y m d h min (ascii "00"))
    else none
exif_of (y ∷ m ∷ d ∷ []) (h ∷ min ∷ s ∷ []) =
    if all parses_u32 (y ∷ m ∷ d ∷ []) && all parses_u32 (h ∷ min ∷ s ∷ [])
    then some (stamp y m d h min s)
    else none
exif_of _ _ = none

abbrev exif_parts : List Chars → Option Chars
exif_parts (date ∷ time ∷ parts) = exif_of (split_on b':' date) (split_on b':' time)
exif_parts _ = none

unfoldable pub parse_exif_datetime : Chars → Option Chars
parse_exif_datetime s = exif_parts (split_whitespace s)

abbrev checked_offset : (clean suffix : Chars) → Option Chars
checked_offset clean suffix = if is_offset_shape suffix then some clean else none

-- Behind a minus sign that is not at the start.
abbrev strip_minus : Chars → Option (Chars × Chars) → Option Chars
strip_minus time none = some time
strip_minus time (some ([], suffix)) = some time
strip_minus time (some (c ∷ clean, suffix)) = checked_offset (c ∷ clean) suffix

abbrev strip_plus : Chars → Option (Chars × Chars) → Option Chars
strip_plus time none = strip_minus time (split_last b'-' time)
strip_plus time (some p) = checked_offset p.0 p.1

-- The time without its offset; `none` where the offset is malformed.
unfoldable pub strip_offset : Chars → Option Chars
strip_offset time = strip_plus time (split_last b'+' time)

abbrev is_iso_date : Chars → Bool
is_iso_date date = let parts = split_on b'-' date in length parts == 3 && all parses_u32 parts

abbrev is_iso_time : Chars → Bool
is_iso_time time =
    let parts = split_on b':' time in
    leb 2 (length parts) && leb (length parts) 3 && all parses_u32 parts

abbrev iso_of : (date : Chars) → (time : Option Chars) → Option Chars
iso_of date none = none
iso_of date (some time) =
    if is_iso_date date && is_iso_time time
    then some (date ++ ascii "_" ++ replace b':' b'-' time)
    else none

abbrev iso_parts : Option (Chars × Chars) → Option Chars
iso_parts none = none
iso_parts (some p) = iso_of p.0 (strip_offset (before b'Z' (before b'.' p.1)))

unfoldable pub parse_iso_datetime : Chars → Option Chars
parse_iso_datetime s = iso_parts (split_first b'T' (trim s))

abbrev replaced : ℕ → ℕ
replaced c =
    if is_one_of (c ∷ []) (map (λ d. d ∷ []) (ascii "/\\:*?\"<>|")) || is_control c then b'_' else c

unfoldable pub sanitize_filename : Chars → Chars
sanitize_filename s = take 100 (trim (map replaced s))

abbrev title_tag : Text
title_tag = ascii "Title:"

-- `trim_start_matches("Title:")`: the first argument counts the characters of a tag still to drop.
unfoldable pub trim_title : ℕ → Chars → Chars
trim_title skip [] = []
trim_title (suc skip) (c ∷ s) = trim_title skip s
trim_title zero (c ∷ s) =
    let rest = trim_title 5 s in if starts_with (c ∷ s) title_tag then rest else c ∷ s

-- What an external program leaves.
pub record ToolOutput : Type 0 where
  pub success : Bool
  pub stdout : Bytes

pub data Waited : Type 0 where
  timed_out wait_failed : Waited
  exited : ToolOutput → Waited

-- `serde_json::Value` as the program uses it.
pub record Json : Type 1 where
  pub Value : Type 0
  pub from_str : Chars → Option Value
  pub get : Value → Text → Option Value
  pub as_str : Value → Option Chars

-- Processes, and the text operations of the libraries.
pub record Tools (World : Type 0) : Type 1 where
  pub Child : Type 0
  pub spawn : (program : Text) (args : List Text) → World → Option Child × World
  pub wait : Child → World → Waited × World
  pub from_utf8_lossy : Bytes → Chars
  pub to_string_lossy : Bytes → Text
  pub to_lowercase : Text → Text
  pub chars_to_lowercase : Chars → Chars
  pub json : Json

module _ {World : Type 0} (tools : Tools World) where
  unfoldable pub is_useless_title : Chars → Bool
  is_useless_title title =
      let lower = tools.chars_to_lowercase title in
      text_eq lower (ascii "untitled")
      || text_eq lower (ascii "document")
      || text_eq lower (ascii "microsoft word")
      || starts_with lower (ascii "slide")
      || starts_with lower (ascii "page")
      || ltb (utf8_len lower) 4
      || all (λ c. is_ascii_digit c || c == b'-' || c == b'_') title

  abbrev output_of : Waited → Option ToolOutput
  output_of timed_out = none
  output_of wait_failed = none
  output_of (exited output) = if output.success then some output else none

  abbrev waited : Option tools.Child → World → Option ToolOutput × World
  waited none w = (none, w)
  waited (some child) w = (output_of (tools.wait child w).0, (tools.wait child w).1)

  unfoldable pub run_tool : (program : Text) (args : List Text) → World → Option ToolOutput × World
  run_tool program args w = waited (tools.spawn program args w).0 (tools.spawn program args w).1

  -- The extension with its dot, in lower case.
  abbrev pub dotted : (missing : Text) → Option Bytes → Text
  dotted missing none = missing
  dotted missing (some e) = ascii "." ++ tools.to_lowercase (tools.to_string_lossy e)

  abbrev stamped : FilePath → (reason : Text) → Option Chars → Option (Text × Text)
  stamped path reason none = none
  stamped path reason (some formatted) =
      some (encode_utf8 formatted ++ dotted [] (extension path), reason)

  abbrev first_exif : List Chars → Option Chars
  first_exif [] = none
  first_exif (line ∷ rest) =
      let later = first_exif rest in
      elim (parse_exif_datetime (trim line)) [
        | some formatted ↦ if is_empty (trim line) then later else some formatted
        | none ↦ later
      ]

  abbrev exif_output : FilePath → Option ToolOutput → Option (Text × Text)
  exif_output path none = none
  exif_output path (some output) =
      stamped path (ascii "exif_datetime_original")
        (first_exif (lines (tools.from_utf8_lossy output.stdout)))

  unfoldable pub exiftool_datetime : FilePath → World → Option (Text × Text) × World
  exiftool_datetime path w =
      let (output, w') =
        run_tool (ascii "exiftool")
          (ascii "-DateTimeOriginal" ∷ ascii "-CreateDate" ∷ ascii "-s3" ∷ path ∷ []) w in
      (exif_output path output, w')

  abbrev and_then : {A B : Type 0} → Option A → (A → Option B) → Option B
  and_then none f = none
  and_then (some a) f = f a

  abbrev creation_time : Chars → Option Chars
  creation_time text = and_then (tools.json.from_str text) (λ v.
      and_then (tools.json.get v (ascii "format")) (λ f.
        and_then (tools.json.get f (ascii "tags"))
          (λ t. and_then (tools.json.get t (ascii "creation_time")) tools.json.as_str)))

  abbrev ffprobe_output : FilePath → Option ToolOutput → Option (Text × Text)
  ffprobe_output path none = none
  ffprobe_output path (some output) =
      stamped path (ascii "ffprobe_creation_time")
        (and_then (creation_time (tools.from_utf8_lossy output.stdout)) parse_iso_datetime)

  unfoldable pub ffprobe_datetime : FilePath → World → Option (Text × Text) × World
  ffprobe_datetime path w =
      let (output, w') =
        run_tool (ascii "ffprobe")
          (ascii "-v"
            ∷ ascii "quiet"
            ∷ ascii "-print_format"
            ∷ ascii "json"
            ∷ ascii "-show_entries"
            ∷ ascii "format_tags=creation_time"
            ∷ path
            ∷ [])
          w in
      (ffprobe_output path output, w')

  abbrev is_title : Chars → Bool
  is_title title = not (is_empty title) && ltb 3 (utf8_len title) && not (is_useless_title title)

  abbrev title_name : Chars → Option (Text × Text)
  title_name title =
      let sanitized = sanitize_filename title in
      if is_title title && not (is_empty sanitized) && ltb 3 (utf8_len sanitized)
      then some (encode_utf8 sanitized ++ ascii ".pdf", ascii "pdfinfo_title")
      else none

  abbrev first_title : List Chars → Option (Text × Text)
  first_title [] = none
  first_title (line ∷ rest) =
      let later = first_title rest in
      elim (title_name (trim (trim_title 0 line))) [
        | some name ↦ if starts_with line title_tag then some name else later
        | none ↦ later
      ]

  abbrev pdfinfo_output : Option ToolOutput → Option (Text × Text)
  pdfinfo_output none = none
  pdfinfo_output (some output) = first_title (lines (tools.from_utf8_lossy output.stdout))

  unfoldable pub pdfinfo_title : FilePath → World → Option (Text × Text) × World
  pdfinfo_title path w =
      let (output, w') = run_tool (ascii "pdfinfo") (path ∷ []) w in (pdfinfo_output output, w')
