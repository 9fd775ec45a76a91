-- ===== src/Scan/Tests.antt =====
-- Concrete scans.
use anti_entropator.Ingest.Upload.Sample.{plain_sha}
use anti_entropator.Prelude.Chars.{
  lines, trim, trim_start, trim_end, split_whitespace, parses_u32, is_ascii_digit, is_whitespace,
  encode_utf8,
}
use anti_entropator.Prelude.{
  ◌≡◌, refl, Option, none, some, Result, ok, err, split_on, has_byte, Text, ascii, text_eq,
}
use anti_entropator.Scan.{scan_file}
use anti_entropator.Scan.Sample.{one_line, three_bytes, one_line-IsTextual}
use anti_entropator.Scan.Suggested.{SuggestsPlainName, scan_file-SuggestsPlainName}
use anti_entropator.Scan.Enrichers.{parse_exif_datetime, Tools, run_tool, exiftool_datetime}
use anti_entropator.Domain.FileInfo.{FilePath, FileInfo}
use anti_entropator.Domain.Paths.{file_name, extension}
use anti_entropator.Domain.RelativePath.{components}

abbrev exif : Tools (Unit {0})
exif = one_line (ascii "2024:01:15 14:30:45\n")

abbrev suggested : Result FileInfo → Option Text
suggested (ok info) = info.suggested_name
suggested (err e) = none

abbrev photo_path : FilePath
photo_path = ascii "/usb/img_1.jpg"

exif_name_example :
    exiftool_datetime exif photo_path tt
    ≡ (some (ascii "2024-01-15_14-30-45.jpg", ascii "exif_datetime_original"), tt)
unfolding exiftool_datetime run_tool lines split_on parse_exif_datetime split_whitespace trim
    trim_end trim_start is_whitespace parses_u32 is_ascii_digit encode_utf8 extension file_name
    components text_eq
exif_name_example = refl

scan_file-SuggestsPlainName_example :
    SuggestsPlainName exif three_bytes plain_sha
      (one_line-IsTextual _)
      (λ t. unfold has_byte in refl)
      (scan_file exif three_bytes plain_sha photo_path tt).0
scan_file-SuggestsPlainName_example =
    scan_file-SuggestsPlainName exif three_bytes plain_sha (one_line-IsTextual _)
      (λ t. unfold has_byte in refl) photo_path tt
