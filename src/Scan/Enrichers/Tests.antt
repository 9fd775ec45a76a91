-- ===== src/Scan/Enrichers/Tests.antt =====
-- Names out of concrete lines of the tools.
use anti_entropator.Prelude.Chars.{
  is_ascii_digit, is_control, trim, trim_start, trim_end, split_first, split_last, before,
  parses_u32, replace, is_whitespace,
}
use anti_entropator.Prelude.{◌≡◌, refl, none, some, is_one_of, split_on, ascii, text_eq}
use anti_entropator.Scan.Enrichers.{
  is_offset_shape, strip_offset, parse_iso_datetime, sanitize_filename,
}

iso_datetime_example :
    (parse_iso_datetime (ascii "2024-01-15T14:30:45.123456-05:00")
      ≡ some (ascii "2024-01-15_14-30-45"))
    × (parse_iso_datetime (ascii "2024-01-15T14:30Z") ≡ some (ascii "2024-01-15_14-30"))
    × (parse_iso_datetime (ascii "2024-01-15T14:30:45+2") ≡ none)
    × (parse_iso_datetime (ascii "2024-01T14:30:45Z") ≡ none)
unfolding parse_iso_datetime trim trim_start trim_end split_first split_last before parses_u32
    replace is_whitespace is_ascii_digit strip_offset is_offset_shape split_on
iso_datetime_example = (refl, refl, refl, refl)

sanitize_example : sanitize_filename (ascii " a/b:c\n") ≡ ascii "a_b_c_"
unfolding sanitize_filename trim trim_start trim_end is_whitespace is_control is_one_of text_eq
sanitize_example = refl
