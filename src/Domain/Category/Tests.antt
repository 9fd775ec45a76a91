-- ===== src/Domain/Category/Tests.antt =====
-- Categories at concrete inputs, with the ASCII part of the lower-case mapping.
use anti_entropator.Prelude.{
  ℕ, ◌+◌, ◌≡◌, refl, ◌&&◌, none, some, [], map, leb, if◌then◌else◌, Text, ascii, text_eq,
  starts_with, contains, is_one_of, trim_start_matches,
}
use anti_entropator.Domain.Category.{
  image, audio, archive, code, tabular, other, mime_category, extension_category, from_mime,
  from_extension, classify,
}
use anti_entropator.Domain.Category.Laws.{extension_category-row, classify-dot}

abbrev lower_byte : ℕ → ℕ
lower_byte c = if leb b'A' c && leb c b'Z' then c + 32 else c

abbrev ascii_lowercase : Text → Text
ascii_lowercase s = map lower_byte s

classify_runs :
    (classify ascii_lowercase (ascii ".JPG") none ≡ image)
    × (classify ascii_lowercase (ascii "(none)") none ≡ other)
    × (classify ascii_lowercase (ascii ".jpg") (some (ascii "audio/mpeg")) ≡ audio)
    × (classify ascii_lowercase [] (some (ascii "application/x-tar")) ≡ archive)
    × (classify ascii_lowercase [] (some (ascii "application/json")) ≡ code)
unfolding classify from_mime from_extension mime_category extension_category starts_with contains
    is_one_of text_eq trim_start_matches
classify_runs = (refl, refl, refl, refl, refl)

classify-dot_example :
    classify ascii_lowercase (ascii ".PDF") none ≡ classify ascii_lowercase (ascii "PDF") none
classify-dot_example = classify-dot ascii_lowercase (λ s. refl) (ascii "PDF")

extension_category-row_example : extension_category (ascii "sqlite") ≡ tabular
unfolding is_one_of text_eq
extension_category-row_example = extension_category-row tabular (ascii "sqlite") refl
