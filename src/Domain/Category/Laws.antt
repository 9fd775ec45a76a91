-- ===== src/Domain/Category/Laws.antt =====
-- The extension table, and the agreement of the callers that pass an extension with and without
-- its dot.
use anti_entropator.Prelude.{
  ℕ, ◌≡◌, refl, inl, inr, Bool, true, none, List, [], ◌∷◌, arith, ◌==◌, Bool-cases, all, Text,
  text_eq, text_eq_iff, is_one_of, trim_start_matches,
}
use anti_entropator.Domain.Category.{
  FileCategory, image, video, audio, document, archive, code, font, tabular, other,
  image_extensions, video_extensions, audio_extensions, document_extensions, archive_extensions,
  code_extensions, font_extensions, tabular_extensions, extension_category, from_extension,
  classify,
}

-- The row of the `match` for each category.
abbrev pub row : FileCategory → List Text
row image = image_extensions
row video = video_extensions
row audio = audio_extensions
row document = document_extensions
row archive = archive_extensions
row code = code_extensions
row font = font_extensions
row tabular = tabular_extensions
row other = []

abbrev index : FileCategory → ℕ
index image = 0
index video = 1
index audio = 2
index document = 3
index archive = 4
index code = 5
index font = 6
index tabular = 7
index other = 8

index-injective : (a b : FileCategory) → (index a == index b) ≡ true → a ≡ b
index-injective a b h = ground arith

row_table : (c : FileCategory) → all (λ e. index (extension_category e) == index c) (row c) ≡ true
unfolding extension_category is_one_of text_eq
row_table image = refl
row_table video = refl
row_table audio = refl
row_table document = refl
row_table archive = refl
row_table code = refl
row_table font = refl
row_table tabular = refl
row_table other = refl

all_lookup :
    (p : Text → Bool) (s : Text) (names : List Text)
    → all p names ≡ true
    → is_one_of s names ≡ true
    → p s ≡ true
unfolding is_one_of
all_lookup p s [] h k = cc
all_lookup p s (n ∷ names) h k = elim (Bool-cases (text_eq s n)) [
  | inl same ↦ rw ((text_eq_iff s n).0 same) (ground arith)
  | inr differs ↦ all_lookup p s names (ground arith) (ground arith)
]

-- No row of the extension table shadows another: an extension that a category's row lists is
-- classified as that category.
pub extension_category-row :
    (c : FileCategory) (ext : Text) → is_one_of ext (row c) ≡ true → extension_category ext ≡ c
extension_category-row c ext h =
    index-injective (extension_category ext) c
      (all_lookup (λ e. index (extension_category e) == index c) ext (row c) (row_table c) h)

module _ (to_lowercase : Text → Text)
    (keeps_dot : (s : Text) → to_lowercase (b'.' ∷ s) ≡ b'.' ∷ to_lowercase s) where
  -- An extension is classified alike with and without its leading dot, as `scan` and `profile` pass
  -- it and as the `--type` filter of `ingest` does, if lower-casing keeps a leading dot.
  pub classify-dot :
      (ext : Text) → classify to_lowercase (b'.' ∷ ext) none ≡ classify to_lowercase ext none
  unfolding classify from_extension trim_start_matches
  classify-dot ext = rw (keeps_dot ext)
