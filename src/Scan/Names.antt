-- ===== src/Scan/Names.antt =====
-- src/scan/mod.rs: which filenames say nothing about the file. Only ASCII characters are looked for, so
-- the bytes of a name do for its characters.
use anti_entropator.Prelude.Chars.{is_ascii_hexdigit, before, between}
use anti_entropator.Prelude.{
  ℕ, ◌≡◌, refl, Bool, true, false, ◌&&◌, ◌||◌, List, [], ◌∷◌, map, length, take, all, starts_with,
  contains, split_on, leb, Text, ascii, text_eq,
}

abbrev uuid_lengths : List ℕ
uuid_lengths = 8 ∷ 4 ∷ 4 ∷ 4 ∷ 12 ∷ []

unfoldable pub is_uuid_like : Text → Bool
is_uuid_like s =
    let parts = split_on b'-' s in
    leb 5 (length parts)
    && text_eq (map length (take 5 parts)) uuid_lengths
    && all (λ p. all is_ascii_hexdigit p) (take 5 parts)

unfoldable pub is_hex_hash : Text → Bool
is_hex_hash s = leb 20 (length (before b'.' s)) && all is_ascii_hexdigit (before b'.' s)

module _ (to_lowercase : Text → Text) where
  unfoldable pub is_generic_filename : Text → Bool
  is_generic_filename name =
      let lower = to_lowercase name in
      starts_with lower (ascii "download")
      || starts_with lower (ascii "untitled")
      || starts_with lower (ascii "screenshot")
      || starts_with lower (ascii "img_")
      || starts_with lower (ascii "image")
      || starts_with lower (ascii "video")
      || starts_with lower (ascii "photo")
      || contains lower (ascii "(1)")
      || contains lower (ascii "(2)")
      || contains lower (ascii "(3)")
      || is_uuid_like (before b'.' lower)
      || is_hex_hash lower

names_example :
    (is_generic_filename (λ s. s) (ascii "img_0042.jpg") ≡ true)
    × (is_generic_filename (λ s. s) (ascii "550e8400-e29b-41d4-a716-446655440000.png") ≡ true)
    × (is_generic_filename (λ s. s) (ascii "0123456789abcdef0123.bin") ≡ true)
    × (is_generic_filename (λ s. s) (ascii "tax report (1).pdf") ≡ true)
    × (is_generic_filename (λ s. s) (ascii "tax report.pdf") ≡ false)
unfolding is_generic_filename is_uuid_like is_hex_hash starts_with contains before split_on text_eq
    is_ascii_hexdigit between
names_example = (refl, refl, refl, refl, refl)
