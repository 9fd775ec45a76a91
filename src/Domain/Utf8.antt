-- ===== src/Domain/Utf8.antt =====
-- What `OsStr::to_str` tests: are these bytes well-formed UTF-8? (RFC 3629: no overlong form, no
-- surrogate, nothing above U+10FFFF.)
use anti_entropator.Prelude.{
  ℕ, Bool, true, false, ◌&&◌, ◌||◌, ◌≡◌, refl, [], ◌∷◌, leb, Bytes, ascii, if◌then◌else◌,
}

abbrev within : ℕ → ℕ → ℕ → Bool
within lo hi b = leb lo b && leb b hi

abbrev continuation : ℕ → Bool
continuation = within 0x80 0xbf

-- The second byte that may follow the first byte of a three-byte sequence.
second_of_three : ℕ → ℕ → Bool
second_of_three a b =
    (within 0xe0 0xe0 a && within 0xa0 0xbf b)
    || (within 0xe1 0xec a && continuation b)
    || (within 0xed 0xed a && within 0x80 0x9f b)
    || (within 0xee 0xef a && continuation b)

second_of_four : ℕ → ℕ → Bool
second_of_four a b =
    (within 0xf0 0xf0 a && within 0x90 0xbf b)
    || (within 0xf1 0xf3 a && continuation b)
    || (within 0xf4 0xf4 a && within 0x80 0x8f b)

unfoldable pub is_utf8 : Bytes → Bool
unfolding second_of_three second_of_four
is_utf8 [] = true
is_utf8 (a ∷ []) = leb a 0x7f
is_utf8 (a ∷ b ∷ []) = (leb a 0x7f && is_utf8 (b ∷ [])) || (within 0xc2 0xdf a && continuation b)
is_utf8 (a ∷ b ∷ c ∷ []) =
    (leb a 0x7f && is_utf8 (b ∷ c ∷ []))
    || (within 0xc2 0xdf a && continuation b && is_utf8 (c ∷ []))
    || (second_of_three a b && continuation c)
is_utf8 (a ∷ b ∷ c ∷ d ∷ s) =
    let one = is_utf8 (b ∷ c ∷ d ∷ s) in
    let two = is_utf8 (c ∷ d ∷ s) in
    let three = is_utf8 (d ∷ s) in
    let four = is_utf8 s in
    if leb a 0x7f
    then one
    else if within 0xc2 0xdf a && continuation b
    then two
    else if second_of_three a b && continuation c
    then three
    else if second_of_four a b && continuation c && continuation d
    then four
    else false

is_utf8_example :
    (is_utf8 (ascii "a/b.txt") ≡ true)
    × (is_utf8 (0xc3 ∷ 0x9c ∷ 0x62 ∷ []) ≡ true)
    × (is_utf8 (0x66 ∷ 0xff ∷ 0x2e ∷ 0x74 ∷ 0x78 ∷ []) ≡ false)
    × (is_utf8 (0xed ∷ 0xa0 ∷ 0x80 ∷ 0x61 ∷ []) ≡ false)
unfolding is_utf8
is_utf8_example = (refl, refl, refl, refl)
