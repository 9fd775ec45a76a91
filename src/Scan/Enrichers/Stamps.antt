-- ===== src/Scan/Enrichers/Stamps.antt =====
-- The characters of the names that are made of a date and a time.
use anti_entropator.Prelude.Chars.{
  Chars, is_ascii_digit, parses_u32, replace, split_whitespace, trim, split_first, before,
  all-split_on, between,
}
use anti_entropator.Prelude.{
  all-map, ℕ, ◌≡◌, refl, inl, inr, Bool, true, false, ◌&&◌, ◌||◌, Option, none, some, List, [], ◌∷◌,
  ◌++◌, arith, all, all-append, all-weaken, split_on, ◌==◌, if◌then◌else◌, Bool-cases, ascii,
}
use anti_entropator.Scan.Enrichers.{
  stamp, exif_of, exif_parts, parse_exif_datetime, strip_offset, is_iso_date, is_iso_time, iso_of,
  iso_parts, parse_iso_datetime,
}

-- Digits, a plus sign, which `u32` parses, and the separators of a stamp.
unfoldable pub is_stamp_char : ℕ → Bool
is_stamp_char c = is_ascii_digit c || c == b'+' || c == b'-' || c == b'_'

abbrev is_number_char : ℕ → Bool
is_number_char c = is_ascii_digit c || c == b'+'

digits_are : (c : ℕ) → is_ascii_digit c ≡ true → is_number_char c ≡ true
digits_are c h = ground arith

numbers_are : (c : ℕ) → is_number_char c ≡ true → is_stamp_char c ≡ true
unfolding is_stamp_char
numbers_are c h = ground arith

parses_u32-numbers : (s : Chars) → parses_u32 s ≡ true → all is_number_char s ≡ true
unfolding parses_u32
parses_u32-numbers [] h = refl
parses_u32-numbers (c ∷ s) h = elim (Bool-cases (c == b'+')) [
  | inl plus ↦
      let digits : all is_ascii_digit s ≡ true = ground arith in
      ground (arith, all-weaken is_ascii_digit is_number_char digits_are s digits)
  | inr other ↦
      let digits : all is_ascii_digit (c ∷ s) ≡ true = ground arith in
      all-weaken is_ascii_digit is_number_char digits_are (c ∷ s) digits
]

parses_u32-stamps : (s : Chars) → parses_u32 s ≡ true → all is_stamp_char s ≡ true
parses_u32-stamps s h =
    all-weaken is_number_char is_stamp_char numbers_are s (parses_u32-numbers s h)

pieces-stamps :
    (ps : List Chars) → all parses_u32 ps ≡ true → all (λ q. all is_stamp_char q) ps ≡ true
pieces-stamps = all-weaken parses_u32 (λ q. all is_stamp_char q) parses_u32-stamps

-- A text of numbers between separators.
separated :
    (sep : ℕ) (s : Chars)
    → all parses_u32 (split_on sep s) ≡ true
    → all (λ d. is_stamp_char d || d == sep) s ≡ true
separated sep s h = all-split_on is_stamp_char sep s (pieces-stamps (split_on sep s) h)

stamp-stamps :
    (y m d h min s : Chars)
    → all parses_u32 (y ∷ m ∷ d ∷ []) ≡ true
    → all parses_u32 (h ∷ min ∷ s ∷ []) ≡ true
    → all is_stamp_char (stamp y m d h min s) ≡ true
unfolding is_stamp_char is_ascii_digit between
stamp-stamps y m d h min s date time = simp (
  all-append,
  parses_u32-stamps y (ground arith),
  parses_u32-stamps m (ground arith),
  parses_u32-stamps d (ground arith),
  parses_u32-stamps h (ground arith),
  parses_u32-stamps min (ground arith),
  parses_u32-stamps s (ground arith),
)

abbrev pub IsStamp : Option Chars → Type 0
IsStamp none = Unit
IsStamp (some s) = all is_stamp_char s ≡ true

if-IsStamp :
    (b : Bool) (s : Chars)
    → (b ≡ true → all is_stamp_char s ≡ true)
    → IsStamp (if b then some s else none)
if-IsStamp true s h = h refl
if-IsStamp false s h = tt

exif_of-IsStamp : (date time : List Chars) → IsStamp (exif_of date time)
unfolding parses_u32 is_ascii_digit between
exif_of-IsStamp (y ∷ m ∷ d ∷ []) (h ∷ min ∷ []) =
    if-IsStamp (all parses_u32 (y ∷ m ∷ d ∷ []) && all parses_u32 (h ∷ min ∷ []))
      (stamp y m d h min (ascii "00"))
      (λ g. stamp-stamps y m d h min (ascii "00") (ground arith) (ground arith))
exif_of-IsStamp (y ∷ m ∷ d ∷ []) (h ∷ min ∷ s ∷ []) =
    if-IsStamp (all parses_u32 (y ∷ m ∷ d ∷ []) && all parses_u32 (h ∷ min ∷ s ∷ []))
      (stamp y m d h min s) (λ g. stamp-stamps y m d h min s (ground arith) (ground arith))
exif_of-IsStamp _ _ = tt

exif_parts-IsStamp : (parts : List Chars) → IsStamp (exif_parts parts)
exif_parts-IsStamp (date ∷ time ∷ parts) = exif_of-IsStamp (split_on b':' date) (split_on b':' time)
exif_parts-IsStamp _ = tt

dash_is : (c : ℕ) → (is_stamp_char c || c == b'-') ≡ true → is_stamp_char c ≡ true
unfolding is_stamp_char
dash_is c h = ground arith

colon_to_dash :
    (c : ℕ)
    → (is_stamp_char c || c == b':') ≡ true
    → is_stamp_char (if c == b':' then b'-' else c) ≡ true
unfolding is_stamp_char
colon_to_dash c h = ground arith

iso_of-IsStamp : (date : Chars) (time : Option Chars) → IsStamp (iso_of date time)
unfolding is_stamp_char is_ascii_digit between replace
iso_of-IsStamp date none = tt
iso_of-IsStamp date (some time) =
    if-IsStamp (is_iso_date date && is_iso_time time) (date ++ ascii "_" ++ replace b':' b'-' time)
      (λ g.
        let d : all is_stamp_char date ≡ true =
          all-weaken _ _ dash_is date (separated b'-' date (ground arith)) in
        let t : all is_stamp_char (replace b':' b'-' time) ≡ true =
          all-map _ _ _ colon_to_dash time (separated b':' time (ground arith)) in
        simp (all-append, d, t))

iso_parts-IsStamp : (p : Option (Chars × Chars)) → IsStamp (iso_parts p)
iso_parts-IsStamp none = tt
iso_parts-IsStamp (some p) = iso_of-IsStamp p.0 (strip_offset (before b'Z' (before b'.' p.1)))

-- What is parsed out of any EXIF line, and out of any creation time of ffprobe, consists of digits,
-- plus signs, dashes and underscores.
pub datetimes-IsStamp :
    (s : Chars) → IsStamp (parse_exif_datetime s) × IsStamp (parse_iso_datetime s)
unfolding parse_exif_datetime parse_iso_datetime
datetimes-IsStamp s =
    (exif_parts-IsStamp (split_whitespace s), iso_parts-IsStamp (split_first b'T' (trim s)))
