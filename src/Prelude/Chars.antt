-- ===== src/Prelude/Chars.antt =====
-- The operations of `str` and `char` that the program uses on decoded text: a list of Unicode scalar
-- values.
use Prim.Native.Nat.{ℕ, zero, suc, ◌+◌, ◌*◌, ◌-◌, ◌/◌, ◌%◌}
use mathlib.Core.Path.{◌≡◌, refl}
use mathlib.Core.Bool.{Bool, true, false, ◌&&◌, ◌||◌, not}
use mathlib.Core.Option.{Option, none, some}
use mathlib.Core.List.{List, [], ◌∷◌, ◌++◌, map}
use native.Mathlib.Omega.{arith}
use anti_entropator.Prelude.Tests.{◌==◌, if◌then◌else◌, ltb, leb}
use anti_entropator.Prelude.Lists.{take, is_empty, any, all, filter, any-append}
use anti_entropator.Prelude.Texts.{Text, ascii}
use anti_entropator.Prelude.Strings.{split_on, cons_head, has_byte}

abbrev pub Chars : Type 0
Chars = List ℕ

unfoldable pub between : ℕ → ℕ → ℕ → Bool
between low high c = leb low c && leb c high

-- `char::is_ascii_digit`, `char::is_ascii_hexdigit`, `char::is_control`
unfoldable pub is_ascii_digit : ℕ → Bool
unfolding between
is_ascii_digit c = between b'0' b'9' c

unfoldable pub is_ascii_hexdigit : ℕ → Bool
unfolding between
is_ascii_hexdigit c = between b'0' b'9' c || between b'a' b'f' c || between b'A' b'F' c

unfoldable pub is_control : ℕ → Bool
unfolding between
is_control c = ltb c 32 || between 127 159 c

-- `char::is_whitespace`: the Unicode property `White_Space`.
unfoldable pub is_whitespace : ℕ → Bool
unfolding between
is_whitespace c =
    between 9 13 c
    || c == 32
    || c == 133
    || c == 160
    || c == 5760
    || between 8192 8202 c
    || c == 8232
    || c == 8233
    || c == 8239
    || c == 8287
    || c == 12288

-- `s.len()` of the UTF-8 encoding.
unfoldable pub utf8_width : ℕ → ℕ
utf8_width c = if ltb c 128 then 1 else if ltb c 2048 then 2 else if ltb c 65536 then 3 else 4

unfoldable pub utf8_len : Chars → ℕ
utf8_len [] = 0
utf8_len (c ∷ s) = utf8_width c + utf8_len s

abbrev utf8_char : ℕ → Text
utf8_char c =
    if ltb c 128
    then c ∷ []
    else if ltb c 2048
    then (192 + c / 64) ∷ (128 + c % 64) ∷ []
    else if ltb c 65536
    then (224 + c / 4096) ∷ (128 + c / 64 % 64) ∷ (128 + c % 64) ∷ []
    else (240 + c / 262144) ∷ (128 + c / 4096 % 64) ∷ (128 + c / 64 % 64) ∷ (128 + c % 64) ∷ []

-- The `String` of the characters.
unfoldable pub encode_utf8 : Chars → Text
encode_utf8 [] = []
encode_utf8 (c ∷ s) = utf8_char c ++ encode_utf8 s

unfoldable pub trim_start : Chars → Chars
trim_start [] = []
trim_start (c ∷ s) = let rest = trim_start s in if is_whitespace c then rest else c ∷ s

abbrev cons_trimmed : ℕ → Chars → Chars
cons_trimmed c [] = if is_whitespace c then [] else c ∷ []
cons_trimmed c (d ∷ s) = c ∷ d ∷ s

unfoldable pub trim_end : Chars → Chars
trim_end [] = []
trim_end (c ∷ s) = cons_trimmed c (trim_end s)

-- `s.trim()`
unfoldable pub trim : Chars → Chars
trim s = trim_end (trim_start s)

abbrev cons_first : ℕ → List Chars → List Chars
cons_first c [] = (c ∷ []) ∷ []
cons_first c (p ∷ ps) = (c ∷ p) ∷ ps

abbrev split_spaces : Chars → List Chars
split_spaces [] = [] ∷ []
split_spaces (c ∷ s) =
    let pieces = split_spaces s in if is_whitespace c then [] ∷ pieces else cons_first c pieces

-- `s.split_whitespace()`
unfoldable pub split_whitespace : Chars → List Chars
split_whitespace s = filter (λ p. not (is_empty p)) (split_spaces s)

-- A line before a line feed loses one carriage return at its end.
abbrev strip_return : Chars → Chars
strip_return [] = []
strip_return (c ∷ []) = if c == 13 then [] else c ∷ []
strip_return (c ∷ d ∷ s) = c ∷ strip_return (d ∷ s)

abbrev close_lines : List Chars → List Chars
close_lines [] = []
close_lines (last ∷ []) = if is_empty last then [] else last ∷ []
close_lines (p ∷ q ∷ ps) = strip_return p ∷ close_lines (q ∷ ps)

-- `s.lines()`
unfoldable pub lines : Chars → List Chars
lines s = close_lines (split_on 10 s)

abbrev cons_before : ℕ → Option (Chars × Chars) → Option (Chars × Chars)
cons_before c none = none
cons_before c (some p) = some (c ∷ p.0, p.1)

-- The text before and behind the first, and the last, occurrence of a character (`find`, `rfind`).
unfoldable pub split_first : ℕ → Chars → Option (Chars × Chars)
split_first sep [] = none
split_first sep (c ∷ s) =
    let rest = cons_before c (split_first sep s) in if c == sep then some ([], s) else rest

abbrev last_or : ℕ → ℕ → Chars → Option (Chars × Chars) → Option (Chars × Chars)
last_or sep c s none = if c == sep then some ([], s) else none
last_or sep c s (some p) = some (c ∷ p.0, p.1)

unfoldable pub split_last : ℕ → Chars → Option (Chars × Chars)
split_last sep [] = none
split_last sep (c ∷ s) = last_or sep c s (split_last sep s)

-- `s.split(sep).next()`
unfoldable pub before : ℕ → Chars → Chars
before sep [] = []
before sep (c ∷ s) = let rest = before sep s in if c == sep then [] else c ∷ rest

abbrev digits_value : ℕ → Chars → ℕ
digits_value n [] = n
digits_value n (c ∷ s) = digits_value (n * 10 + (c - b'0')) s

abbrev is_u32_digits : Chars → Bool
is_u32_digits s = not (is_empty s) && all is_ascii_digit s && ltb (digits_value 0 s) 4294967296

-- `s.parse::<u32>().is_ok()`: one plus sign is allowed.
unfoldable pub parses_u32 : Chars → Bool
parses_u32 [] = false
parses_u32 (c ∷ s) = if c == b'+' then is_u32_digits s else is_u32_digits (c ∷ s)

-- `s.replace(from, to)` of one character by another.
unfoldable pub replace : ℕ → ℕ → Chars → Chars
replace from to s = map (λ c. if c == from then to else c) s

module _ (p : ℕ → Bool) where
  pub all-take : (n : ℕ) (s : Chars) → all p s ≡ true → all p (take n s) ≡ true
  all-take zero s h = refl
  all-take (suc n) [] h = refl
  all-take (suc n) (c ∷ s) h = ground (arith, all-take n s)

  all-trim_start : (s : Chars) → all p s ≡ true → all p (trim_start s) ≡ true
  unfolding trim_start
  all-trim_start [] h = refl
  all-trim_start (c ∷ s) h = ground (arith, all-trim_start s)

  all-cons_trimmed :
      (c : ℕ) (s : Chars) → p c ≡ true → all p s ≡ true → all p (cons_trimmed c s) ≡ true
  all-cons_trimmed c [] h k = ground arith
  all-cons_trimmed c (d ∷ s) h k = ground arith

  all-trim_end : (s : Chars) → all p s ≡ true → all p (trim_end s) ≡ true
  unfolding trim_end
  all-trim_end [] h = refl
  all-trim_end (c ∷ s) h =
      all-cons_trimmed c (trim_end s) (ground arith) (all-trim_end s (ground arith))

  -- What holds of every character of a text holds of every character of the trimmed text.
  pub all-trim : (s : Chars) → all p s ≡ true → all p (trim s) ≡ true
  unfolding trim
  all-trim s h = all-trim_end (trim_start s) (all-trim_start s h)

  all-split_on_step :
      (sep c : ℕ) (s : Chars) (pieces : List Chars)
      → (all (λ q. all p q) pieces ≡ true → all (λ d. p d || d == sep) s ≡ true)
      → all (λ q. all p q) (if c == sep then [] ∷ pieces else cons_head c pieces) ≡ true
      → all (λ d. p d || d == sep) (c ∷ s) ≡ true
  all-split_on_step sep c s [] ih h = ground arith
  all-split_on_step sep c s (q ∷ qs) ih h = ground arith

  -- If `p` holds on every piece of a split, it holds of every character but the separators.
  pub all-split_on :
      (sep : ℕ) (s : Chars)
      → all (λ q. all p q) (split_on sep s) ≡ true
      → all (λ d. p d || d == sep) s ≡ true
  unfolding split_on
  all-split_on sep [] h = refl
  all-split_on sep (c ∷ s) h = all-split_on_step sep c s (split_on sep s) (all-split_on sep s) h

utf8_char-lacks :
    (b c : ℕ) → ltb b 128 ≡ true → not (c == b) ≡ true → any (λ d. d == b) (utf8_char c) ≡ false
utf8_char-lacks b c l h = ground arith

-- An ASCII character is a byte of an encoded text only where it is one of its characters.
pub encode_utf8-lacks :
    (b : ℕ) (s : Chars)
    → ltb b 128 ≡ true
    → all (λ c. not (c == b)) s ≡ true
    → has_byte b (encode_utf8 s) ≡ false
unfolding encode_utf8 has_byte
encode_utf8-lacks b [] l h = refl
encode_utf8-lacks b (c ∷ s) l h =
    rw (any-append (λ d. d == b) (utf8_char c) (encode_utf8 s))
      (ground (arith, utf8_char-lacks b c, encode_utf8-lacks b s l))

chars_example :
    (trim (ascii " a b \r") ≡ ascii "a b")
    × (split_whitespace (ascii " a  bc ") ≡ ascii "a" ∷ ascii "bc" ∷ [])
    × (lines (ascii "a\r\n\nb\n") ≡ ascii "a" ∷ [] ∷ ascii "b" ∷ [])
    × (split_last b'+' (ascii "1+2+3") ≡ some (ascii "1+2", ascii "3"))
    × (parses_u32 (ascii "+4294967295") ≡ true)
    × (parses_u32 (ascii "4294967296") ≡ false)
unfolding trim trim_start trim_end split_whitespace lines split_on split_last parses_u32
    is_whitespace is_ascii_digit between
chars_example = (refl, refl, refl, refl, refl, refl)
