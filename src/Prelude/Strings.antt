-- ===== src/Prelude/Strings.antt =====
-- The operations of `str` that the program uses, on UTF-8 bytes.
use Prim.Native.Nat.{ℕ}
use mathlib.Core.Path.{◌≡◌, refl, ap, ◌∙◌}
use mathlib.Core.Bool.{Bool, true, false, ◌&&◌, ◌||◌}
use mathlib.Core.Option.{Option, none, some}
use mathlib.Core.List.{List, [], ◌∷◌, ◌++◌}
use native.Mathlib.Omega.{arith}
use anti_entropator.Prelude.Tests.{◌==◌, if◌then◌else◌}
use anti_entropator.Prelude.Lists.{any, All}
use anti_entropator.Prelude.Texts.{Text, ascii, text_eq}

-- `s.starts_with(prefix)`
unfoldable pub starts_with : Text → Text → Bool
starts_with s [] = true
starts_with [] (p ∷ ps) = false
starts_with (c ∷ s) (p ∷ ps) = (c == p) && starts_with s ps

-- `s.contains(needle)`
unfoldable pub contains : Text → Text → Bool
contains [] needle = starts_with [] needle
contains (c ∷ s) needle = starts_with (c ∷ s) needle || contains s needle

-- `list.contains(&s)` and `matches!(s, "a" | "b" | …)`
unfoldable pub is_one_of : Text → List Text → Bool
is_one_of s names = any (text_eq s) names

-- `s.trim_start_matches(c)` for one character
unfoldable pub trim_start_matches : ℕ → Text → Text
trim_start_matches c [] = []
trim_start_matches c (d ∷ s) = let rest = trim_start_matches c s in if d == c then rest else d ∷ s

abbrev pub cons_head : ℕ → List Text → List Text
cons_head c [] = (c ∷ []) ∷ []
cons_head c (p ∷ ps) = (c ∷ p) ∷ ps

-- `s.split(sep)`
unfoldable pub split_on : ℕ → Text → List Text
split_on sep [] = [] ∷ []
split_on sep (c ∷ s) =
    let pieces = split_on sep s in if c == sep then [] ∷ pieces else cons_head c pieces

-- `parts.join(sep)` for a one-character separator
unfoldable pub join : ℕ → List Text → Text
join sep [] = []
join sep (p ∷ []) = p
join sep (p ∷ q ∷ ps) = p ++ sep ∷ join sep (q ∷ ps)

abbrev cons_stripped : ℕ → Option Text → Option Text
cons_stripped c none = none
cons_stripped c (some s) = some (c ∷ s)

-- `s.strip_suffix(suffix)`
unfoldable pub strip_suffix : Text → Text → Option Text
strip_suffix [] suffix = if text_eq [] suffix then some [] else none
strip_suffix (c ∷ s) suffix =
    let rest = cons_stripped c (strip_suffix s suffix) in
    if text_eq (c ∷ s) suffix then some [] else rest

-- Does `c` occur in `s`?
unfoldable pub has_byte : ℕ → Text → Bool
has_byte c s = any (λ d. d == c) s

pub split_on-append :
    (sep : ℕ) (s rest : Text)
    → has_byte sep s ≡ false
    → split_on sep (s ++ sep ∷ rest) ≡ s ∷ split_on sep rest
unfolding split_on has_byte
split_on-append sep [] rest h = ground arith
split_on-append sep (c ∷ s) rest h = ground (arith, split_on-append sep s rest)

pub split_on_whole : (sep : ℕ) (s : Text) → has_byte sep s ≡ false → split_on sep s ≡ s ∷ []
unfolding split_on has_byte
split_on_whole sep [] h = refl
split_on_whole sep (c ∷ s) h = ground (arith, split_on_whole sep s)

split_on-pieces_step :
    (sep c : ℕ) (pieces : List Text)
    → All (λ q. has_byte sep q ≡ false) pieces
    → All (λ q. has_byte sep q ≡ false) (if c == sep then [] ∷ pieces else cons_head c pieces)
unfolding has_byte
split_on-pieces_step sep c [] h = ground arith
split_on-pieces_step sep c (p ∷ ps) h = ground arith

-- No piece of a split holds the separator.
pub split_on-pieces : (sep : ℕ) (s : Text) → All (λ q. has_byte sep q ≡ false) (split_on sep s)
unfolding split_on has_byte
split_on-pieces sep [] = (refl, tt)
split_on-pieces sep (c ∷ s) = split_on-pieces_step sep c (split_on sep s) (split_on-pieces sep s)

-- Splitting what was joined gives the parts back, if there is a part and none holds the separator.
pub split_on-join :
    (sep : ℕ) (p : Text) (ps : List Text)
    → All (λ q. has_byte sep q ≡ false) (p ∷ ps)
    → split_on sep (join sep (p ∷ ps)) ≡ p ∷ ps
unfolding join
split_on-join sep p [] h = split_on_whole sep p h.0
split_on-join sep p (q ∷ ps) h =
    split_on-append sep p (join sep (q ∷ ps)) h.0 ∙ ap (λ t. p ∷ t) (split_on-join sep q ps h.1)

split_on_example : split_on b'/' (ascii "/a//b.c") ≡ [] ∷ ascii "a" ∷ [] ∷ ascii "b.c" ∷ []
unfolding split_on
split_on_example = refl

strings_example :
    (contains (ascii "application/pdf") (ascii "pdf") ≡ true)
    × (starts_with (ascii "image/png") (ascii "image/") ≡ true)
    × (trim_start_matches b'.' (ascii "..gz") ≡ ascii "gz")
    × (join b'/' (ascii "a" ∷ ascii "b" ∷ []) ≡ ascii "a/b")
unfolding contains starts_with trim_start_matches join
strings_example = (refl, refl, refl, refl)
