-- ===== src/Scan/Enrichers/Sanitized.antt =====
-- What `sanitize_filename` leaves of a title.
use anti_entropator.Prelude.Chars.{Chars, is_control, trim, all-take, all-trim, between}
use anti_entropator.Prelude.{
  ℕ, zero, suc, ◌≤◌, ◌≡◌, refl, Bool, true, ◌&&◌, not, [], ◌∷◌, map, arith, length, take, all,
  all-map, is_one_of, ascii, text_eq,
}
use anti_entropator.Scan.Enrichers.{replaced, sanitize_filename}

-- No character that a file system reserves, and no control character.
unfoldable pub is_safe : ℕ → Bool
is_safe c = not (is_one_of (c ∷ []) (map (λ d. d ∷ []) (ascii "/\\:*?\"<>|"))) && not (is_control c)

replaced-safe : (c : ℕ) → true ≡ true → is_safe (replaced c) ≡ true
unfolding is_safe is_control between is_one_of text_eq
replaced-safe c h = ground arith

all-true : (s : Chars) → all (λ c. true) s ≡ true
all-true [] = refl
all-true (c ∷ s) = all-true s

length-take : (n : ℕ) (s : Chars) → length (take n s) ≤ n
length-take zero s = omega arith
length-take (suc n) [] = omega arith
length-take (suc n) (c ∷ s) = omega (arith, length-take n s)

-- A sanitized name has at most a hundred characters, and none of them is reserved by a file system
-- or a control character.
pub sanitize_filename_lem :
    (s : Chars) → (length (sanitize_filename s) ≤ 100) × (all is_safe (sanitize_filename s) ≡ true)
unfolding sanitize_filename
sanitize_filename_lem s = (
  length-take 100 (trim (map replaced s)),
  all-take is_safe 100 (trim (map replaced s)) (
      all-trim is_safe (map replaced s)
        (all-map (λ c. true) is_safe replaced replaced-safe s (all-true s))),
)
