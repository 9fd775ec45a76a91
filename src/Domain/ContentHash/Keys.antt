-- ===== src/Domain/ContentHash/Keys.antt =====
-- The object keys of hashes.
use anti_entropator.Prelude.{
  ◌+◌, ◌≤◌, ◌<◌, ◌≡◌, ap, ◌⊎◌, inl, inr, [], ◌∷◌, ◌++◌, arith, length, drop, Text, ascii,
}
use anti_entropator.Domain.ContentHash.{ContentHash, to_object_key}

long_key : (h : Text) → 4 ≤ length h → drop 13 (to_object_key (record { value = h })) ≡ h
unfolding to_object_key
long_key (a ∷ b ∷ c ∷ d ∷ r) le = ground arith
long_key [] le = absurd (omega arith)
long_key (a ∷ []) le = absurd (omega arith)
long_key (a ∷ b ∷ []) le = absurd (omega arith)
long_key (a ∷ b ∷ c ∷ []) le = absurd (omega arith)

short_key : (h : Text) → length h < 4 → to_object_key (record { value = h }) ≡ ascii "sha256/" ++ h
unfolding to_object_key
short_key h lt = ground arith

long_key-length :
    (h : Text) → 4 ≤ length h → length (to_object_key (record { value = h })) ≡ 13 + length h
unfolding to_object_key
long_key-length (a ∷ b ∷ c ∷ d ∷ r) le = ground arith
long_key-length [] le = absurd (omega arith)
long_key-length (a ∷ []) le = absurd (omega arith)
long_key-length (a ∷ b ∷ []) le = absurd (omega arith)
long_key-length (a ∷ b ∷ c ∷ []) le = absurd (omega arith)

ContentHash-eq : (g h : ContentHash) → g.value ≡ h.value → g ≡ h
ContentHash-eq g h e = λ i. record { value = e i }

-- Two hashes with one object key are one hash, whatever their lengths.
pub to_object_key-injective : (g h : ContentHash) → to_object_key g ≡ to_object_key h → g ≡ h
to_object_key-injective g h e = ContentHash-eq g h (value-eq (split g.value) (split h.value))
  where
    split : (s : Text) → (4 ≤ length s) ⊎ (length s < 4)
    split s = ground arith

    lengths : length (to_object_key g) ≡ length (to_object_key h)
    lengths = ap length e

    value-eq :
        (4 ≤ length g.value) ⊎ (length g.value < 4)
        → (4 ≤ length h.value) ⊎ (length h.value < 4)
        → g.value ≡ h.value
    value-eq (inl p) (inl q) = cc (long_key g.value p, long_key h.value q, e)
    value-eq (inl p) (inr q) =
        absurd
          (omega (arith, lengths, long_key-length g.value p, ap length (short_key h.value q), q))
    value-eq (inr p) (inl q) =
        absurd
          (omega (arith, lengths, long_key-length h.value q, ap length (short_key g.value p), p))
    value-eq (inr p) (inr q) = cc (short_key g.value p, short_key h.value q, e)
