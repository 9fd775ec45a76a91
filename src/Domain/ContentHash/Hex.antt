-- ===== src/Domain/ContentHash/Hex.antt =====
-- The hexadecimal form of bytes.
use anti_entropator.Prelude.{
  ℕ, ◌*◌, ◌/◌, ◌%◌, ◌≤◌, ◌<◌, ◌≡◌, refl, ◌⊎◌, [], ◌∷◌, arith, length, All, Bytes,
}
use anti_entropator.Domain.ContentHash.{hex_digit, to_lower_hex}

abbrev pub IsHexDigit : ℕ → Type 0
IsHexDigit c = ((b'0' ≤ c) × (c ≤ b'9')) ⊎ ((b'a' ≤ c) × (c ≤ b'f'))

abbrev pub AreBytes : Bytes → Type 0
AreBytes = All (λ b. b < 256)

hex_digit-IsHexDigit : (i : ℕ) → i < 16 → IsHexDigit (hex_digit i)
unfolding hex_digit
hex_digit-IsHexDigit i h = ground arith

hex_digit-injective : (i j : ℕ) → hex_digit i ≡ hex_digit j → i ≡ j
unfolding hex_digit
hex_digit-injective i j e = ground arith

-- The hexadecimal form of bytes has two digits for each byte, all of them 0-9 or a-f.
pub to_lower_hex_lem :
    (bytes : Bytes)
    → AreBytes bytes
    → (length (to_lower_hex bytes) ≡ 2 * length bytes) × All IsHexDigit (to_lower_hex bytes)
unfolding to_lower_hex
to_lower_hex_lem [] h = (refl, tt)
to_lower_hex_lem (b ∷ bytes) h =
    let (len, digits) = to_lower_hex_lem bytes h.1 in
    (
      omega (arith, len),
      (
        hex_digit-IsHexDigit (b / 16) (omega (arith, h.0)),
        (hex_digit-IsHexDigit (b % 16) (omega arith), digits),
      ),
    )

-- Different byte strings have different hexadecimal forms.
pub to_lower_hex-injective : (xs ys : Bytes) → to_lower_hex xs ≡ to_lower_hex ys → xs ≡ ys
unfolding to_lower_hex
to_lower_hex-injective [] [] e = refl
to_lower_hex-injective [] (y ∷ ys) e = cc
to_lower_hex-injective (x ∷ xs) [] e = cc
to_lower_hex-injective (x ∷ xs) (y ∷ ys) e =
    let high : x / 16 ≡ y / 16 = hex_digit-injective (x / 16) (y / 16) (cc) in
    let low : x % 16 ≡ y % 16 = hex_digit-injective (x % 16) (y % 16) (cc) in
    let same : x ≡ y = omega (arith, high, low) in cc (same, to_lower_hex-injective xs ys (cc))
