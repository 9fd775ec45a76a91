-- ===== src/Domain/ContentHash.antt =====
-- src/domain/mod.rs `ContentHash` and src/file_hash.rs `to_lower_hex`: content hashes, their
-- hexadecimal form and the object keys that they name.
pub mod Keys
pub mod Hex
mod Tests
use anti_entropator.Prelude.{
  ℕ, ◌+◌, ◌-◌, ◌/◌, ◌%◌, [], ◌∷◌, ◌++◌, ltb, leb, if◌then◌else◌, length, take, drop, Bytes, Text,
  ascii,
}

pub record ContentHash : Type 0 where
  pub value : Text

pub record PartialHash : Type 0 where
  pub value : Text

-- A hash is ASCII, so the byte slices of the source are on character boundaries.
unfoldable pub to_object_key : ContentHash → Text
to_object_key h =
    let hash = h.value in
    if leb 4 (length hash)
    then ascii "sha256/" ++ take 2 hash ++ ascii "/" ++ take 2 (drop 2 hash) ++ ascii "/" ++ hash
    else ascii "sha256/" ++ hash

-- `HEX_DIGITS[i]`
unfoldable pub hex_digit : ℕ → ℕ
hex_digit i = if ltb i 10 then b'0' + i else b'a' + (i - 10)

unfoldable pub to_lower_hex : Bytes → Text
unfolding hex_digit
to_lower_hex [] = []
to_lower_hex (byte ∷ bytes) = hex_digit (byte / 16) ∷ hex_digit (byte % 16) ∷ to_lower_hex bytes
