-- ===== src/Domain/ContentHash/Tests.antt =====
-- Object keys and hexadecimal forms at concrete inputs.
use anti_entropator.Prelude.{◌≡◌, refl, [], ◌∷◌, arith, length, All, Bytes, ascii}
use anti_entropator.Domain.ContentHash.{ContentHash, to_object_key, to_lower_hex}
use anti_entropator.Domain.ContentHash.Keys.{to_object_key-injective}
use anti_entropator.Domain.ContentHash.Hex.{IsHexDigit, to_lower_hex_lem, to_lower_hex-injective}

to_object_key_runs :
    (to_object_key (record { value = ascii "b94d27" }) ≡ ascii "sha256/b9/4d/b94d27")
    × (to_object_key (record { value = ascii "abc" }) ≡ ascii "sha256/abc")
unfolding to_object_key
to_object_key_runs = (refl, refl)

to_lower_hex_runs : to_lower_hex (0 ∷ 0x7f ∷ 0xab ∷ 0xff ∷ []) ≡ ascii "007fabff"
unfolding to_lower_hex
to_lower_hex_runs = refl

abbrev sample : ContentHash
sample = record { value = ascii "b94d27" }

to_object_key-injective_example : sample ≡ sample
to_object_key-injective_example = to_object_key-injective sample sample refl

to_lower_hex_lem_example :
    (length (to_lower_hex (0x1f ∷ 0xa0 ∷ [])) ≡ 4)
    × All IsHexDigit (to_lower_hex (0x1f ∷ 0xa0 ∷ []))
to_lower_hex_lem_example = to_lower_hex_lem (0x1f ∷ 0xa0 ∷ []) (omega arith)

to_lower_hex-injective_example : ◌≡◌ {A = Bytes} (0x1f ∷ []) (0x1f ∷ [])
to_lower_hex-injective_example = to_lower_hex-injective (0x1f ∷ []) (0x1f ∷ []) refl
