-- ===== src/Domain/Observation/Tests.antt =====
-- Observation identities at concrete inputs.
use anti_entropator.Prelude.{
  text_eq, ne_of_text_eq, ◌≢◌, arith, ◌≡◌, refl, some, none, ascii, [], ◌≢◌,
}
use anti_entropator.Domain.Observation.{present, deleted, observation_name, or_empty}
use anti_entropator.Domain.Observation.Identity.{observation_name-injective}

observation_name-injective_example :
    (ascii "/src" ≡ ascii "/src")
    × (ascii "a.txt" ≡ ascii "a.txt")
    × (or_empty none ≡ or_empty (some []))
    × (deleted ≡ deleted)
unfolding observation_name
observation_name-injective_example =
    observation_name-injective (ascii "/src") (ascii "/src") (ascii "a.txt") (ascii "a.txt") none
      (some []) deleted deleted (omega arith) (omega arith) refl

-- Plain concatenation would confuse these two; the length prefixes keep them apart.
boundary_shift :
    observation_name (ascii "ab") (ascii "c") none present
    ≢ observation_name (ascii "a") (ascii "bc") none present
boundary_shift e =
    let (p, _, _, _) =
      observation_name-injective (ascii "ab") (ascii "a") (ascii "c") (ascii "bc") none none present
        present (omega arith) (omega arith) e in
    ne_of_text_eq (ascii "ab") (ascii "a") (unfold text_eq in refl) p
