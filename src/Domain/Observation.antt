-- ===== src/Domain/Observation.antt =====
-- src/domain/observation.rs: the status of an observation and its deterministic identifier.
-- UUIDv5 is the `uuid` crate's: the function from a namespace and a name is a parameter.
pub mod Identity
mod Tests
use anti_entropator.Prelude.{
  ℕ, ◌+◌, ◌/◌, ◌%◌, ◌^◌, Option, none, some, [], ◌∷◌, ◌++◌, Text, Bytes, ascii, u64, length, concat,
  map,
}

pub data ObservationStatus : Type 0 where
  present deleted : ObservationStatus

unfoldable pub as_str : ObservationStatus → Text
as_str present = ascii "present"
as_str deleted = ascii "deleted"

abbrev pub Uuid : Type 0
Uuid = ℕ

abbrev pub observation_namespace : Uuid
observation_namespace = 0x6f2a1c3e8d4b4a579e0f2b7c5d1a3e8f

-- `(n as u64).to_be_bytes()`
unfoldable pub to_be_bytes : ℕ → Bytes
to_be_bytes n =
    (n / 2 ^ 56 % 256)
    ∷ (n / 2 ^ 48 % 256)
    ∷ (n / 2 ^ 40 % 256)
    ∷ (n / 2 ^ 32 % 256)
    ∷ (n / 2 ^ 24 % 256)
    ∷ (n / 2 ^ 16 % 256)
    ∷ (n / 2 ^ 8 % 256)
    ∷ (n % 256)
    ∷ []

-- One round of the loop over the parts.
unfoldable pub frame : Text → Bytes
frame part = to_be_bytes (u64 (length part)) ++ part

abbrev pub or_empty : Option Text → Text
or_empty none = []
or_empty (some h) = h

-- The bytes that are hashed: each part behind its length.
unfoldable pub observation_name : Text → Text → Option Text → ObservationStatus → Bytes
observation_name source_id relative_path content_hash status =
    concat (map frame (source_id ∷ relative_path ∷ or_empty content_hash ∷ as_str status ∷ []))

unfoldable pub observation_id :
    (uuid_v5 : Uuid → Bytes → Uuid) → Text → Text → Option Text → ObservationStatus → Uuid
observation_id uuid_v5 source_id relative_path content_hash status =
    uuid_v5 observation_namespace (observation_name source_id relative_path content_hash status)
