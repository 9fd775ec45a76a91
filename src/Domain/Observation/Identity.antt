-- ===== src/Domain/Observation/Identity.antt =====
-- What the bytes of an identifier's name tell of the observation.
use anti_entropator.Prelude.{
  text_eq, ne_of_text_eq, ℕ, ◌^◌, ◌<◌, ◌≡◌, refl, Option, ◌++◌, Text, Bytes, length, append-split,
  arith, u64, sym, ◌∙◌,
}
use mathlib.Core.List.{append_assoc}
use anti_entropator.Domain.Observation.{
  ObservationStatus, present, deleted, as_str, to_be_bytes, frame, or_empty, observation_name,
}

to_be_bytes-injective : (a b : ℕ) → a < 2 ^ 64 → b < 2 ^ 64 → to_be_bytes a ≡ to_be_bytes b → a ≡ b
unfolding to_be_bytes
to_be_bytes-injective a b p q e = ground arith

-- A frame at the head of a byte string can be read off in one way.
frame-cancel :
    (p q : Text) {r s : Bytes}
    → length p < 2 ^ 64
    → length q < 2 ^ 64
    → frame p ++ r ≡ frame q ++ s
    → (p ≡ q) × (r ≡ s)
unfolding frame
frame-cancel p q {r} {s} hp hq e =
    let (sizes, rest) =
      append-split (to_be_bytes (u64 (length p))) (to_be_bytes (u64 (length q)))
        (unfold to_be_bytes in refl)
        (sym (append_assoc (to_be_bytes (u64 (length p))) p r)
          ∙ e
          ∙ append_assoc (to_be_bytes (u64 (length q))) q s) in
    append-split p q
      (omega (
        arith,
        to_be_bytes-injective (u64 (length p)) (u64 (length q)) (omega arith) (omega arith) sizes,
      ))
      rest

as_str-short : (s : ObservationStatus) → length (as_str s) < 2 ^ 64
unfolding as_str
as_str-short present = omega arith
as_str-short deleted = omega arith

as_str-injective : (s t : ObservationStatus) → as_str s ≡ as_str t → s ≡ t
unfolding as_str text_eq
as_str-injective present present e = refl
as_str-injective deleted deleted e = refl
as_str-injective present deleted e = absurd (ne_of_text_eq _ _ refl e)
as_str-injective deleted present e = absurd (ne_of_text_eq _ _ refl e)

-- The lengths of the parts are below 2^64, as every length of a `str` is.
abbrev pub Fits : Text → Text → Option Text → Type 0
Fits source_id relative_path content_hash =
    (length source_id < 2 ^ 64)
    × (length relative_path < 2 ^ 64)
    × (length (or_empty content_hash) < 2 ^ 64)

-- Two observations whose identifiers are computed from the same bytes agree in source, path,
-- content hash (none counting as the empty hash) and status, if all texts are shorter than 2^64.
pub observation_name-injective :
    (s s' p p' : Text) (h h' : Option Text) (t t' : ObservationStatus)
    → Fits s p h
    → Fits s' p' h'
    → observation_name s p h t ≡ observation_name s' p' h' t'
    → (s ≡ s') × (p ≡ p') × (or_empty h ≡ or_empty h') × (t ≡ t')
unfolding observation_name
observation_name-injective s s' p p' h h' t t' f f' e =
    let (es, e1) = frame-cancel s s' f.0 f'.0 e in
    let (ep, e2) = frame-cancel p p' f.1 f'.1 e1 in
    let (eh, e3) = frame-cancel (or_empty h) (or_empty h') f.2 f'.2 e2 in
    let (et, e4) = frame-cancel (as_str t) (as_str t') (as_str-short t) (as_str-short t') e3 in
    (es, ep, eh, as_str-injective t t' et)
