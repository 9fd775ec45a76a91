-- ===== src/Lakehouse/Schema/Checked.antt =====
-- Which tables the check accepts.
use anti_entropator.Prelude.{
  ℕ, ◌≡◌, refl, ap, ◌↔◌, inl, inr, Bool, true, ◌&&◌, not, Option, none, some, List, [], ◌∷◌, any,
  all, All, Result, ok, ◌==◌, ==_iff, Bool-cases, Text, text_eq, text_eq_refl, text_eq_iff,
}
use anti_entropator.Lakehouse.Schema.{
  FieldType, uuid, string, long, timestamptz, boolean, other_type, NestedField, catalog_fields,
  type_eq, field_by_name, Finding, agrees, lacking, differs, compare_field, mismatch_text,
  add_finding, compare_fields, report, build_file_catalog_schema, verify_table_schema,
}

unfoldable pub distinct_ids : List NestedField → Bool
distinct_ids [] = true
distinct_ids (f ∷ fs) = not (any (λ g. g.id == f.id) fs) && distinct_ids fs

unfoldable pub distinct_names : List NestedField → Bool
distinct_names [] = true
distinct_names (f ∷ fs) = not (any (λ g. text_eq g.name f.name) fs) && distinct_names fs

abbrev identifies : List NestedField → ℕ → Bool
identifies fields id = any (λ f. (f.id == id) && f.is_required) fields

-- The builder of the iceberg crate accepts fields of distinct identifiers and names, if every
-- identifier field is one of the required fields, and keeps them.
pub record IsSchemaBuilder (build : List NestedField → List ℕ → Result (List NestedField))
    : Type 0 where
  pub builds :
      (fields : List NestedField) (identifiers : List ℕ)
      → distinct_ids fields ≡ true
      → distinct_names fields ≡ true
      → all (identifies fields) identifiers ≡ true
      → build fields identifiers ≡ ok fields

-- The table has the field under its name, with the same identifier and type.
abbrev pub HasField : List NestedField → NestedField → Type 0
HasField table f =
    (a : NestedField) × (field_by_name table f.name ≡ some a)
    × (a.id ≡ f.id)
    × (a.field_type ≡ f.field_type)

type_eq→eq : (s t : FieldType) → type_eq s t ≡ true → s ≡ t
unfolding type_eq
type_eq→eq uuid uuid h = refl
type_eq→eq string string h = refl
type_eq→eq long long h = refl
type_eq→eq timestamptz timestamptz h = refl
type_eq→eq boolean boolean h = refl
type_eq→eq (other_type s) (other_type t) h = ap other_type ((text_eq_iff s t).0 h)
type_eq→eq _ _ h = cc

pub type_eq_refl : (t : FieldType) → type_eq t t ≡ true
unfolding type_eq
type_eq_refl uuid = refl
type_eq_refl string = refl
type_eq_refl long = refl
type_eq_refl timestamptz = refl
type_eq_refl boolean = refl
type_eq_refl (other_type s) = text_eq_refl s

type_eq_iff : (s t : FieldType) → (type_eq s t ≡ true) ↔ (s ≡ t)
type_eq_iff s t = (type_eq→eq s t, λ e. cc (e, type_eq_refl s))

agrees-HasField :
    (table : List NestedField) (f : NestedField) (o : Option NestedField)
    → field_by_name table f.name ≡ o
    → compare_field f o ≡ agrees
    → HasField table f
agrees-HasField table f none e h = cc
agrees-HasField table f (some a) e h = elim (Bool-cases (a.id == f.id)) [
  | inl i ↦ elim (Bool-cases (type_eq a.field_type f.field_type)) [
    | inl t ↦ (a, e, (==_iff a.id f.id).0 i, (type_eq_iff _ _).0 t)
    | inr t ↦ let bad : differs a ≡ agrees = rw (i, t) at h in cc
  ]
  | inr i ↦ let bad : differs a ≡ agrees = rw i at h in cc
]

HasField-agrees :
    (table : List NestedField) (f : NestedField)
    → HasField table f
    → compare_field f (field_by_name table f.name) ≡ agrees
HasField-agrees table f (a, e, i, t) =
    let same_id : (a.id == f.id) ≡ true = (==_iff a.id f.id).1 i in
    let same_type : type_eq a.field_type f.field_type ≡ true = (type_eq_iff _ _).1 t in
    rw (e, same_id, same_type) refl

empty_findings :
    (f : NestedField) (x : Finding) (lists : List Text × List Text)
    → add_finding f x lists ≡ ([], [])
    → (x ≡ agrees) × (lists ≡ ([], []))
empty_findings f agrees lists h = (refl, h)
empty_findings f lacking lists h =
    let bad : f.name ∷ lists.0 ≡ [] = ap (λ (p : List Text × List Text). p.0) h in cc
empty_findings f (differs a) lists h =
    let bad : mismatch_text f a ∷ lists.1 ≡ [] = ap (λ (p : List Text × List Text). p.1) h in cc

compare_fields_iff :
    (table fields : List NestedField)
    → (compare_fields table fields ≡ ([], [])) ↔ All (HasField table) fields
unfolding compare_fields
compare_fields_iff table [] = (λ h. tt, λ h. refl)
compare_fields_iff table (f ∷ fs) = (
  λ h.
      let (first, rest) = empty_findings f _ _ h in
      (
        agrees-HasField table f (field_by_name table f.name) refl first,
        (compare_fields_iff table fs).0 rest,
      ),
  λ (first, rest). rw (HasField-agrees table f first) ((compare_fields_iff table fs).1 rest),
)

report_iff : (lists : List Text × List Text) → (report lists ≡ ok tt) ↔ (lists ≡ ([], []))
report_iff ([], []) = (λ h. refl, λ h. refl)
report_iff ([], m ∷ ms) =
    (λ h. cc, λ h. let bad : m ∷ ms ≡ [] = ap (λ (p : List Text × List Text). p.1) h in cc)
report_iff (m ∷ ms, qs) =
    (λ h. cc, λ h. let bad : m ∷ ms ≡ [] = ap (λ (p : List Text × List Text). p.0) h in cc)

module _ (build : List NestedField → List ℕ → Result (List NestedField))
    (builder : IsSchemaBuilder build) where
  -- With a builder that keeps its documented law, the definition of the catalog is accepted.
  pub build_file_catalog_schema-ok : build_file_catalog_schema build ≡ ok catalog_fields
  unfolding build_file_catalog_schema distinct_ids distinct_names text_eq
  build_file_catalog_schema-ok = rw (builder.builds catalog_fields (1 ∷ []) refl refl refl) refl

  -- With a builder that keeps its documented law: a table is accepted exactly if it has every column
  -- of the catalog under its name, with the same identifier and the same type. Other columns of the
  -- table do not matter.
  pub verify_table_schema_iff :
      (table : List NestedField)
      → (verify_table_schema build table ≡ ok tt) ↔ All (HasField table) catalog_fields
  unfolding verify_table_schema
  verify_table_schema_iff table = (
    λ h.
        let reported : report (compare_fields table catalog_fields) ≡ ok tt =
          rw build_file_catalog_schema-ok at h in
        (compare_fields_iff table catalog_fields).0 ((report_iff _).0 reported),
    λ h. rw build_file_catalog_schema-ok (
        (report_iff (compare_fields table catalog_fields)).1
          ((compare_fields_iff table catalog_fields).1 h)),
  )
