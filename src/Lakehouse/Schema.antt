-- ===== src/Lakehouse/Schema.antt =====
-- src/lakehouse/schema.rs: the columns of the catalog, and the check of a table that is there already.
-- The builder of the iceberg crate is a parameter.
pub mod Checked
use anti_entropator.Prelude.{
  ℕ, ◌+◌, ◌-◌, ◌/◌, Bool, true, false, ◌||◌, not, Option, none, some, List, [], ◌∷◌, ◌++◌, find,
  message, Result, ok, err, ◌>>=◌, with_context, ◌==◌, if◌then◌else◌, Text, ascii, text_eq, decimal,
}

-- `PrimitiveType`, as far as the catalog uses it; a table may have any other type.
pub data FieldType : Type 0 where
  uuid string long timestamptz boolean : FieldType
  other_type : Text → FieldType

pub record NestedField : Type 0 where
  pub id : ℕ
  pub name : Text
  pub is_required : Bool
  pub field_type : FieldType

abbrev pub required : ℕ → Text → FieldType → NestedField
required id name t = record { id = id; name = name; is_required = true; field_type = t }

abbrev pub optional : ℕ → Text → FieldType → NestedField
optional id name t = record { id = id; name = name; is_required = false; field_type = t }

abbrev pub catalog_fields : List NestedField
catalog_fields =
    required 1 (ascii "id") uuid
    ∷ required 2 (ascii "source_path") string
    ∷ required 3 (ascii "filename") string
    ∷ required 4 (ascii "extension") string
    ∷ optional 5 (ascii "mime_type") string
    ∷ required 6 (ascii "category") string
    ∷ required 7 (ascii "size_bytes") long
    ∷ optional 8 (ascii "content_hash") string
    ∷ optional 9 (ascii "partial_hash") string
    ∷ optional 10 (ascii "created_at") timestamptz
    ∷ optional 11 (ascii "modified_at") timestamptz
    ∷ required 12 (ascii "scanned_at") timestamptz
    ∷ optional 13 (ascii "object_uri") string
    ∷ optional 14 (ascii "ingested_at") timestamptz
    ∷ optional 15 (ascii "suggested_name") string
    ∷ optional 16 (ascii "name_reason") string
    ∷ required 17 (ascii "is_duplicate") boolean
    ∷ optional 18 (ascii "duplicate_of") uuid
    ∷ required 19 (ascii "parent_dir") string
    ∷ optional 20 (ascii "group_id") uuid
    ∷ optional 21 (ascii "source_id") string
    ∷ optional 22 (ascii "relative_path") string
    ∷ optional 23 (ascii "run_id") uuid
    ∷ optional 24 (ascii "observation_status") string
    ∷ optional 25 (ascii "observed_at") timestamptz
    ∷ []

unfoldable pub type_eq : FieldType → FieldType → Bool
type_eq uuid uuid = true
type_eq string string = true
type_eq long long = true
type_eq timestamptz timestamptz = true
type_eq boolean boolean = true
type_eq (other_type s) (other_type t) = text_eq s t
type_eq _ _ = false

-- `Display` of a type.
abbrev type_text : FieldType → Text
type_text uuid = ascii "uuid"
type_text string = ascii "string"
type_text long = ascii "long"
type_text timestamptz = ascii "timestamptz"
type_text boolean = ascii "boolean"
type_text (other_type s) = s

-- `table_schema.field_by_name(name)`
unfoldable pub field_by_name : List NestedField → Text → Option NestedField
field_by_name fields name = find (λ f. text_eq f.name name) fields

-- What the loop of `verify_table_schema` finds of one field.
pub data Finding : Type 0 where
  agrees lacking : Finding
  differs : NestedField → Finding

abbrev compare_field : NestedField → Option NestedField → Finding
compare_field field none = lacking
compare_field field (some actual) =
    if not (actual.id == field.id) || not (type_eq actual.field_type field.field_type)
    then differs actual
    else agrees

abbrev mismatch_text : NestedField → NestedField → Text
mismatch_text field actual =
    field.name
    ++ ascii " (table: id "
    ++ decimal actual.id
    ++ ascii " "
    ++ type_text actual.field_type
    ++ ascii ", expected: id "
    ++ decimal field.id
    ++ ascii " "
    ++ type_text field.field_type
    ++ ascii ")"

abbrev add_finding : NestedField → Finding → List Text × List Text → List Text × List Text
add_finding field agrees lists = lists
add_finding field lacking lists = (field.name ∷ lists.0, lists.1)
add_finding field (differs actual) lists = (lists.0, mismatch_text field actual ∷ lists.1)

-- The names that are missing, and the descriptions of the mismatches, in the order of the fields.
unfoldable pub compare_fields :
    (table : List NestedField) → (expected : List NestedField) → List Text × List Text
compare_fields table [] = ([], [])
compare_fields table (field ∷ fields) =
    add_finding field (compare_field field (field_by_name table field.name))
      (compare_fields table fields)

-- `parts.join(sep)`
abbrev join_with : Text → List Text → Text
join_with sep [] = []
join_with sep (p ∷ []) = p
join_with sep (p ∷ q ∷ ps) = p ++ sep ++ join_with sep (q ∷ ps)

abbrev report : List Text × List Text → Result (Unit {0})
report ([], []) = ok tt
report ([], m ∷ ms) = err (
    message (
      ascii "table schema does not match the catalog definition: "
      ++ join_with (ascii "; ") (m ∷ ms)))
report (m ∷ ms, mismatched) = err (
    message (
      ascii "table schema is missing column(s) "
      ++ join_with (ascii ", ") (m ∷ ms)
      ++ ascii ": this file_catalog was created before v0.3.0 and cannot be upgraded in "
      ++ ascii "place; reset the stack and re-ingest (docs/manual/getting-started.md, "
      ++ ascii "\"Upgrading from RustFS\")"))

module _ (build : List NestedField → (identifiers : List ℕ) → Result (List NestedField)) where
  unfoldable pub build_file_catalog_schema : Result (List NestedField)
  build_file_catalog_schema =
      with_context (ascii "Failed to build file_catalog schema") (build catalog_fields (1 ∷ []))

  unfoldable pub verify_table_schema : (table : List NestedField) → Result (Unit {0})
  verify_table_schema table = do
    expected ← build_file_catalog_schema
    report (compare_fields table expected)
