-- ===== src/Lakehouse/Batch/Columns.antt =====
-- The columns of a batch, by the names and types of the fields.
use mathlib.Core.List.{append_assoc, append-nil}
use anti_entropator.Lakehouse.Schema.Checked.{IsSchemaBuilder, build_file_catalog_schema-ok}
use anti_entropator.Prelude.{
  ℕ, ◌≡◌, refl, ap, ◌∙◌, Bool, true, false, ◌&&◌, ◌||◌, not, Option, none, some, List, [], ◌∷◌,
  ◌++◌, map, arith, length, all, Result, ok, ◌==◌, ==_iff, Bytes, Text, ascii,
}
use anti_entropator.Lakehouse.Batch.{
  i64, Arrow, BatchColumns, empty_columns, map_some, partial_text, status_text, append_uuid, micros,
  push_file, push_files, Column, fixed_binary, strings, longs, times, booleans, build_arrays,
  files_to_batch,
}
use anti_entropator.Lakehouse.Schema.{
  FieldType, uuid, string, long, timestamptz, boolean, NestedField, catalog_fields, type_eq,
}
use anti_entropator.Domain.FileInfo.{FileInfo, hash_text}
use anti_entropator.Domain.Category.{to_string}
use anti_entropator.Domain.Observation.{Uuid}

abbrev column_type : Column → FieldType
column_type (fixed_binary xs) = uuid
column_type (strings xs) = string
column_type (longs xs) = long
column_type (times xs) = timestamptz
column_type (booleans xs) = boolean

abbrev column_length : Column → ℕ
column_length (fixed_binary xs) = length xs
column_length (strings xs) = length xs
column_length (longs xs) = length xs
column_length (times xs) = length xs
column_length (booleans xs) = length xs

abbrev is_value : {A : Type 0} → Option A → Bool
is_value none = false
is_value (some a) = true

abbrev lacks_nulls : Column → Bool
lacks_nulls (fixed_binary xs) = all is_value xs
lacks_nulls (strings xs) = all is_value xs
lacks_nulls (longs xs) = true
lacks_nulls (times xs) = all is_value xs
lacks_nulls (booleans xs) = true

abbrev fits_field : ℕ → NestedField → Column → Bool
fits_field n f c =
    type_eq (column_type c) f.field_type
    && column_length c == n
    && (not f.is_required || lacks_nulls c)

-- One column for each field, of its type, with `n` values, and with no null where the field is
-- required.
abbrev pub fits : ℕ → List NestedField → List Column → Bool
fits n [] [] = true
fits n (f ∷ fs) (c ∷ cs) = fits_field n f c && fits n fs cs
fits n _ _ = false

-- Arrow converts the schema, and accepts columns that fit it, as the rows of the batch.
pub record IsArrow {ArrowSchema RecordBatch : Type 0}
    (schema_to_arrow_schema : List NestedField → Result ArrowSchema)
    (try_new : ArrowSchema → List Column → Result RecordBatch) (columns : RecordBatch → List Column)
    (arrow : Arrow) : Type 0 where
  pub widths : (id : Uuid) → length (arrow.as_bytes id) ≡ 16
  pub converted : List NestedField → ArrowSchema
  pub converts : (fields : List NestedField) → schema_to_arrow_schema fields ≡ ok (converted fields)
  pub accepts :
      (n : ℕ) (fields : List NestedField) (cs : List Column)
      → fits n fields cs ≡ true
      → (b : RecordBatch) × (try_new (converted fields) cs ≡ ok b) × (columns b ≡ cs)

length-map : {A B : Type 0} (f : A → B) (xs : List A) → length (map f xs) ≡ length xs
length-map f [] = refl
length-map f (x ∷ xs) = omega (arith, length-map f xs)

values-map :
    {A B : Type 0} (f : A → B) (xs : List A) → all is_value (map (λ x. some (f x)) xs) ≡ true
values-map f [] = refl
values-map f (x ∷ xs) = values-map f xs

values_present : {A : Type 0} (xs : List A) → all is_value (map some xs) ≡ true
values_present [] = refl
values_present (x ∷ xs) = values_present xs

map-some : {A B : Type 0} (f : A → B) (xs : List A) → map some (map f xs) ≡ map (λ x. some (f x)) xs
map-some f [] = refl
map-some f (x ∷ xs) = ap (λ ys. some (f x) ∷ ys) (map-some f xs)

eq_same : (n : ℕ) → (n == n) ≡ true
eq_same n = (==_iff n n).1 refl

module _ (arrow : Arrow) where
  abbrev uuid_cell : Option Uuid → Option Bytes
  uuid_cell = map_some arrow.as_bytes

  -- The columns of the files, each made field by field.
  abbrev pub columns_of : List FileInfo → BatchColumns
  columns_of files = record {
    ids = map (λ (f : FileInfo). some (arrow.as_bytes f.id)) files;
    source_paths = map (λ (f : FileInfo). arrow.to_string_lossy f.source_path) files;
    filenames = map (λ (f : FileInfo). f.filename) files;
    extensions = map (λ (f : FileInfo). f.extension) files;
    mime_types = map (λ (f : FileInfo). f.mime_type) files;
    categories = map (λ (f : FileInfo). to_string f.category) files;
    sizes = map (λ (f : FileInfo). i64 f.size_bytes) files;
    content_hashes = map (λ (f : FileInfo). hash_text f.content_hash) files;
    partial_hashes = map (λ (f : FileInfo). partial_text f.partial_hash) files;
    created_ats = map (λ (f : FileInfo). micros arrow f.created_at) files;
    modified_ats = map (λ (f : FileInfo). micros arrow f.modified_at) files;
    scanned_ats = map (λ (f : FileInfo). arrow.timestamp_micros f.scanned_at) files;
    object_uris = map (λ (f : FileInfo). f.object_uri) files;
    ingested_ats = map (λ (f : FileInfo). micros arrow f.ingested_at) files;
    suggested_names = map (λ (f : FileInfo). f.suggested_name) files;
    name_reasons = map (λ (f : FileInfo). f.name_reason) files;
    is_duplicates = map (λ (f : FileInfo). f.is_duplicate) files;
    duplicate_ofs = map (λ (f : FileInfo). uuid_cell f.duplicate_of) files;
    parent_dirs = map (λ (f : FileInfo). f.parent_dir) files;
    group_ids = map (λ (f : FileInfo). uuid_cell f.group_id) files;
    source_ids = map (λ (f : FileInfo). f.source_id) files;
    relative_paths = map (λ (f : FileInfo). f.relative_path) files;
    run_ids = map (λ (f : FileInfo). uuid_cell f.run_id) files;
    observation_statuses = map (λ (f : FileInfo). status_text f.observation_status) files;
    observed_ats = map (λ (f : FileInfo). micros arrow f.observed_at) files;
  }

  -- The columns by the names of their fields, each made of the files' own fields.
  abbrev pub named_columns : List FileInfo → List (Text × Column)
  named_columns files =
      (ascii "id", fixed_binary (map (λ (f : FileInfo). some (arrow.as_bytes f.id)) files))
      ∷ (
        ascii "source_path",
        strings (map (λ (f : FileInfo). some (arrow.to_string_lossy f.source_path)) files),
      )
      ∷ (ascii "filename", strings (map (λ (f : FileInfo). some f.filename) files))
      ∷ (ascii "extension", strings (map (λ (f : FileInfo). some f.extension) files))
      ∷ (ascii "mime_type", strings (map (λ (f : FileInfo). f.mime_type) files))
      ∷ (ascii "category", strings (map (λ (f : FileInfo). some (to_string f.category)) files))
      ∷ (ascii "size_bytes", longs (map (λ (f : FileInfo). i64 f.size_bytes) files))
      ∷ (ascii "content_hash", strings (map (λ (f : FileInfo). hash_text f.content_hash) files))
      ∷ (ascii "partial_hash", strings (map (λ (f : FileInfo). partial_text f.partial_hash) files))
      ∷ (ascii "created_at", times (map (λ (f : FileInfo). micros arrow f.created_at) files))
      ∷ (ascii "modified_at", times (map (λ (f : FileInfo). micros arrow f.modified_at) files))
      ∷ (
        ascii "scanned_at",
        times (map (λ (f : FileInfo). some (arrow.timestamp_micros f.scanned_at)) files),
      )
      ∷ (ascii "object_uri", strings (map (λ (f : FileInfo). f.object_uri) files))
      ∷ (ascii "ingested_at", times (map (λ (f : FileInfo). micros arrow f.ingested_at) files))
      ∷ (ascii "suggested_name", strings (map (λ (f : FileInfo). f.suggested_name) files))
      ∷ (ascii "name_reason", strings (map (λ (f : FileInfo). f.name_reason) files))
      ∷ (ascii "is_duplicate", booleans (map (λ (f : FileInfo). f.is_duplicate) files))
      ∷ (
        ascii "duplicate_of",
        fixed_binary (map (λ (f : FileInfo). uuid_cell f.duplicate_of) files),
      )
      ∷ (ascii "parent_dir", strings (map (λ (f : FileInfo). some f.parent_dir) files))
      ∷ (ascii "group_id", fixed_binary (map (λ (f : FileInfo). uuid_cell f.group_id) files))
      ∷ (ascii "source_id", strings (map (λ (f : FileInfo). f.source_id) files))
      ∷ (ascii "relative_path", strings (map (λ (f : FileInfo). f.relative_path) files))
      ∷ (ascii "run_id", fixed_binary (map (λ (f : FileInfo). uuid_cell f.run_id) files))
      ∷ (
        ascii "observation_status",
        strings (map (λ (f : FileInfo). status_text f.observation_status) files),
      )
      ∷ (ascii "observed_at", times (map (λ (f : FileInfo). micros arrow f.observed_at) files))
      ∷ []

  named_columns_are :
      (files : List FileInfo)
      → build_arrays (columns_of files) ≡ map (λ (c : Text × Column). c.1) (named_columns files)
  unfolding build_arrays
  named_columns_are files = simp (map-some)

  columns_of-fits :
      (files : List FileInfo)
      → fits (length files) catalog_fields (build_arrays (columns_of files)) ≡ true
  unfolding build_arrays type_eq
  columns_of-fits files = simp (length-map, eq_same, values-map, values_present)

  abbrev joined : BatchColumns → BatchColumns → BatchColumns
  joined c d = record {
    ids = c.ids ++ d.ids;
    source_paths = c.source_paths ++ d.source_paths;
    filenames = c.filenames ++ d.filenames;
    extensions = c.extensions ++ d.extensions;
    mime_types = c.mime_types ++ d.mime_types;
    categories = c.categories ++ d.categories;
    sizes = c.sizes ++ d.sizes;
    content_hashes = c.content_hashes ++ d.content_hashes;
    partial_hashes = c.partial_hashes ++ d.partial_hashes;
    created_ats = c.created_ats ++ d.created_ats;
    modified_ats = c.modified_ats ++ d.modified_ats;
    scanned_ats = c.scanned_ats ++ d.scanned_ats;
    object_uris = c.object_uris ++ d.object_uris;
    ingested_ats = c.ingested_ats ++ d.ingested_ats;
    suggested_names = c.suggested_names ++ d.suggested_names;
    name_reasons = c.name_reasons ++ d.name_reasons;
    is_duplicates = c.is_duplicates ++ d.is_duplicates;
    duplicate_ofs = c.duplicate_ofs ++ d.duplicate_ofs;
    parent_dirs = c.parent_dirs ++ d.parent_dirs;
    group_ids = c.group_ids ++ d.group_ids;
    source_ids = c.source_ids ++ d.source_ids;
    relative_paths = c.relative_paths ++ d.relative_paths;
    run_ids = c.run_ids ++ d.run_ids;
    observation_statuses = c.observation_statuses ++ d.observation_statuses;
    observed_ats = c.observed_ats ++ d.observed_ats;
  }

  append_uuid-ok :
      ((id : Uuid) → length (arrow.as_bytes id) ≡ 16)
      → (o : Option Uuid) (column : List (Option Bytes))
      → append_uuid arrow o column ≡ ok (column ++ uuid_cell o ∷ [])
  append_uuid-ok w none column = refl
  append_uuid-ok w (some id) column = rw (w id) refl

  push_file-ok :
      ((id : Uuid) → length (arrow.as_bytes id) ≡ 16)
      → (f : FileInfo) (c : BatchColumns)
      → push_file arrow f c ≡ ok (joined c (columns_of (f ∷ [])))
  unfolding push_file
  push_file-ok w f c = simp (append_uuid-ok w)

  joined_next :
      (f : FileInfo) (fs : List FileInfo) (c : BatchColumns)
      → joined (joined c (columns_of (f ∷ []))) (columns_of fs) ≡ joined c (columns_of (f ∷ fs))
  joined_next f fs c = simp (append_assoc)

  push_files-ok :
      ((id : Uuid) → length (arrow.as_bytes id) ≡ 16)
      → (fs : List FileInfo) (c : BatchColumns)
      → push_files arrow fs c ≡ ok (joined c (columns_of fs))
  unfolding push_files
  push_files-ok w [] c = simp (append-nil)
  push_files-ok w (f ∷ fs) c =
      rw (push_file-ok w f c)
        (push_files-ok w fs (joined c (columns_of (f ∷ []))) ∙ ap (λ d. ok d) (joined_next f fs c))

module _ {ArrowSchema RecordBatch : Type 0}
    (build : List NestedField → (identifiers : List ℕ) → Result (List NestedField))
    (schema_to_arrow_schema : List NestedField → Result ArrowSchema)
    (try_new : ArrowSchema → List Column → Result RecordBatch) (columns : RecordBatch → List Column)
    (arrow : Arrow) where
  -- With a schema builder and an Arrow that keep their documented laws: every list of files makes a
  -- batch. It has one column for each field of the catalog's schema, of the type of the field, with
  -- one value for each file and no null in a required field, and the column at the place of a field's
  -- name holds, file by file, the values of the files' own field of that name.
  pub files_to_batch-fits :
      IsSchemaBuilder build
      → IsArrow schema_to_arrow_schema try_new columns arrow
      → (files : List FileInfo)
      → (b : RecordBatch) × (files_to_batch build schema_to_arrow_schema try_new arrow files ≡ ok b)
        × (columns b ≡ map (λ (c : Text × Column). c.1) (named_columns arrow files))
        × (map (λ (c : Text × Column). c.0) (named_columns arrow files)
            ≡ map (λ (f : NestedField). f.name) catalog_fields)
        × (fits (length files) catalog_fields (columns b) ≡ true)
  unfolding files_to_batch empty_columns
  files_to_batch-fits builder laws files =
      let (b, made, same) =
        laws.accepts (length files) catalog_fields (build_arrays (columns_of arrow files))
          (columns_of-fits arrow files) in
      (
        b,
        rw
            (
              build_file_catalog_schema-ok build builder,
              laws.converts catalog_fields,
              push_files-ok arrow laws.widths files empty_columns,
            )
            made,
        same ∙ named_columns_are arrow files,
        refl,
        rw same (columns_of-fits arrow files),
      )
