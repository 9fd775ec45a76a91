-- ===== src/Lakehouse/Batch.antt =====
-- src/lakehouse/writer.rs: the columns of a batch of rows. Arrow is a parameter.
pub mod Columns
use anti_entropator.Prelude.{
  ℕ, ◌+◌, ◌-◌, Bool, not, Option, none, some, List, [], ◌∷◌, ◌++◌, map, length, message, Result, ok,
  err, ◌>>=◌, ltb, ◌==◌, if◌then◌else◌, Bytes, Text, ascii,
}
use anti_entropator.Lakehouse.Schema.{NestedField, build_file_catalog_schema}
use anti_entropator.Domain.FileInfo.{Timestamp, FileInfo, hash_text}
use anti_entropator.Domain.Category.{to_string}
use anti_entropator.Domain.ContentHash.{PartialHash}
use anti_entropator.Domain.Observation.{ObservationStatus, as_str, Uuid}

-- `i64`
pub data ℤ : Type 0 where
  pos : ℕ → ℤ
  negsuc : ℕ → ℤ

-- `n as i64` of a `u64`
unfoldable pub i64 : ℕ → ℤ
i64 n = if ltb n 9223372036854775808 then pos n else negsuc (18446744073709551615 - n)

-- What the builder uses of `uuid`, `chrono` and `arrow`: the bytes of a UUID, and the microseconds of a
-- time since 1970.
pub record Arrow : Type 0 where
  pub as_bytes : Uuid → Bytes
  pub timestamp_micros : Timestamp → ℤ
  pub to_string_lossy : Bytes → Text

pub record BatchColumns : Type 0 where
  pub ids : List (Option Bytes)
  pub source_paths : List Text
  pub filenames : List Text
  pub extensions : List Text
  pub mime_types : List (Option Text)
  pub categories : List Text
  pub sizes : List ℤ
  pub content_hashes : List (Option Text)
  pub partial_hashes : List (Option Text)
  pub created_ats : List (Option ℤ)
  pub modified_ats : List (Option ℤ)
  pub scanned_ats : List ℤ
  pub object_uris : List (Option Text)
  pub ingested_ats : List (Option ℤ)
  pub suggested_names : List (Option Text)
  pub name_reasons : List (Option Text)
  pub is_duplicates : List Bool
  pub duplicate_ofs : List (Option Bytes)
  pub parent_dirs : List Text
  pub group_ids : List (Option Bytes)
  pub source_ids : List (Option Text)
  pub relative_paths : List (Option Text)
  pub run_ids : List (Option Bytes)
  pub observation_statuses : List (Option Text)
  pub observed_ats : List (Option ℤ)

unfoldable pub empty_columns : BatchColumns
empty_columns = record {
  ids = [];
  source_paths = [];
  filenames = [];
  extensions = [];
  mime_types = [];
  categories = [];
  sizes = [];
  content_hashes = [];
  partial_hashes = [];
  created_ats = [];
  modified_ats = [];
  scanned_ats = [];
  object_uris = [];
  ingested_ats = [];
  suggested_names = [];
  name_reasons = [];
  is_duplicates = [];
  duplicate_ofs = [];
  parent_dirs = [];
  group_ids = [];
  source_ids = [];
  relative_paths = [];
  run_ids = [];
  observation_statuses = [];
  observed_ats = [];
}

-- `FixedSizeBinaryBuilder::append_value` of width 16, which refuses another width.
abbrev append_value : Bytes → List (Option Bytes) → Result (List (Option Bytes))
append_value bytes column =
    if length bytes == 16
    then ok (column ++ some bytes ∷ [])
    else err (message (ascii "Byte slice does not have the same length as the width"))

abbrev map_some : {A B : Type 0} → (A → B) → Option A → Option B
map_some f none = none
map_some f (some a) = some (f a)

abbrev pub partial_text : Option PartialHash → Option Text
partial_text = map_some (λ h. h.value)

abbrev pub status_text : Option ObservationStatus → Option Text
status_text = map_some as_str

module _ (arrow : Arrow) where
  -- A value, or a null.
  abbrev append_uuid : Option Uuid → List (Option Bytes) → Result (List (Option Bytes))
  append_uuid none column = ok (column ++ none ∷ [])
  append_uuid (some id) column = append_value (arrow.as_bytes id) column

  abbrev pub micros : Option Timestamp → Option ℤ
  micros = map_some arrow.timestamp_micros

  -- `BatchColumnsBuilder::push`
  unfoldable pub push_file : FileInfo → BatchColumns → Result BatchColumns
  push_file f c = do
    ids ← append_uuid (some f.id) c.ids
    duplicate_ofs ← append_uuid f.duplicate_of c.duplicate_ofs
    group_ids ← append_uuid f.group_id c.group_ids
    run_ids ← append_uuid f.run_id c.run_ids
    ok (record {
      ids = ids;
      source_paths = c.source_paths ++ (arrow.to_string_lossy f.source_path) ∷ [];
      filenames = c.filenames ++ f.filename ∷ [];
      extensions = c.extensions ++ f.extension ∷ [];
      mime_types = c.mime_types ++ f.mime_type ∷ [];
      categories = c.categories ++ (to_string f.category) ∷ [];
      sizes = c.sizes ++ (i64 f.size_bytes) ∷ [];
      content_hashes = c.content_hashes ++ (hash_text f.content_hash) ∷ [];
      partial_hashes = c.partial_hashes ++ (partial_text f.partial_hash) ∷ [];
      created_ats = c.created_ats ++ (micros f.created_at) ∷ [];
      modified_ats = c.modified_ats ++ (micros f.modified_at) ∷ [];
      scanned_ats = c.scanned_ats ++ (arrow.timestamp_micros f.scanned_at) ∷ [];
      object_uris = c.object_uris ++ f.object_uri ∷ [];
      ingested_ats = c.ingested_ats ++ (micros f.ingested_at) ∷ [];
      suggested_names = c.suggested_names ++ f.suggested_name ∷ [];
      name_reasons = c.name_reasons ++ f.name_reason ∷ [];
      is_duplicates = c.is_duplicates ++ f.is_duplicate ∷ [];
      duplicate_ofs = duplicate_ofs;
      parent_dirs = c.parent_dirs ++ f.parent_dir ∷ [];
      group_ids = group_ids;
      source_ids = c.source_ids ++ f.source_id ∷ [];
      relative_paths = c.relative_paths ++ f.relative_path ∷ [];
      run_ids = run_ids;
      observation_statuses = c.observation_statuses ++ (status_text f.observation_status) ∷ [];
      observed_ats = c.observed_ats ++ (micros f.observed_at) ∷ [];
    })

  unfoldable pub push_files : List FileInfo → BatchColumns → Result BatchColumns
  push_files [] c = ok c
  push_files (f ∷ fs) c = do c' ← push_file f c; push_files fs c'

-- An Arrow array; one that was made of values has no nulls.
pub data Column : Type 0 where
  fixed_binary : List (Option Bytes) → Column
  strings : List (Option Text) → Column
  longs : List ℤ → Column
  times : List (Option ℤ) → Column
  booleans : List Bool → Column

-- `BatchColumnsBuilder::build_arrays`
unfoldable pub build_arrays : BatchColumns → List Column
build_arrays c =
    fixed_binary c.ids
    ∷ strings (map some c.source_paths)
    ∷ strings (map some c.filenames)
    ∷ strings (map some c.extensions)
    ∷ strings c.mime_types
    ∷ strings (map some c.categories)
    ∷ longs c.sizes
    ∷ strings c.content_hashes
    ∷ strings c.partial_hashes
    ∷ times c.created_ats
    ∷ times c.modified_ats
    ∷ times (map some c.scanned_ats)
    ∷ strings c.object_uris
    ∷ times c.ingested_ats
    ∷ strings c.suggested_names
    ∷ strings c.name_reasons
    ∷ booleans c.is_duplicates
    ∷ fixed_binary c.duplicate_ofs
    ∷ strings (map some c.parent_dirs)
    ∷ fixed_binary c.group_ids
    ∷ strings c.source_ids
    ∷ strings c.relative_paths
    ∷ fixed_binary c.run_ids
    ∷ strings c.observation_statuses
    ∷ times c.observed_ats
    ∷ []

module _ {ArrowSchema RecordBatch : Type 0}
    (build : List NestedField → (identifiers : List ℕ) → Result (List NestedField))
    (schema_to_arrow_schema : List NestedField → Result ArrowSchema)
    (try_new : ArrowSchema → List Column → Result RecordBatch) (arrow : Arrow) where
  unfoldable pub files_to_batch : List FileInfo → Result RecordBatch
  files_to_batch files = do
    schema ← build_file_catalog_schema build
    arrow_schema ← schema_to_arrow_schema schema
    columns ← push_files arrow files empty_columns
    try_new arrow_schema (build_arrays columns)
