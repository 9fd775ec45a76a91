-- ===== src/Lakehouse/Commit.antt =====
-- src/lakehouse/writer.rs and mod.rs: the commit of rows to the catalog table. The iceberg client, with
-- its writer of Parquet files, is a parameter.
pub mod Guarded
use anti_entropator.Prelude.Io.{Io, pure, lift, with_context_io, ◌>>=◌, ◌>>◌}
use anti_entropator.Prelude.{ℕ, List, [], ◌∷◌, TextMap, Result, Text, ascii}
use anti_entropator.Lakehouse.Schema.{NestedField, verify_table_schema}
use anti_entropator.Lakehouse.Http.{
  namespace_name, file_catalog_table, build_rest_catalog_props, Web,
}
use anti_entropator.Lakehouse.Setup.{get_warehouse_prefix}
use anti_entropator.Config.{LakehouseConfig}
use anti_entropator.Domain.FileInfo.{FileInfo}

pub record Iceberg (World RecordBatch : Type 0) : Type 1 where
  pub Catalog : Type 0
  pub Table : Type 0
  pub DataFile : Type 0
  pub load_catalog : (name : Text) → (props : TextMap Text) → Io World Catalog
  pub load_table : Catalog → (namespace table : Text) → Io World Table
  pub current_schema : Table → List NestedField
  pub write_parquet_file : Table → RecordBatch → LakehouseConfig → Io World (List DataFile)
  pub fast_append : Catalog → Table → List DataFile → Io World (Unit {0})

module _ {World RecordBatch : Type 0} (web : Web World) (ice : Iceberg World RecordBatch)
    (build : List NestedField → (identifiers : List ℕ) → Result (List NestedField))
    (to_batch : List FileInfo → Result RecordBatch) where
  unfoldable pub build_rest_catalog : LakehouseConfig → Io World ice.Catalog
  build_rest_catalog config = do
    catalog ← get_warehouse_prefix web config
    with_context_io (ascii "Failed to build RestCatalog")
        (ice.load_catalog (ascii "anti_entropator") (build_rest_catalog_props config catalog))

  unfoldable pub load_table : ice.Catalog → Io World ice.Table
  load_table catalog =
      with_context_io (ascii "Failed to load table")
        (ice.load_table catalog namespace_name file_catalog_table)

  -- `commit_files` for rows; `to_batch` is `files_to_batch`.
  abbrev commit_rows : List FileInfo → LakehouseConfig → Io World (Unit {0})
  commit_rows files config = do
    batch ← lift (to_batch files)
    catalog ← build_rest_catalog config
    table ← load_table catalog
    lift (verify_table_schema build (ice.current_schema table))
    data_files ← ice.write_parquet_file table batch config
    ice.fast_append catalog table data_files

  unfoldable pub commit_files : List FileInfo → LakehouseConfig → Io World (Unit {0})
  commit_files [] config = pure tt
  commit_files (f ∷ fs) config = commit_rows (f ∷ fs) config
