-- ===== src/Lakehouse/Commit/Guarded.antt =====
-- What a commit writes to, and what it has checked before.
use anti_entropator.Prelude.Io.{lift, bind_cases, ◌>>=◌}
use anti_entropator.Lakehouse.Schema.Checked.{IsSchemaBuilder, HasField, verify_table_schema_iff}
use anti_entropator.Prelude.{
  ℕ, ◌≡◌, refl, ◌∙◌, ◌⊎◌, inl, inr, List, [], ◌∷◌, All, TextMap, Result, ok, Text,
}
use anti_entropator.Lakehouse.Commit.{
  Iceberg, build_rest_catalog, load_table, commit_rows, commit_files,
}
use anti_entropator.Lakehouse.Schema.{NestedField, catalog_fields, verify_table_schema}
use anti_entropator.Lakehouse.Http.{Web}
use anti_entropator.Lakehouse.Setup.{get_warehouse_prefix}
use anti_entropator.Lakehouse.Setup.Asking.{IsReadSafe, prefix_keeps}
use anti_entropator.Config.{LakehouseConfig}
use anti_entropator.Domain.FileInfo.{FileInfo}

module _ {World RecordBatch V : Type 0} (view : World → V) (web : Web World)
    (ice : Iceberg World RecordBatch)
    (build : List NestedField → (identifiers : List ℕ) → Result (List NestedField))
    (to_batch : List FileInfo → Result RecordBatch) (builder : IsSchemaBuilder build)
    (config : LakehouseConfig) where
  -- GET requests, and loading the catalog and its table, change nothing that `view` shows, such as the
  -- rows of the table.
  pub record LoadsKeep : Type 0 where
    pub reads_safe : IsReadSafe view web
    pub catalog_keeps :
        (name : Text) (props : TextMap Text) (w : World)
        → view (ice.load_catalog name props w).1 ≡ view w
    pub table_keeps :
        (c : ice.Catalog) (namespace table : Text) (w : World)
        → view (ice.load_table c namespace table w).1 ≡ view w

  module _ (loads : LoadsKeep) where
    catalog_io_keeps :
        (w : World) → view (build_rest_catalog web ice build to_batch config w).1 ≡ view w
    unfolding build_rest_catalog
    catalog_io_keeps w =
        bind_cases (λ r u. view u ≡ view w) _ (get_warehouse_prefix web config) w
          (λ e h. prefix_keeps view web loads.reads_safe config w)
          (λ c h.
            loads.catalog_keeps _ _ (get_warehouse_prefix web config w).1
            ∙ prefix_keeps view web loads.reads_safe config w)

    table_io_keeps :
        (c : ice.Catalog) (w : World) → view (load_table web ice build to_batch c w).1 ≡ view w
    unfolding load_table
    table_io_keeps c w = loads.table_keeps c _ _ w

    -- Writing the batch and appending the data files, to one table.
    abbrev appended : ice.Catalog → ice.Table → RecordBatch → World → World
    appended catalog table batch u =
        ((ice.write_parquet_file table batch config >>= ice.fast_append catalog table) u).1

    -- Nothing has changed, or a table that was loaded before any change has the columns, and what has
    -- happened since is that the batch of the files was written and appended to that table.
    abbrev pub Guarded : List FileInfo → World → World → Type 0
    Guarded files w v =
        (view v ≡ view w)
        ⊎ ((catalog : ice.Catalog) × (u : World) × (table : ice.Table) × (batch : RecordBatch)
            × ((load_table web ice build to_batch catalog u).0 ≡ ok table)
            × (view u ≡ view w)
            × All (HasField (ice.current_schema table)) catalog_fields
            × (to_batch files ≡ ok batch)
            × (v ≡ appended catalog table batch (load_table web ice build to_batch catalog u).1))

    commit_rows-Guarded :
        (files : List FileInfo) (w : World)
        → Guarded files w (commit_rows web ice build to_batch files config w).1
    commit_rows-Guarded files w =
        bind_cases (λ r v. Guarded files w v) _ (lift (to_batch files)) w (λ e h. inl refl)
          (λ batch h.
            let w1 : World = (build_rest_catalog web ice build to_batch config w).1 in
            bind_cases (λ r v. Guarded files w v) _
              (build_rest_catalog web ice build to_batch config) w (λ e g. inl (catalog_io_keeps w))
              (λ catalog g.
                let w2 : World = (load_table web ice build to_batch catalog w1).1 in
                let same : view w2 ≡ view w = table_io_keeps catalog w1 ∙ catalog_io_keeps w in
                bind_cases (λ r v. Guarded files w v) _ (load_table web ice build to_batch catalog)
                  w1 (λ e f. inl same)
                  (λ table f.
                    bind_cases (λ r v. Guarded files w v) _
                      (lift (verify_table_schema build (ice.current_schema table))) w2
                      (λ e d. inl same)
                      (λ u d. inr (
                        catalog,
                        w1,
                        table,
                        batch,
                        f,
                        catalog_io_keeps w,
                        (verify_table_schema_iff build builder (ice.current_schema table)).0 d,
                        h,
                        refl,
                      )))))

    -- With a schema builder that keeps its documented law, and with requests and loads that change
    -- nothing: on every outcome, a commit changes nothing, or it has found every column of the
    -- catalog, with its identifier and its type, in a table that it has loaded before any change, and
    -- all that it has done since is to write the batch of the files and append it to that table.
    pub commit_files-Guarded :
        (files : List FileInfo) (w : World)
        → Guarded files w (commit_files web ice build to_batch files config w).1
    unfolding commit_files
    commit_files-Guarded [] w = inl refl
    commit_files-Guarded (f ∷ fs) w = commit_rows-Guarded (f ∷ fs) w
