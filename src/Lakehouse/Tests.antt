-- ===== src/Lakehouse/Tests.antt =====
-- The catalog's own schema, and a batch of one file.
use anti_entropator.Lakehouse.Schema.Checked.{IsSchemaBuilder, verify_table_schema_iff, HasField}
use anti_entropator.Prelude.{
  ℕ, ◌≡◌, refl, sym, ◌↔◌, Bool, true, false, none, some, List, [], ◌∷◌, All, map, ◌∙◌, Text, lookup,
  Result, ok, ◌==◌, Bytes, ascii, text_eq,
}
use anti_entropator.Lakehouse.Batch.{pos, Arrow, Column, files_to_batch}
use anti_entropator.Lakehouse.Batch.Columns.{fits, IsArrow, named_columns, files_to_batch-fits}
use anti_entropator.Lakehouse.Schema.{
  NestedField, catalog_fields, type_eq, field_by_name, compare_fields, build_file_catalog_schema,
  verify_table_schema,
}
use anti_entropator.Domain.FileInfo.{FileInfo, new}
use anti_entropator.Config.{LakehouseConfig}
use anti_entropator.Lakehouse.Http.{
  Method, head, get, post, put, Response, is_success, is_created, created_response, Web,
}
use anti_entropator.Lakehouse.Server.{resolve_project_id}
use anti_entropator.Lakehouse.Setup.{
  catalog_config_response, get_warehouse_prefix, create_namespace,
}
use anti_entropator.Lakehouse.Setup.Asking.{IsReadSafe}
use anti_entropator.Lakehouse.Http.{CatalogConfigResult}
use anti_entropator.Lakehouse.Setup.Ensured.{
  create_namespace-Refines, Refines, IsKeeper, namespace_check, namespace_create,
}
use anti_entropator.Lakehouse.Commit.{Iceberg, commit_files}
use anti_entropator.Lakehouse.Commit.Guarded.{commit_files-Guarded, Guarded, LoadsKeep}

abbrev keep_fields : List NestedField → List ℕ → Result (List NestedField)
keep_fields fields identifiers = ok fields

keep_fields-IsSchemaBuilder : IsSchemaBuilder keep_fields
keep_fields-IsSchemaBuilder = record { builds = λ fields ids a b c. refl }

verify_table_schema_iff_example :
    (verify_table_schema keep_fields catalog_fields ≡ ok tt)
    ↔ All (HasField catalog_fields) catalog_fields
verify_table_schema_iff_example =
    verify_table_schema_iff keep_fields keep_fields-IsSchemaBuilder catalog_fields

catalog_is_accepted : verify_table_schema keep_fields catalog_fields ≡ ok tt
unfolding verify_table_schema build_file_catalog_schema compare_fields field_by_name type_eq text_eq
catalog_is_accepted = refl

abbrev sixteen : Bytes
sixteen = 0 ∷ 0 ∷ 0 ∷ 0 ∷ 0 ∷ 0 ∷ 0 ∷ 0 ∷ 0 ∷ 0 ∷ 0 ∷ 0 ∷ 0 ∷ 0 ∷ 0 ∷ 0 ∷ []

abbrev plain_arrow : Arrow
plain_arrow = record {
  as_bytes = λ id. sixteen;
  timestamp_micros = λ t. pos t;
  to_string_lossy = λ b. b;
}

abbrev keep_schema : List NestedField → Result (List NestedField)
keep_schema fields = ok fields

-- A batch is the list of its columns.
abbrev checked_columns : List NestedField → List Column → Result (List Column)
checked_columns fields cs = ok cs

plain_arrow-IsArrow : IsArrow keep_schema checked_columns (λ cs. cs) plain_arrow
plain_arrow-IsArrow = record {
  widths = λ id. refl;
  converted = λ fields. fields;
  converts = λ fields. refl;
  accepts = λ n fields cs h. (cs, refl, refl);
}

abbrev photo : FileInfo
photo = new (λ s. s) 1 7 (ascii "/a") (ascii "a") [] 2048 none none

files_to_batch-fits_example :
    (b : List Column) × (files_to_batch keep_fields keep_schema checked_columns plain_arrow
        (photo ∷ [])
      ≡ ok b)
    × (b ≡ map (λ (c : Text × Column). c.1) (named_columns plain_arrow (photo ∷ [])))
    × (map (λ (c : Text × Column). c.0) (named_columns plain_arrow (photo ∷ []))
        ≡ map (λ (f : NestedField). f.name) catalog_fields)
    × (fits 1 catalog_fields b ≡ true)
files_to_batch-fits_example =
    files_to_batch-fits keep_fields keep_schema checked_columns (λ cs. cs) plain_arrow
      keep_fields-IsSchemaBuilder plain_arrow-IsArrow (photo ∷ [])

-- A server with a namespace or without: the world says which.
abbrev answer : Method → Bool → Response × Bool
answer head true = (record { status = 200; text = [] }, true)
answer head false = (record { status = 404; text = [] }, false)
answer get b = (record { status = 200; text = [] }, b)
answer post true = (record { status = 409; text = [] }, true)
answer post false = (record { status = 201; text = [] }, true)
answer put b = (record { status = 200; text = [] }, b)

abbrev small_web : Web Bool
small_web = record {
  Client = Unit;
  build_client = λ n. ok tt;
  send = λ c r w. (ok (answer r.method w).0, (answer r.method w).1);
  sign_time = λ w. (([], []), w);
  sha256 = λ b. b;
  hmac_sha256 = λ k b. ok b;
  project_of = λ b. ok (ascii "p");
  conflict_project_of = λ b. some (ascii "p");
  warehouses_of = λ b. ok [];
  catalog_config_of = λ b. ok ((ascii "prefix", ascii "x") ∷ [], []);
  catalog_config_url = λ c. ok [];
  table_schema = λ c w. (ok catalog_fields, w);
  save_project_id_to_state = λ id w. (ok tt, w);
  load_project_id_from_state = λ w. (ok (some (ascii "p")), w);
}

abbrev plain_config : LakehouseConfig
plain_config = record {
  s3_endpoint = ascii "http://localhost:8200";
  s3_endpoint_internal = ascii "http://rustfs:9000";
  s3_access_key = ascii "key";
  s3_secret_key = ascii "secret";
  s3_region = ascii "eu-central-1";
  bucket = ascii "lake";
  catalog_endpoint = ascii "http://localhost:8100";
  warehouse = ascii "lake";
  project_id = none;
}

head_tells : (w : Bool) {r : Response} → ok (answer head w).0 ≡ ok r → is_success r.status ≡ w
unfolding is_success
head_tells true {r} e = let same : (answer head true).0 ≡ r = cc in rw (sym same) refl
head_tells false {r} e = let same : (answer head false).0 ≡ r = cc in rw (sym same) refl

head_same : (w : Bool) → (answer head w).1 ≡ w
head_same true = refl
head_same false = refl

post_creates :
    (w : Bool) {r : Response}
    → ok (answer post w).0 ≡ ok r
    → is_created r.status ≡ true
    → (w ≡ false) × ((answer post w).1 ≡ true)
post_creates true {r} e h =
    let same : r ≡ (answer post true).0 = cc in let bad : false ≡ true = rw same at h in cc
post_creates false e h = (refl, refl)

post_conflicts :
    (w : Bool) {r : Response}
    → ok (answer post w).0 ≡ ok r
    → (r.status == 409) ≡ true
    → (w ≡ true) × ((answer post w).1 ≡ true)
post_conflicts true e h = (refl, refl)
post_conflicts false {r} e h =
    let same : r ≡ (answer post false).0 = cc in let bad : false ≡ true = rw same at h in cc

post_stays : (w : Bool) → w ≡ true → (answer post w).1 ≡ true
post_stays true h = refl
post_stays false h = refl

small_web-IsReadSafe : IsReadSafe (λ w. w) small_web
small_web-IsReadSafe = record { reads_keep = λ c url hs w. refl; state_keeps = λ w. refl }

small_web-IsKeeper :
    IsKeeper small_web
      (λ catalog w. w)
      (namespace_check small_web plain_config)
      (namespace_create small_web plain_config)
small_web-IsKeeper = record {
  reads_safe = λ catalog. small_web-IsReadSafe;
  check_keeps = λ c catalog w. head_same w;
  check_tells = λ c catalog w e h. sym (head_tells w e) ∙ h;
  creates = λ c catalog w e h. post_creates w e h;
  conflicts = λ c catalog w e h. post_conflicts w e h;
  never_removes = λ c catalog w h. post_stays w h;
}

abbrev small_catalog : CatalogConfigResult
small_catalog = record {
  prefix = ascii "x";
  uri = plain_config.catalog_endpoint;
  project_id = ascii "p";
}

small_catalog_found : (get_warehouse_prefix small_web plain_config false).0 ≡ ok small_catalog
unfolding get_warehouse_prefix resolve_project_id catalog_config_response is_success lookup text_eq
small_catalog_found = refl

create_namespace-Refines_example :
    Refines small_web plain_config
      (λ catalog w. w)
      small_web-IsKeeper
      small_catalog
      false
      (create_namespace small_web plain_config false).0
      (create_namespace small_web plain_config false).1
create_namespace-Refines_example =
    create_namespace-Refines small_web plain_config (λ catalog w. w) small_web-IsKeeper false
      small_catalog small_catalog_found

namespace_is_created : create_namespace small_web plain_config false ≡ (ok true, true)
unfolding create_namespace get_warehouse_prefix resolve_project_id catalog_config_response
    is_success lookup text_eq created_response
namespace_is_created = refl

abbrev small_iceberg : Iceberg Bool (List Column)
small_iceberg = record {
  Catalog = Unit;
  Table = Unit;
  DataFile = Unit;
  load_catalog = λ name props w. (ok tt, w);
  load_table = λ c n t w. (ok tt, w);
  current_schema = λ t. catalog_fields;
  write_parquet_file = λ t b c w. (ok [], w);
  fast_append = λ c t fs w. (ok tt, true);
}

abbrev to_columns : List FileInfo → Result (List Column)
to_columns files = files_to_batch keep_fields keep_schema checked_columns plain_arrow files

small_iceberg-LoadsKeep :
    LoadsKeep
      (λ w. w)
      small_web
      small_iceberg
      keep_fields
      to_columns
      keep_fields-IsSchemaBuilder
      plain_config
small_iceberg-LoadsKeep = record {
  reads_safe = small_web-IsReadSafe;
  catalog_keeps = λ n p w. refl;
  table_keeps = λ c n t w. refl;
}

commit_files-Guarded_example :
    Guarded
      (λ w. w)
      small_web
      small_iceberg
      keep_fields
      to_columns
      keep_fields-IsSchemaBuilder
      plain_config
      small_iceberg-LoadsKeep
      (photo ∷ [])
      false
      (commit_files small_web small_iceberg keep_fields to_columns
        (photo ∷ [])
        plain_config
        false).1
commit_files-Guarded_example =
    commit_files-Guarded (λ w. w) small_web small_iceberg keep_fields to_columns
      keep_fields-IsSchemaBuilder plain_config small_iceberg-LoadsKeep (photo ∷ []) false
