-- ===== src/Lakehouse/Setup.antt =====
-- src/lakehouse/mod.rs: the creation of bucket, warehouse, namespace and table where they are not there,
-- and `init`, which asks for all of them.
pub mod Asking
pub mod Ensured
use anti_entropator.Prelude.Io.{Io, pure, lift, with_context_io, ◌>>=◌, ◌>>◌}
use anti_entropator.Prelude.{
  ℕ, ◌+◌, ◌-◌, ◌/◌, Bool, true, false, not, Option, none, some, List, ◌++◌, any, TextMap, lookup,
  message, Result, ok, err, with_context, ◌==◌, if◌then◌else◌, Text, ascii, text_eq, decimal,
}
use anti_entropator.Lakehouse.Http.{
  head, get, post, put, Body, no_body, new_namespace, new_warehouse, new_table, Response,
  is_success, trim_end_slashes, namespace_name, file_catalog_table, validate_s3_credentials,
  build_create_warehouse_request, CatalogConfigResult, created_response, Web,
}
use anti_entropator.Lakehouse.Signing.{s3_host_from_endpoint, send_signed_s3}
use anti_entropator.Lakehouse.Server.{
  project_header, succeeds, resolve_project_id, verify_project_exists, ensure_project, check_rustfs,
  check_catalog,
}
use anti_entropator.Lakehouse.Schema.{NestedField, build_file_catalog_schema, verify_table_schema}
use anti_entropator.Config.{LakehouseConfig}

module _ {World : Type 0} (web : Web World) where
  -- Created unless a first request shows that it is there.
  abbrev unless_present : Bool → Io World Bool → Io World Bool
  unless_present true create = pure false
  unless_present false create = create

  abbrev bucket_response : Response → Result Bool
  bucket_response r =
      if is_success r.status
      then ok true
      else if r.status == 409
      then ok false
      else err
          (message (ascii "Failed to create bucket: " ++ decimal r.status ++ ascii " - " ++ r.text))

  unfoldable pub create_bucket : LakehouseConfig → Io World Bool
  create_bucket config = do
    client ← lift (web.build_client 10)
    let url = trim_end_slashes config.s3_endpoint ++ ascii "/" ++ config.bucket
    let host = s3_host_from_endpoint config.s3_endpoint
    let uri = ascii "/" ++ config.bucket
    found ← succeeds web (send_signed_s3 web client head url host uri config)
    unless_present found (do
      r ←
          with_context_io (ascii "Failed to create bucket")
            (send_signed_s3 web client put url host uri config)
      lift (bucket_response r))

  abbrev contains_name : Text → Result (List Text) → Result Bool
  contains_name name (ok names) = ok (any (λ n. text_eq n name) names)
  contains_name name (err e) = err e

  -- Is the warehouse among those listed? A list that is refused counts as empty.
  abbrev has_warehouse : LakehouseConfig → Response → Result Bool
  has_warehouse config r =
      if is_success r.status
      then contains_name config.warehouse
          (with_context (ascii "Failed to parse warehouses list") (web.warehouses_of r.text))
      else ok false

  unfoldable pub ensure_warehouse : LakehouseConfig → (project_id : Text) → Io World Bool
  ensure_warehouse config project_id = do
    client ← lift (web.build_client 10)
    let url = trim_end_slashes config.catalog_endpoint ++ ascii "/management/v1/warehouse"
    listed ← with_context_io (ascii "Failed to list warehouses") (
        web.send client (record {
          method = get;
          url = url;
          headers = project_header web project_id;
          body = no_body;
        }))
    found ← lift (has_warehouse config listed)
    unless_present found (do
      r ← with_context_io (ascii "Failed to create warehouse") (
          web.send client (record {
            method = post;
            url = url;
            headers = project_header web project_id;
            body = new_warehouse (build_create_warehouse_request config);
          }))
      lift (created_response (ascii "warehouse") r))

  abbrev uri_of : LakehouseConfig → Option Text → Text
  uri_of config none = config.catalog_endpoint
  uri_of config (some uri) = uri

  abbrev config_with :
      LakehouseConfig
      → (project_id : Text) → TextMap Text × TextMap Text
      → Result CatalogConfigResult
  config_with config project_id p = elim (lookup (ascii "prefix") p.0) [
    | none ↦ err (message (ascii "No prefix in catalog config"))
    | some prefix ↦ ok (record {
      prefix = prefix;
      uri = uri_of config (lookup (ascii "uri") p.1);
      project_id = project_id;
    })
  ]

  abbrev parsed_config :
      LakehouseConfig
      → (project_id : Text) → Result (TextMap Text × TextMap Text)
      → Result CatalogConfigResult
  parsed_config config project_id (err e) = err e
  parsed_config config project_id (ok p) = config_with config project_id p

  -- The defaults and the overrides that the server answers with.
  unfoldable pub catalog_config_response :
      LakehouseConfig → (project_id : Text) → Response → Result CatalogConfigResult
  catalog_config_response config project_id r =
      if not (is_success r.status)
      then err (
          message
            (ascii "Failed to get catalog config: " ++ decimal r.status ++ ascii " - " ++ r.text))
      else parsed_config config project_id
          (with_context (ascii "Failed to parse catalog config") (web.catalog_config_of r.text))

  unfoldable pub get_warehouse_prefix : LakehouseConfig → Io World CatalogConfigResult
  get_warehouse_prefix config = do
    project_id ← resolve_project_id web config
    client ← lift (web.build_client 10)
    url ← lift (web.catalog_config_url config)
    r ← with_context_io (ascii "Failed to get catalog config") (
        web.send client (record {
          method = get;
          url = url;
          headers = project_header web project_id;
          body = no_body;
        }))
    lift (catalog_config_response config project_id r)

  abbrev namespaces_url : LakehouseConfig → CatalogConfigResult → Text
  namespaces_url config catalog =
      trim_end_slashes config.catalog_endpoint
      ++ ascii "/catalog/v1/"
      ++ catalog.prefix
      ++ ascii "/namespaces"

  -- A resource of the catalog: a HEAD, and a POST unless it is there.
  abbrev ensure_resource :
      web.Client
      → CatalogConfigResult
      → (check_url create_url what : Text) → Result Body
      → Io World Bool
  ensure_resource client catalog check_url create_url what body = do
    found ← succeeds web (
        web.send client (record {
          method = head;
          url = check_url;
          headers = project_header web catalog.project_id;
          body = no_body;
        }))
    unless_present found (do
      body ← lift body
      r ← with_context_io (ascii "Failed to create " ++ what) (
          web.send client (record {
            method = post;
            url = create_url;
            headers = project_header web catalog.project_id;
            body = body;
          }))
      lift (created_response what r))

  unfoldable pub create_namespace : LakehouseConfig → Io World Bool
  create_namespace config = do
    catalog ← get_warehouse_prefix config
    client ← lift (web.build_client 10)
    ensure_resource client catalog (namespaces_url config catalog ++ ascii "/" ++ namespace_name)
        (namespaces_url config catalog) (ascii "namespace") (ok (new_namespace namespace_name))

  module _ (build : List NestedField → (identifiers : List ℕ) → Result (List NestedField)) where
    abbrev table_body : Result (List NestedField) → Result Body
    table_body (ok fields) = ok (new_table file_catalog_table fields)
    table_body (err e) = err e

    unfoldable pub create_file_catalog_table : LakehouseConfig → Io World Bool
    create_file_catalog_table config = do
      catalog ← get_warehouse_prefix config
      client ← lift (web.build_client 30)
      let tables = namespaces_url config catalog ++ ascii "/" ++ namespace_name ++ ascii "/tables"
      ensure_resource client catalog (tables ++ ascii "/" ++ file_catalog_table) tables
          (ascii "table") (table_body (build_file_catalog_schema build))

    -- The table as the catalog client loads it.
    unfoldable pub check_table_schema : LakehouseConfig → Io World (Unit {0})
    check_table_schema config = do
      catalog ← get_warehouse_prefix config
      table ← web.table_schema catalog
      lift (verify_table_schema build table)

    abbrev make_project : LakehouseConfig → Io World Text
    make_project config = do (id, created) ← ensure_project web config; pure id

    -- A known project is kept while the server confirms it.
    abbrev project_for : LakehouseConfig → Option Text → Io World Text
    project_for config none = make_project config
    project_for config (some id) = do
      exists ← verify_project_exists web config id
      if exists then pure id else make_project config

    abbrev or_loaded : Option Text → Option Text → Option Text
    or_loaded none loaded = loaded
    or_loaded (some id) loaded = some id

    -- A state file that cannot be saved is logged.
    abbrev save_quietly : Text → Io World (Unit {0})
    save_quietly id w = (ok tt, (web.save_project_id_to_state id w).1)

    unfoldable pub init : LakehouseConfig → Io World (Unit {0})
    init config = do
      lift (validate_s3_credentials config)
      with_context_io (ascii "RustFS not available. Run `docker compose up -d`")
          (check_rustfs web config)
      with_context_io (ascii "Lakekeeper not available. Run `docker compose up -d`")
          (check_catalog web config)
      bucket_created ← create_bucket config
      loaded ← with_context_io (ascii "state file load task failed") web.load_project_id_from_state
      id ← project_for config (or_loaded config.project_id loaded)
      save_quietly id
      let config' = record config { project_id = some id }
      warehouse_created ← ensure_warehouse config' id
      namespace_created ← create_namespace config'
      table_created ← create_file_catalog_table config'
      check_table_schema config'
