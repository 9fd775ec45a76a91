-- ===== src/Lakehouse/Http.antt =====
-- src/lakehouse/mod.rs: the requests to the object store and to the catalog server. The HTTP client, its
-- server, the state file, JSON and URLs are parameters; progress output is not modelled.
use anti_entropator.Prelude.Io.{Io}
use anti_entropator.Prelude.Chars.{trim}
use anti_entropator.Prelude.{
  ℕ, Bool, true, false, ◌&&◌, ◌||◌, Option, List, [], ◌∷◌, ◌++◌, is_empty, TextMap, message, Result,
  ok, err, ltb, leb, ◌==◌, if◌then◌else◌, Bytes, Text, ascii, decimal,
}
use anti_entropator.Config.{LakehouseConfig}
use anti_entropator.Lakehouse.Schema.{NestedField}

pub data Method : Type 0 where
  head get post put : Method

pub record StorageProfile : Type 0 where
  pub profile_type : Text
  pub bucket : Text
  pub region : Text
  pub endpoint : Text
  pub path_style_access : Bool
  pub key_prefix : Text
  pub sts_enabled : Bool

pub record StorageCredential : Type 0 where
  pub cred_type : Text
  pub credential_type : Text
  pub aws_access_key_id : Text
  pub aws_secret_access_key : Text

pub record CreateWarehouseRequest : Type 0 where
  pub warehouse_name : Text
  pub storage_profile : StorageProfile
  pub storage_credential : StorageCredential

-- What is sent as JSON.
pub data Body : Type 0 where
  no_body : Body
  new_project new_namespace : (name : Text) → Body
  new_warehouse : CreateWarehouseRequest → Body
  new_table : (name : Text) → List NestedField → Body

pub record Request : Type 0 where
  pub method : Method
  pub url : Text
  pub headers : List (Text × Text)
  pub body : Body

pub record Response : Type 0 where
  pub status : ℕ
  pub text : Text

-- `StatusCode::is_success`
unfoldable pub is_success : ℕ → Bool
is_success status = leb 200 status && ltb status 300

abbrev pub is_created : ℕ → Bool
is_created status = status == 200 || status == 201

-- `s.trim_end_matches('/')`
abbrev cons_kept : ℕ → Text → Text
cons_kept c [] = if c == b'/' then [] else c ∷ []
cons_kept c (d ∷ s) = c ∷ d ∷ s

unfoldable pub trim_end_slashes : Text → Text
trim_end_slashes [] = []
trim_end_slashes (c ∷ s) = cons_kept c (trim_end_slashes s)

abbrev pub namespace_name : Text
namespace_name = ascii "anti_entropator"

abbrev pub file_catalog_table : Text
file_catalog_table = ascii "file_catalog"

abbrev pub project_name : Text
project_name = ascii "anti-entropator"

unfoldable pub rustfs_status_is_reachable : ℕ → Bool
rustfs_status_is_reachable status = is_success status || status == 403

unfoldable pub validate_s3_credentials : LakehouseConfig → Result (Unit {0})
validate_s3_credentials config =
    if is_empty (trim config.s3_access_key) || is_empty (trim config.s3_secret_key)
    then err (
        message (
          ascii "Missing S3 credentials: RUSTFS_ACCESS_KEY and RUSTFS_SECRET_KEY are not set in "
          ++ ascii "the environment. The CLI does not read .env itself; export it first: "
          ++ ascii "`set -a; source .env; set +a` (the Makefile targets do this)"))
    else ok tt

unfoldable pub build_create_warehouse_request : LakehouseConfig → CreateWarehouseRequest
build_create_warehouse_request config = record {
  warehouse_name = config.warehouse;
  storage_profile = record {
    profile_type = ascii "s3";
    bucket = config.bucket;
    region = config.s3_region;
    endpoint = config.s3_endpoint_internal;
    path_style_access = true;
    key_prefix = ascii "warehouse";
    sts_enabled = false;
  };
  storage_credential = record {
    cred_type = ascii "s3";
    credential_type = ascii "access-key";
    aws_access_key_id = config.s3_access_key;
    aws_secret_access_key = config.s3_secret_key;
  };
}

pub record CatalogConfigResult : Type 0 where
  pub prefix : Text
  pub uri : Text
  pub project_id : Text

unfoldable pub build_rest_catalog_props : LakehouseConfig → CatalogConfigResult → TextMap Text
build_rest_catalog_props config catalog =
    (ascii "uri", catalog.uri)
    ∷ (ascii "prefix", catalog.prefix)
    ∷ (ascii "warehouse", config.warehouse)
    ∷ (ascii "header.X-Project-Id", catalog.project_id)
    ∷ (ascii "s3.endpoint", config.s3_endpoint)
    ∷ (ascii "s3.access-key-id", config.s3_access_key)
    ∷ (ascii "s3.secret-access-key", config.s3_secret_key)
    ∷ (ascii "s3.region", config.s3_region)
    ∷ (ascii "s3.path-style-access", ascii "true")
    ∷ (ascii "s3.allow-http", ascii "true")
    ∷ (ascii "s3.remote-signing-enabled", ascii "false")
    ∷ []

-- The answer to a request that creates `what`: created, there already, or an error.
unfoldable pub created_response : (what : Text) → Response → Result Bool
created_response what r =
    if is_created r.status
    then ok true
    else if r.status == 409
    then ok false
    else err (
        message (
          ascii "Failed to create "
          ++ what
          ++ ascii ": "
          ++ decimal r.status
          ++ ascii " - "
          ++ r.text))

-- `reqwest`, `url`, JSON and the state file, as the program uses them.
pub record Web (World : Type 0) : Type 1 where
  pub Client : Type 0
  pub build_client : (timeout_seconds : ℕ) → Result Client
  pub send : Client → Request → Io World Response
  -- the date and the time of a signature, in the two formats that it uses
  pub sign_time : World → (Text × Text) × World
  pub sha256 : Bytes → Bytes
  pub hmac_sha256 : (key input : Bytes) → Result Bytes
  pub project_of : (body : Text) → Result Text
  pub conflict_project_of : (body : Text) → Option Text
  pub warehouses_of : (body : Text) → Result (List Text)
  pub catalog_config_of : (body : Text) → Result (TextMap Text × TextMap Text)
  pub catalog_config_url : LakehouseConfig → Result Text
  pub table_schema : CatalogConfigResult → Io World (List NestedField)
  pub save_project_id_to_state : Text → Io World (Unit {0})
  pub load_project_id_from_state : Io World (Option Text)
