-- ===== src/Config.antt =====
-- src/config/mod.rs: the configuration, from the environment.
use anti_entropator.Prelude.{◌≡◌, refl, Option, none, some, [], Text, ascii}

pub record LakehouseConfig : Type 0 where
  pub s3_endpoint : Text
  pub s3_endpoint_internal : Text
  pub s3_access_key : Text
  pub s3_secret_key : Text
  pub s3_region : Text
  pub bucket : Text
  pub catalog_endpoint : Text
  pub warehouse : Text
  pub project_id : Option Text

abbrev or_else : Option Text → Option Text → Option Text
or_else none b = b
or_else (some a) b = some a

abbrev or_value : Option Text → Text → Text
or_value none b = b
or_value (some a) b = a

-- `std::env::var(name).ok()`: no value also where it is not Unicode.
module _ (var : (name : Text) → Option Text) where
  unfoldable pub default_s3_endpoint : Text
  default_s3_endpoint =
      or_value (var (ascii "ANTI_ENTROPATOR_S3_ENDPOINT")) (ascii "http://localhost:8200")

  unfoldable pub default_s3_endpoint_internal : Text
  default_s3_endpoint_internal =
      or_value (var (ascii "ANTI_ENTROPATOR_S3_ENDPOINT_INTERNAL")) (ascii "http://rustfs:9000")

  unfoldable pub default_s3_access_key : Text
  default_s3_access_key =
      or_value (or_else (var (ascii "RUSTFS_ACCESS_KEY")) (var (ascii "AWS_ACCESS_KEY_ID"))) []

  unfoldable pub default_s3_secret_key : Text
  default_s3_secret_key =
      or_value (or_else (var (ascii "RUSTFS_SECRET_KEY")) (var (ascii "AWS_SECRET_ACCESS_KEY"))) []

  unfoldable pub default_s3_region : Text
  default_s3_region =
      or_value (or_else (var (ascii "ANTI_ENTROPATOR_S3_REGION")) (var (ascii "AWS_REGION")))
        (ascii "eu-central-1")

  unfoldable pub default_bucket : Text
  default_bucket = or_value (var (ascii "ANTI_ENTROPATOR_BUCKET")) (ascii "anti-entropator")

  unfoldable pub default_catalog_endpoint : Text
  default_catalog_endpoint =
      or_value (var (ascii "ANTI_ENTROPATOR_CATALOG_ENDPOINT")) (ascii "http://localhost:8100")

  unfoldable pub default_warehouse : Text
  default_warehouse = or_value (var (ascii "ANTI_ENTROPATOR_WAREHOUSE")) (ascii "anti-entropator")

  -- `LakehouseConfig::default`
  unfoldable pub default_config : LakehouseConfig
  default_config = record {
    s3_endpoint = default_s3_endpoint;
    s3_endpoint_internal = default_s3_endpoint_internal;
    s3_access_key = default_s3_access_key;
    s3_secret_key = default_s3_secret_key;
    s3_region = default_s3_region;
    bucket = default_bucket;
    catalog_endpoint = default_catalog_endpoint;
    warehouse = default_warehouse;
    project_id = var (ascii "ANTI_ENTROPATOR_PROJECT_ID");
  }

clean_environment : default_s3_endpoint (λ name. none) ≡ ascii "http://localhost:8200"
unfolding default_s3_endpoint
clean_environment = refl
