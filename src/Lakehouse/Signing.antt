-- ===== src/Lakehouse/Signing.antt =====
-- src/lakehouse/mod.rs: requests to S3 with an AWS signature (version 4) and an empty body.
use anti_entropator.Prelude.Io.{Io, pure, lift, ◌>>=◌}
use anti_entropator.Prelude.{
  ℕ, zero, suc, ◌-◌, ◌≡◌, refl, [], ◌∷◌, ◌++◌, length, ok, starts_with, if◌then◌else◌, Text, ascii,
}
use anti_entropator.Lakehouse.Http.{
  Method, head, get, post, put, no_body, Response, trim_end_slashes, Web,
}
use anti_entropator.Config.{LakehouseConfig}
use anti_entropator.Domain.ContentHash.{to_lower_hex}

unfoldable pub s3_credential_scope : (date_stamp region service : Text) → Text
s3_credential_scope date_stamp region service =
    date_stamp ++ ascii "/" ++ region ++ ascii "/" ++ service ++ ascii "/aws4_request"

-- `s.trim_start_matches(prefix)`: the first argument counts the characters still to drop.
abbrev trim_prefix : (prefix : Text) → ℕ → Text → Text
trim_prefix prefix skip [] = []
trim_prefix prefix (suc skip) (c ∷ s) = trim_prefix prefix skip s
trim_prefix prefix zero (c ∷ s) =
    let rest = trim_prefix prefix (length prefix - 1) s in
    if starts_with (c ∷ s) prefix then rest else c ∷ s

unfoldable pub s3_host_from_endpoint : Text → Text
s3_host_from_endpoint endpoint =
    trim_end_slashes (trim_prefix (ascii "https://") 0 (trim_prefix (ascii "http://") 0 endpoint))

abbrev method_name : Method → Text
method_name head = ascii "HEAD"
method_name get = ascii "GET"
method_name post = ascii "POST"
method_name put = ascii "PUT"

abbrev signed_headers : Text
signed_headers = ascii "host;x-amz-content-sha256;x-amz-date"

abbrev newline : Text
newline = 10 ∷ []

module _ {World : Type 0} (web : Web World) where
  abbrev empty_hash : Text
  empty_hash = to_lower_hex (web.sha256 [])

  unfoldable pub canonical_request : Method → (canonical_uri host amz_date : Text) → Text
  canonical_request method canonical_uri host amz_date =
      method_name method
      ++ newline
      ++ canonical_uri
      ++ newline
      ++ newline
      ++ ascii "host:"
      ++ host
      ++ newline
      ++ ascii "x-amz-content-sha256:"
      ++ empty_hash
      ++ newline
      ++ ascii "x-amz-date:"
      ++ amz_date
      ++ newline
      ++ newline
      ++ signed_headers
      ++ newline
      ++ empty_hash

  unfoldable pub string_to_sign : (amz_date scope request : Text) → Text
  string_to_sign amz_date scope request =
      ascii "AWS4-HMAC-SHA256"
      ++ newline
      ++ amz_date
      ++ newline
      ++ scope
      ++ newline
      ++ to_lower_hex (web.sha256 request)

  -- The chain of keys, and the signature.
  unfoldable pub signature : LakehouseConfig → (date_stamp to_sign : Text) → Io World Text
  signature config date_stamp to_sign = do
    date_key ← lift (web.hmac_sha256 (ascii "AWS4" ++ config.s3_secret_key) date_stamp)
    region_key ← lift (web.hmac_sha256 date_key config.s3_region)
    service_key ← lift (web.hmac_sha256 region_key (ascii "s3"))
    signing_key ← lift (web.hmac_sha256 service_key (ascii "aws4_request"))
    code ← lift (web.hmac_sha256 signing_key to_sign)
    pure (to_lower_hex code)

  unfoldable pub send_signed_s3 :
      web.Client → Method → (url host canonical_uri : Text) → LakehouseConfig → Io World Response
  send_signed_s3 client method url host canonical_uri config = do
    (date_stamp, amz_date) ← λ w. (ok (web.sign_time w).0, (web.sign_time w).1)
    let scope = s3_credential_scope date_stamp config.s3_region (ascii "s3")
    code ←
        signature config date_stamp
          (string_to_sign amz_date scope (canonical_request method canonical_uri host amz_date))
    web.send client (record {
      method = method;
      url = url;
      headers =
          (ascii "Host", host)
          ∷ (ascii "x-amz-date", amz_date)
          ∷ (ascii "x-amz-content-sha256", empty_hash)
          ∷ (
            ascii "Authorization",
            ascii "AWS4-HMAC-SHA256 Credential="
                ++ config.s3_access_key
                ++ ascii "/"
                ++ scope
                ++ ascii ", SignedHeaders="
                ++ signed_headers
                ++ ascii ", Signature="
                ++ code,
          )
          ∷ [];
      body = no_body;
    })

host_example :
    (s3_host_from_endpoint (ascii "http://localhost:8200/") ≡ ascii "localhost:8200")
    × (s3_host_from_endpoint (ascii "https://s3.example.org") ≡ ascii "s3.example.org")
unfolding s3_host_from_endpoint trim_end_slashes starts_with
host_example = (refl, refl)
