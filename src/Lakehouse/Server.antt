-- ===== src/Lakehouse/Server.antt =====
-- src/lakehouse/mod.rs: the project, and whether the servers answer.
use anti_entropator.Prelude.Io.{Io, pure, fail, lift, with_context_io, ◌>>=◌}
use anti_entropator.Prelude.{
  Bool, true, false, Option, none, some, List, [], ◌∷◌, ◌++◌, message, Result, ok, err,
  with_context, ◌==◌, if◌then◌else◌, Text, ascii, decimal,
}
use anti_entropator.Lakehouse.Http.{
  get, post, no_body, new_project, Response, is_success, is_created, trim_end_slashes, project_name,
  rustfs_status_is_reachable, Web,
}
use anti_entropator.Config.{LakehouseConfig}

module _ {World : Type 0} (web : Web World) where
  abbrev pub project_header : Text → List (Text × Text)
  project_header id = (ascii "X-Project-Id", id) ∷ []

  -- A request whose failure counts as "not there".
  abbrev pub succeeds : Io World Response → Io World Bool
  succeeds m w = (ok (elim (m w).0 [ ok r ↦ is_success r.status | err e ↦ false ]), (m w).1)

  abbrev pub config_or_state : Option Text → Io World (Option Text)
  config_or_state (some id) = pure (some id)
  config_or_state none =
      with_context_io (ascii "state file load task failed") web.load_project_id_from_state

  abbrev pub found_project : Option Text → Result Text
  found_project (some id) = ok id
  found_project none = err (
      message (
        ascii "No Lakekeeper project ID found. Run `anti_entropator init` first, or set "
        ++ ascii "ANTI_ENTROPATOR_PROJECT_ID in your environment."))

  unfoldable pub resolve_project_id : LakehouseConfig → Io World Text
  resolve_project_id config = do id ← config_or_state config.project_id; lift (found_project id)

  unfoldable pub verify_project_exists : LakehouseConfig → Text → Io World Bool
  verify_project_exists config id = elim (web.build_client 5) [
    | err e ↦ pure false
    | ok client ↦ succeeds (
        web.send client (record {
          method = get;
          url = trim_end_slashes config.catalog_endpoint ++ ascii "/management/v1/project";
          headers = project_header id;
          body = no_body;
        }))
  ]

  abbrev conflict_id : Response → Option Text → Result (Text × Bool)
  conflict_id r (some id) = ok (id, false)
  conflict_id r none = err (
      message
        (ascii "Project already exists but could not extract project-id from response: " ++ r.text))

  abbrev parsed_project : Result Text → Result (Text × Bool)
  parsed_project (ok id) = ok (id, true)
  parsed_project (err e) = err e

  abbrev project_response : Response → Result (Text × Bool)
  project_response r =
      if is_created r.status
      then parsed_project
          (with_context (ascii "Failed to parse project response") (web.project_of r.text))
      else if r.status == 409
      then conflict_id r (web.conflict_project_of r.text)
      else err (
          message (ascii "Failed to create project: " ++ decimal r.status ++ ascii " - " ++ r.text))

  unfoldable pub ensure_project : LakehouseConfig → Io World (Text × Bool)
  ensure_project config = do
    client ← lift (web.build_client 10)
    r ← with_context_io (ascii "Failed to create project") (
        web.send client (record {
          method = post;
          url = trim_end_slashes config.catalog_endpoint ++ ascii "/management/v1/project";
          headers = [];
          body = new_project project_name;
        }))
    lift (project_response r)

  unfoldable pub check_rustfs : LakehouseConfig → Io World (Unit {0})
  check_rustfs config = do
    client ← lift (web.build_client 5)
    r ← with_context_io (ascii "Cannot connect to RustFS") (
        web.send client
          (record { method = get; url = config.s3_endpoint; headers = []; body = no_body }))
    if rustfs_status_is_reachable r.status
        then pure tt
        else fail (message (ascii "RustFS returned unexpected status: " ++ decimal r.status))

  unfoldable pub check_catalog : LakehouseConfig → Io World (Unit {0})
  check_catalog config = do
    client ← lift (web.build_client 5)
    r ← with_context_io (ascii "Cannot connect to Lakekeeper") (
        web.send client (record {
          method = get;
          url = trim_end_slashes config.catalog_endpoint ++ ascii "/swagger-ui/";
          headers = [];
          body = no_body;
        }))
    if is_success r.status
        then pure tt
        else fail (message (ascii "Lakekeeper returned unexpected status: " ++ decimal r.status))
