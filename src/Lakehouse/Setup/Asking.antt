-- ===== src/Lakehouse/Setup/Asking.antt =====
-- What asking the catalog server for its configuration leaves alone.
use anti_entropator.Prelude.Io.{Io, lift, with_context_io, bind_cases, ◌>>=◌}
use anti_entropator.Prelude.{◌≡◌, refl, ◌∙◌, Option, none, some, List, Text, ascii}
use anti_entropator.Lakehouse.Setup.{catalog_config_response, get_warehouse_prefix}
use anti_entropator.Lakehouse.Http.{get, no_body, CatalogConfigResult, Web}
use anti_entropator.Lakehouse.Server.{
  project_header, config_or_state, found_project, resolve_project_id,
}
use anti_entropator.Config.{LakehouseConfig}

-- GET requests, and reading the project from the state file, change nothing that `view` shows.
pub record IsReadSafe {World V : Type 0} (view : World → V) (web : Web World) : Type 0 where
  pub reads_keep :
      (client : web.Client) (url : Text) (headers : List (Text × Text)) (w : World)
      → view
          (web.send client
            (record { method = get; url = url; headers = headers; body = no_body })
            w).1
        ≡ view w
  pub state_keeps : (w : World) → view (web.load_project_id_from_state w).1 ≡ view w

module _ {World V : Type 0} (view : World → V) (web : Web World) (keeps : IsReadSafe view web)
    (config : LakehouseConfig) where
  state_or_config_keeps : (o : Option Text) (w : World) → view (config_or_state web o w).1 ≡ view w
  state_or_config_keeps none w = keeps.state_keeps w
  state_or_config_keeps (some id) w = refl

  resolve_keeps : (w : World) → view (resolve_project_id web config w).1 ≡ view w
  unfolding resolve_project_id
  resolve_keeps w =
      bind_cases (λ r v. view v ≡ view w) (λ id. lift (found_project web id))
        (config_or_state web config.project_id) w (λ e h. state_or_config_keeps config.project_id w)
        (λ id h. state_or_config_keeps config.project_id w)

  asked_keeps :
      (client : web.Client) (url id : Text) (w : World)
      → let m : Io World CatalogConfigResult = (do
        r ← with_context_io (ascii "Failed to get catalog config") (
            web.send client
              (record { method = get; url = url; headers = project_header web id; body = no_body }))
        lift (catalog_config_response web config id r)) in
        view (m w).1 ≡ view w
  asked_keeps client url id w =
      bind_cases (λ r u. view u ≡ view w) (λ r. lift (catalog_config_response web config id r))
        (with_context_io (ascii "Failed to get catalog config") (
          web.send client
            (record { method = get; url = url; headers = project_header web id; body = no_body })))
        w (λ e h. keeps.reads_keep client url (project_header web id) w)
        (λ r h. keeps.reads_keep client url (project_header web id) w)

  -- Asking for the prefix of the warehouse changes nothing that reading leaves alone.
  pub prefix_keeps : (w : World) → view (get_warehouse_prefix web config w).1 ≡ view w
  unfolding get_warehouse_prefix
  prefix_keeps w =
      let v : World = (resolve_project_id web config w).1 in
      bind_cases (λ r u. view u ≡ view w) _ (resolve_project_id web config) w
        (λ e h. resolve_keeps w)
        (λ id h.
          bind_cases (λ r u. view u ≡ view w) _ (lift (web.build_client 10)) v
            (λ e g. resolve_keeps w)
            (λ client g.
              bind_cases (λ r u. view u ≡ view w) _ (lift (web.catalog_config_url config)) v
                (λ e f. resolve_keeps w) (λ url f. asked_keeps client url id v ∙ resolve_keeps w)))
