-- ===== src/Lakehouse/Setup/Ensured.antt =====
-- Creating the namespace, and the abstract step of a resource that is to be there.
use anti_entropator.Prelude.Io.{Io, lift, with_context_io, bind_cases, ◌>>=◌}
use anti_entropator.Prelude.{
  ◌≡◌, refl, sym, ◌∙◌, inl, inr, Bool, true, false, not, ◌++◌, Error, Result, ok, err, with_context,
  ◌==◌, Bool-cases, Text, ascii,
}
use anti_entropator.Lakehouse.Setup.{
  unless_present, get_warehouse_prefix, namespaces_url, create_namespace,
}
use anti_entropator.Lakehouse.Setup.Asking.{IsReadSafe, prefix_keeps}
use anti_entropator.Lakehouse.Http.{
  head, post, no_body, new_namespace, Request, Response, is_success, is_created, namespace_name,
  CatalogConfigResult, created_response, Web,
}
use anti_entropator.Lakehouse.Server.{project_header, succeeds}
use anti_entropator.Config.{LakehouseConfig}

-- The abstract step on whether the resource is present: was it created, and is it present now?
abbrev pub ensure : Bool → Bool × Bool
ensure present = (not present, true)

-- A server that keeps a resource for each prefix and project: reading changes nothing, a HEAD succeeds
-- only where the resource is present, a POST answers 200 or 201 only where it creates the resource, and
-- 409 only where it is present, and removes nothing.
pub record IsKeeper {World : Type 0} (web : Web World)
    (present : CatalogConfigResult → World → Bool)
    (check create : web.Client → CatalogConfigResult → Request) : Type 0 where
  pub reads_safe : (catalog : CatalogConfigResult) → IsReadSafe (present catalog) web
  pub check_keeps :
      (client : web.Client) (catalog : CatalogConfigResult) (w : World)
      → present catalog (web.send client (check client catalog) w).1 ≡ present catalog w
  pub check_tells :
      (client : web.Client) (catalog : CatalogConfigResult) (w : World) {r : Response}
      → (web.send client (check client catalog) w).0 ≡ ok r
      → is_success r.status ≡ true
      → present catalog w ≡ true
  pub creates :
      (client : web.Client) (catalog : CatalogConfigResult) (w : World) {r : Response}
      → (web.send client (create client catalog) w).0 ≡ ok r
      → is_created r.status ≡ true
      → (present catalog w ≡ false)
        × (present catalog (web.send client (create client catalog) w).1 ≡ true)
  pub conflicts :
      (client : web.Client) (catalog : CatalogConfigResult) (w : World) {r : Response}
      → (web.send client (create client catalog) w).0 ≡ ok r
      → (r.status == 409) ≡ true
      → (present catalog w ≡ true)
        × (present catalog (web.send client (create client catalog) w).1 ≡ true)
  pub never_removes :
      (client : web.Client) (catalog : CatalogConfigResult) (w : World)
      → present catalog w ≡ true
      → present catalog (web.send client (create client catalog) w).1 ≡ true

module _ {World : Type 0} (web : Web World) (config : LakehouseConfig) where
  abbrev pub namespace_check : web.Client → CatalogConfigResult → Request
  namespace_check client catalog = record {
    method = head;
    url = namespaces_url web config catalog ++ ascii "/" ++ namespace_name;
    headers = project_header web catalog.project_id;
    body = no_body;
  }

  abbrev pub namespace_create : web.Client → CatalogConfigResult → Request
  namespace_create client catalog = record {
    method = post;
    url = namespaces_url web config catalog;
    headers = project_header web catalog.project_id;
    body = new_namespace namespace_name;
  }

  module _ (present : CatalogConfigResult → World → Bool)
      (server : IsKeeper web present namespace_check namespace_create) where
    -- A result is that of the abstract step; after an error, what was present catalog still is.
    abbrev pub Refines : CatalogConfigResult → Bool → Result Bool → World → Type 0
    Refines catalog before (ok created) w = (created, present catalog w) ≡ ensure before
    Refines catalog before (err e) w = before ≡ true → present catalog w ≡ true

    refined_error :
        (catalog : CatalogConfigResult) (before : Bool) (e : Error) (w : World)
        → present catalog w ≡ before
        → Refines catalog before (err e) w
    refined_error catalog before e w same h = same ∙ h

    posted-Refines :
        (client : web.Client) (catalog : CatalogConfigResult) (w : World) (r : Response)
        → (web.send client (namespace_create client catalog) w).0 ≡ ok r
        → Refines catalog
            (present catalog w)
            (created_response (ascii "namespace") r)
            (web.send client (namespace_create client catalog) w).1
    unfolding created_response
    posted-Refines client catalog w r e = elim (Bool-cases (is_created r.status)) [
      | inl c ↦
          let (absent, there) = server.creates client catalog w e c in rw (c, absent, there) refl
      | inr c ↦ elim (Bool-cases (r.status == 409)) [
        | inl f ↦
            let (was, there) = server.conflicts client catalog w e f in rw (c, f, was, there) refl
        | inr f ↦ rw (c, f) (server.never_removes client catalog w)
      ]
    ]

    with_context_ok :
        {A : Type 0} (c : Text) (r : Result A) {a : A} → with_context c r ≡ ok a → r ≡ ok a
    with_context_ok c (ok b) h = cc
    with_context_ok c (err e) h = cc

    abbrev post_io : web.Client → CatalogConfigResult → Io World Bool
    post_io client catalog = do
      body ← lift (ok (new_namespace namespace_name))
      r ← with_context_io (ascii "Failed to create " ++ ascii "namespace") (
          web.send client (record {
            method = post;
            url = namespaces_url web config catalog;
            headers = project_header web catalog.project_id;
            body = body;
          }))
      lift (created_response (ascii "namespace") r)

    post_io-Refines :
        (client : web.Client) (catalog : CatalogConfigResult) (w : World)
        → Refines catalog
            (present catalog w)
            (post_io client catalog w).0
            (post_io client catalog w).1
    post_io-Refines client catalog w =
        bind_cases (Refines catalog (present catalog w))
          (λ r. lift (created_response (ascii "namespace") r))
          (with_context_io (ascii "Failed to create " ++ ascii "namespace")
            (web.send client (namespace_create client catalog)))
          w (λ e h. server.never_removes client catalog w)
          (λ r h. posted-Refines client catalog w r (with_context_ok _ _ h))

    found-Refines :
        (client : web.Client) (catalog : CatalogConfigResult) (w : World) (found : Bool)
        → (found ≡ true → present catalog w ≡ true)
        → Refines catalog
            (present catalog w)
            (unless_present web found (post_io client catalog) w).0
            (unless_present web found (post_io client catalog) w).1
    found-Refines client catalog w false h = post_io-Refines client catalog w
    found-Refines client catalog w true h = rw (h refl) refl

    head_found :
        (client : web.Client) (catalog : CatalogConfigResult) (w : World) (o : Result Response)
        → (web.send client (namespace_check client catalog) w).0 ≡ o
        → elim o [ ok r ↦ is_success r.status | err e ↦ false ] ≡ true
        → present catalog w ≡ true
    head_found client catalog w (ok r) e h = server.check_tells client catalog w e h
    head_found client catalog w (err x) e h = cc

    resource-Refines :
        (client : web.Client) (catalog : CatalogConfigResult) (w : World)
        → let m : Io World Bool =
            succeeds web (web.send client (namespace_check client catalog)) >>= λ found.
            unless_present web found (post_io client catalog) in
          Refines catalog (present catalog w) (m w).0 (m w).1
    resource-Refines client catalog w =
        let v : World = (web.send client (namespace_check client catalog) w).1 in
        let same : present catalog v ≡ present catalog w = server.check_keeps client catalog w in
        rw (sym same) (
          found-Refines client catalog v
            (elim (web.send client (namespace_check client catalog) w).0 [
              | ok r ↦ is_success r.status
              | err e ↦ false
            ])
            (λ h. same ∙ head_found client catalog w _ refl h))

    -- With a server that keeps its documented law for the namespace in the warehouse of each prefix and
    -- project, where the warehouse's prefix is found: if `create_namespace` returns, it has answered as
    -- the abstract step does for the namespace below that prefix, true exactly if the namespace was not
    -- there, and the namespace is there; if it fails, a namespace that was there still is.
    pub create_namespace-Refines :
        (w : World) (catalog : CatalogConfigResult)
        → (get_warehouse_prefix web config w).0 ≡ ok catalog
        → Refines catalog
            (present catalog w)
            (create_namespace web config w).0
            (create_namespace web config w).1
    unfolding create_namespace
    create_namespace-Refines w catalog at =
        let asked : World = (get_warehouse_prefix web config w).1 in
        let same : present catalog asked ≡ present catalog w =
          prefix_keeps (present catalog) web (server.reads_safe catalog) config w in
        bind_cases (Refines catalog (present catalog w)) _ (get_warehouse_prefix web config) w
          (λ e h. refined_error catalog (present catalog w) e _ same)
          (λ found h.
            let it : found ≡ catalog = cc in
            rw it (
              bind_cases (Refines catalog (present catalog w)) _ (lift (web.build_client 10)) asked
                (λ e g. refined_error catalog (present catalog w) e _ same)
                (λ client g. rw (sym same) (resource-Refines client catalog asked))))
