-- ===== src/Api/Context/Tenants.antt =====
-- What a tenant sees of the nodes through the middleware of mesh/api/auth.py.
use mathlib.Core.Path.{subst}
use cluster_mesh.Prelude.{
  ℕ, String, true, false, Option, none, some, List, [], ◌∷◌, ◌==◌, ◌≡◌, ◌≢◌, refl, sym, ap, ◌∙◌,
  map, select, eq_iff, Bool-cases, inl, inr,
}
use cluster_mesh.Prelude.Sort.{Has}
use cluster_mesh.Models.{Node}
use cluster_mesh.Driver.Cluster.{Cluster, live_nodes}
use cluster_mesh.Api.Auth.{AuthConfig, Request, response, dispatch}
use cluster_mesh.Api.Guard.{answer_verdict_iff}
use cluster_mesh.Api.Context.{
  NodePayload, tenant_of, item, of_tenant, nodes_payload, find, list_nodes, get_node,
}

-- Whatever a request gets through the middleware is what the route answers under its tenant.
dispatch-response {ℓ} :
    {R : Type ℓ} (config : AuthConfig) (call_next : Option String → Option R) (request : Request)
    (current : Option String) (r : R)
    → (dispatch config call_next request current).0 ≡ response r
    → call_next (request.header "X-Tenant-Id") ≡ some r
unfolding dispatch
dispatch-response config call_next request current r h =
    ((answer_verdict_iff call_next (request.header "X-Tenant-Id") current _ r).0 h).1

some_inj {ℓ} : {A : Type ℓ} {a b : A} → some a ≡ some b → a ≡ b
some_inj h = cc h

nonempty : {t : String} → t ≢ "" → (t == "") ≡ false
nonempty {t} n = elim (Bool-cases (t == "")) [ inl e ↦ absurd (n ((eq_iff t "").0 e)) | inr e ↦ e ]

differs : {a b : String} → (a == b) ≡ false → a ≢ b
differs {a} {b} e same = not_both (sym ((eq_iff a b).1 same) ∙ e)
  where
    not_both : true ≡ false → ⊥
    not_both h = cc h

module _ {H : Type 0} (parse : String → Option H) where
  select-map :
      (t : String) (remote_agents : List String) (nodes : List Node)
      → select (λ p. p.tenant == t) (map (item parse remote_agents) nodes)
        ≡ map (item parse remote_agents) (select (λ n. tenant_of n == t) nodes)
  unfolding select
  select-map t remote_agents [] = refl
  select-map t remote_agents (n ∷ nodes) = elim (Bool-cases (tenant_of n == t)) [
    | inl e ↦ rw e (ap (λ l. item parse remote_agents n ∷ l) (select-map t remote_agents nodes))
    | inr e ↦ rw e (select-map t remote_agents nodes)
  ]

  -- The payload of a tenant's nodes.
  abbrev pub of_nodes : String → List Node → Cluster → List (NodePayload H)
  of_nodes t nodes env =
      map (item parse env.world.remote_agents) (select (λ n. tenant_of n == t) nodes)

  nodes_payload-tenant :
      (now : ℕ) (t : String) (current : Option String) (env : Cluster)
      → t ≢ ""
      → (nodes_payload parse now (some t) current env).0
        ≡ of_nodes t (live_nodes now env).0 (live_nodes now env).1
  unfolding nodes_payload of_tenant
  nodes_payload-tenant now t current env n =
      rw (nonempty n, nonempty n)
        (select-map t (live_nodes now env).1.world.remote_agents (live_nodes now env).0)

  nodes_payload-current :
      (now : ℕ) (t : String) (env : Cluster)
      → t ≢ ""
      → (nodes_payload parse now none (some t) env).0
        ≡ of_nodes t (live_nodes now env).0 (live_nodes now env).1
  unfolding nodes_payload of_tenant
  nodes_payload-current now t env n =
      rw (nonempty n)
        (select-map t (live_nodes now env).1.world.remote_agents (live_nodes now env).0)

  -- A request with a tenant that gets an answer from GET /api/v1/nodes gets exactly the live nodes whose
  -- tag, or else location, is that tenant, in their order, whoever was the tenant before.
  list_nodes_tenant :
      (config : AuthConfig) (now : ℕ) (request : Request) (current : Option String) (env : Cluster)
      (t : String) (payload : List (NodePayload H))
      → request.header "X-Tenant-Id" ≡ some t
      → t ≢ ""
      → (dispatch config
          (λ tenant. some (list_nodes parse now request tenant env).0)
          request
          current).0
        ≡ response payload
      → payload ≡ of_nodes t (live_nodes now env).0 (live_nodes now env).1
  unfolding list_nodes
  list_nodes_tenant config now request current env t payload header n h =
      let answer = some_inj (dispatch-response config _ request current payload h) in
      sym answer
      ∙ ap (λ o. (nodes_payload parse now o o env).0) header
      ∙ nodes_payload-tenant now t (some t) env n

  -- The node that GET /api/v1/nodes/{node_id} should answer a tenant.
  abbrev pub Shows : String → String → List Node → Cluster → Option (NodePayload H) → Type 0
  Shows t node_id nodes env (some p) =
      (n : Node) × Has n nodes
      × (p ≡ item parse env.world.remote_agents n)
      × (tenant_of n ≡ t)
      × (n.node_id ≡ node_id)
  Shows t node_id nodes env none = (n : Node) → Has n nodes → tenant_of n ≡ t → n.node_id ≢ node_id

  Shows-cons :
      (t node_id : String) (n : Node) (nodes : List Node) (env : Cluster)
      (o : Option (NodePayload H))
      → (tenant_of n ≡ t → n.node_id ≢ node_id)
      → Shows t node_id nodes env o
      → Shows t node_id (n ∷ nodes) env o
  Shows-cons t node_id n nodes env none other s = λ m has. elim has [
    | inl e ↦ λ owns same. other (ap tenant_of e ∙ owns) (ap (λ x. x.node_id) e ∙ same)
    | inr h ↦ s m h
  ]
  Shows-cons t node_id n nodes env (some p) other (m, has, shown, owned, named) =
      (m, inr has, shown, owned, named)

  find-Shows :
      (t node_id : String) (nodes : List Node) (env : Cluster)
      → Shows t node_id nodes env (find parse node_id (of_nodes t nodes env))
  unfolding find select
  find-Shows t node_id [] env = λ n h. elim h [ ]
  find-Shows t node_id (n ∷ nodes) env = elim (Bool-cases (tenant_of n == t)) [
    | inl e ↦ rw e (elim (Bool-cases (n.node_id == node_id)) [
      | inl found ↦
          rw found
            (n, inl refl, refl, (eq_iff (tenant_of n) t).0 e, (eq_iff n.node_id node_id).0 found)
      | inr other ↦ rw other (
          Shows-cons t node_id n nodes env _ (λ owns. differs other)
            (find-Shows t node_id nodes env))
    ])
    | inr e ↦ rw e (
        Shows-cons t node_id n nodes env _ (λ owns. absurd (differs e owns))
          (find-Shows t node_id nodes env))
  ]

  -- GET /api/v1/nodes/{node_id} answers a request with a tenant by a live node of that tenant with
  -- that id, or by "not found" where the tenant has none.
  pub get_node_tenant :
      (config : AuthConfig) (now : ℕ) (node_id : String) (request : Request)
      (current : Option String) (env : Cluster) (t : String) (answer : Option (NodePayload H))
      → request.header "X-Tenant-Id" ≡ some t
      → t ≢ ""
      → (dispatch config
          (λ tenant. some (get_node parse now node_id tenant env).0)
          request
          current).0
        ≡ response answer
      → Shows t node_id (live_nodes now env).0 (live_nodes now env).1 answer
  unfolding get_node
  get_node_tenant config now node_id request current env t answer header n h =
      let nodes = (live_nodes now env).0 in
      let env' = (live_nodes now env).1 in
      let given = some_inj (dispatch-response config _ request current answer h) in
      let shown =
        ap (λ o. find parse node_id (nodes_payload parse now none o env).0) header
        ∙ ap (find parse node_id) (nodes_payload-current now t env n) in
      subst (Shows t node_id nodes env') (sym shown ∙ given) (find-Shows t node_id nodes env')
