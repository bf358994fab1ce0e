-- ===== src/Api/Context.antt =====
-- The nodes and sites that `AppContext` of mesh/api/context.py shows, and the routes of mesh/api/app.py
-- for nodes. The entries of a node's payload that are read off the node and its parsed host metrics
-- are stood for by these two; `parse` is `_parse_host_metrics`. The context variable of the tenant is
-- an argument, `current`.
pub mod Tenants
pub mod Sites
use cluster_mesh.Prelude.{
  ℕ, ◌+◌, String, Bool, true, false, Option, none, some, List, [], ◌∷◌, ◌==◌, map, select,
  if◌then◌else◌,
}
use cluster_mesh.Prelude.Dict.{Dict, get, get_or, put, values, member}
use cluster_mesh.Models.{Node, healthy, same_state}
use cluster_mesh.Driver.Cluster.{Cluster, live_nodes}
use cluster_mesh.Api.Auth.{Request}

pub record NodePayload {ℓ} (H : Type ℓ) : Type ℓ where
  pub node : Node
  pub is_remote : Bool
  pub tenant : String
  pub host_metrics : Option H

-- A node's tenant is its tag, or else its location.
abbrev pub tenant_of : Node → String
tenant_of n = get_or n.location "tenant" n.tags

-- `a or b`, where an empty text counts as none.
abbrev pub or_else : Option String → Option String → Option String
or_else none b = b
or_else (some a) b = if a == "" then b else some a

module _ {ℓ} {H : Type ℓ} (parse : String → Option H) where
  abbrev pub item : List String → Node → NodePayload H
  item remote_agents n = record {
    node = n;
    is_remote = member n.node_id remote_agents;
    tenant = tenant_of n;
    host_metrics = parse (get_or "" "host_metrics" n.tags);
  }

  -- `if tenant: payload = [p for p in payload if p["tenant"] == tenant]`
  unfoldable pub of_tenant : Option String → List (NodePayload H) → List (NodePayload H)
  of_tenant none payload = payload
  of_tenant (some t) payload = if t == "" then payload else select (λ p. p.tenant == t) payload

  unfoldable pub nodes_payload :
      ℕ → (tenant current : Option String) → Cluster → List (NodePayload H) × Cluster
  unfolding of_tenant
  nodes_payload now tenant current env =
      let (nodes, env') = live_nodes now env in
      (of_tenant (or_else tenant current) (map (item env'.world.remote_agents) nodes), env')

  -- `for n in …: if n["node_id"] == node_id: return n`
  unfoldable pub find : String → List (NodePayload H) → Option (NodePayload H)
  find node_id [] = none
  find node_id (p ∷ ps) = if p.node.node_id == node_id then some p else find node_id ps

  -- GET /api/v1/nodes
  unfoldable pub list_nodes : ℕ → Request → Option String → Cluster → List (NodePayload H) × Cluster
  list_nodes now request current env = nodes_payload now (request.header "X-Tenant-Id") current env

  -- GET /api/v1/nodes/{node_id}; none is the answer "not found".
  unfoldable pub get_node : ℕ → String → Option String → Cluster → Option (NodePayload H) × Cluster
  get_node now node_id current env =
      let (payload, env') = nodes_payload now none current env in (find node_id payload, env')

pub record Site : Type 0 where
  pub site : String
  pub nodes : ℕ
  pub healthy_nodes : ℕ
  pub tenant : String

-- `n.location or "default"`
abbrev pub site_of : Node → String
site_of n = if n.location == "" then "default" else n.location

abbrev pub one_if : Bool → ℕ
one_if test = if test then 1 else 0

-- The entry of a node's site with the node counted.
abbrev pub raised : Node → Dict Site → Site
raised n sites =
    let site = site_of n in
    let fresh : Site = record {
      site = site;
      nodes = 0;
      healthy_nodes = 0;
      tenant = get_or site "tenant" n.tags;
    } in
    let old = get_or fresh site sites in
    record old {
      nodes = old.nodes + 1;
      healthy_nodes = old.healthy_nodes + one_if (same_state n.state healthy);
    }

-- One round of the loop of `sites_payload`.
unfoldable pub count_node : Node → Dict Site → Dict Site
count_node n sites = put (site_of n) (raised n sites) sites

unfoldable pub count_nodes : List Node → Dict Site → Dict Site
unfolding count_node
count_nodes [] sites = sites
count_nodes (n ∷ ns) sites = count_nodes ns (count_node n sites)

unfoldable pub sites_payload : ℕ → Cluster → List Site × Cluster
unfolding count_nodes
sites_payload now env =
    let (nodes, env') = live_nodes now env in (values (count_nodes nodes []), env')
