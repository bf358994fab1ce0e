-- ===== src/Tests/Api.antt =====
-- The middleware and the targets of an installation at concrete inputs.
use mathlib.Core.Path.{subst}
use cluster_mesh.Prelude.{
  ◌&&◌, String, ◌==◌, ◌≡◌, ◌↔◌, ◌≢◌, refl, sym, List, true, Option, none, some, [], ◌∷◌, select,
  inl, inr, if◌then◌else◌,
}
use cluster_mesh.Prelude.Dict.{get, member}
use cluster_mesh.Prelude.Sort.{Has}
use cluster_mesh.Prelude.Text.{lower, upper, begins, drop, lstrip, rstrip, is_ascii}
use cluster_mesh.Models.{Node, healthy, same_state}
use cluster_mesh.Health.Tracker
use cluster_mesh.Health.Registry
use cluster_mesh.Scheduler.Pools.{default_router, eligible_nodes}
use cluster_mesh.Driver.Cluster.{Cluster, live_nodes, nodes_from}
use cluster_mesh.Driver.Installer.{
  Target, driver, agent, wanted, pool_enum, chosen_nodes, agent_targets, with_driver,
  resolve_targets,
}
use cluster_mesh.Api.Auth.{
  AuthConfig, Request, response, unauthorized, raised, from_env, validate_key, check_key,
  compare_digest, extract_api_key, answer_verdict, dispatch,
}
use cluster_mesh.Api.Guard.{dispatch_admits_iff}
use cluster_mesh.Api.Context.{Site, site_of, sites_payload, list_nodes, get_node}
use cluster_mesh.Api.Context.Sites.{number_of, at_site, sites_payload_lem}
use cluster_mesh.Api.Context.Tenants.{Shows, get_node_tenant}
use cluster_mesh.Api.Notebook.{notebook_runnable_nodes}
use cluster_mesh.Api.Notebook.Runs.{runnable-submit_notebook_cell_iff}
use cluster_mesh.Jobs.Named.{submit_notebook_cell}
use cluster_mesh.Tests.Data.{node, texts_differ, millionths, millionths-IsOrder, engine, manager}

abbrev config : AuthConfig
config = record { api_key = some "s3cret"; enabled = true }

abbrev request : String → Request
request key = record {
  path = "/api/jobs";
  header = λ name.
      if name == "Authorization"
      then some key
      else if name == "X-Tenant-Id"
      then some "lab"
      else none;
}

-- The application answers with the tenant.
abbrev application : Option String → Option (Option String)
application tenant = some tenant

from_env_enables : from_env (some "s3cret") "" ≡ config
unfolding from_env lower begins
from_env_enables = refl

bearer_admitted :
    dispatch config application (request "BEARER  s3cret ") none ≡ (response (some "lab"), none)
unfolding dispatch answer_verdict validate_key check_key compare_digest extract_api_key lower begins
    drop lstrip rstrip is_ascii
bearer_admitted = refl

-- A key outside ASCII raises.
foreign_key_raises : (dispatch config application (request "Bearer é") none).0 ≡ raised
unfolding dispatch answer_verdict validate_key check_key compare_digest extract_api_key lower begins
    drop lstrip rstrip is_ascii
foreign_key_raises = refl

basic_refused : (dispatch config application (request "Basic s3cret") none).0 ≡ unauthorized
unfolding dispatch answer_verdict validate_key check_key compare_digest extract_api_key lower begins
    drop lstrip rstrip is_ascii
basic_refused = refl

dispatch_admits_iff_example :
    ((dispatch config application (request "Bearer s3cret") none).0 ≡ response (some "lab")) ↔ (
      ((key : String) × (key ≢ "")
        × (config.api_key ≡ some key)
        × (extract_api_key (request "Bearer s3cret") ≡ some key)
        × (is_ascii key ≡ true))
      × (application (some "lab") ≡ some (some "lab")))
dispatch_admits_iff_example =
    dispatch_admits_iff config application (request "Bearer s3cret") none (some "lab") refl refl

-- "a" and "b" were just heard of, "b" has an agent, and the driver runs beside "a".
abbrev pub cluster : Cluster
cluster = record {
  tracker = record {
    interval_seconds = 2_000;
    suspected_threshold = 3;
    dead_threshold = 5;
    last_heartbeat = ("a", 12_000) ∷ ("b", 12_500) ∷ [];
    states = ("a", healthy) ∷ ("b", healthy) ∷ [];
    explicit_dead = [];
  };
  world = record {
    nodes = ("a", node "a" 4_000) ∷ ("b", node "b" 8_000) ∷ [];
    remote_agents = "b" ∷ [];
    tasks = [];
    state_changes = [];
  };
}

abbrev pub cpu_targets : Cluster → List Target
cpu_targets env = (resolve_targets default_router 13_000 12 "desk" "Cpu" none true env).0

pub targets_b : cpu_targets cluster ≡ driver "desk" ∷ agent "b" "b" ∷ []
unfolding resolve_targets chosen_nodes wanted pool_enum agent_targets with_driver live_nodes
    nodes_from eligible_nodes select member get lower upper begins Tracker.evaluate Tracker.classify
    Tracker.missed_count Registry.get_state
targets_b = refl

pub b_is_target : Has (agent "b" "b") (cpu_targets cluster)
b_is_target = subst (λ l. Has (agent "b" "b") l) (sym targets_b) (inr (inl refl))

-- The same nodes; "b" has the tag of another tenant than its location.
abbrev tagged : Cluster
tagged = record cluster {
  world = record (cluster.world) {
    nodes =
        ("a", node "a" 4_000)
        ∷ ("b", record (node "b" 8_000) { tags = ("tenant", "fab") ∷ [] })
        ∷ [];
  };
}

abbrev no_metrics : String → Option String
no_metrics text = none

abbrev admitted : Request
admitted = request "Bearer s3cret"

list_admitted :
    (dispatch config
      (λ tenant. some (list_nodes no_metrics 13_000 admitted tenant tagged).0)
      admitted
      none).0
    ≡ response (list_nodes no_metrics 13_000 admitted (some "lab") tagged).0
unfolding dispatch answer_verdict validate_key check_key compare_digest extract_api_key lower begins
    drop lstrip rstrip is_ascii
list_admitted = refl

get_admitted :
    (dispatch config
      (λ tenant. some (get_node no_metrics 13_000 "b" tenant tagged).0)
      admitted
      none).0
    ≡ response (get_node no_metrics 13_000 "b" (some "lab") tagged).0
unfolding dispatch answer_verdict validate_key check_key compare_digest extract_api_key lower begins
    drop lstrip rstrip is_ascii
get_admitted = refl

get_node_tenant_example :
    Shows no_metrics "lab" "b"
      (live_nodes 13_000 tagged).0
      (live_nodes 13_000 tagged).1
      (get_node no_metrics 13_000 "b" (some "lab") tagged).0
get_node_tenant_example =
    get_node_tenant no_metrics config 13_000 "b" admitted none tagged "lab" _ refl
      (texts_differ "lab" "" refl) get_admitted

sites_payload_lem_example :
    ((s : Site)
      → Has s (sites_payload 13_000 tagged).0
      → (s.nodes ≡ number_of (at_site s.site) (live_nodes 13_000 tagged).0)
        × (s.healthy_nodes
            ≡ number_of
                (λ n. at_site s.site n && same_state n.state healthy)
                (live_nodes 13_000 tagged).0))
    × ((n : Node)
        → Has n (live_nodes 13_000 tagged).0
        → (s : Site) × Has s (sites_payload 13_000 tagged).0 × (s.site ≡ site_of n))
sites_payload_lem_example = sites_payload_lem 13_000 tagged

runnable-submit_notebook_cell_iff_example :
    ((n : Node) × Has n (notebook_runnable_nodes millionths engine 12 "p" (node "a" 4_000 ∷ [])))
    ↔ ((id : String) × ((submit_notebook_cell millionths engine 12
            (λ _ _. none)
            (node "a" 4_000 ∷ [])
            "1"
            "python"
            "t"
            "j"
            (manager [] [])).0
          ≡ some id))
runnable-submit_notebook_cell_iff_example =
    runnable-submit_notebook_cell_iff millionths engine 12 (λ _ _. none) (node "a" 4_000 ∷ []) "1"
      "python" "p" "t" "j" (manager [] []) millionths-IsOrder
