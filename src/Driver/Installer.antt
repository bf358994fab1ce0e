-- ===== src/Driver/Installer.antt =====
-- `_resolve_targets` of mesh/driver/library_installer.py: on which machines a library is installed.
-- The driver's host name, the clock and the registered remote agents are the state it looks at.
use cluster_mesh.Prelude.{
  ℕ, String, Bool, true, not, ◌&&◌, ◌||◌, Option, none, some, List, [], ◌∷◌, ◌==◌, select, map,
  if◌then◌else◌,
}
use cluster_mesh.Prelude.Dict.{member}
use cluster_mesh.Prelude.Text.{lower, upper, same_word}
use cluster_mesh.Models.{Node, ResourcePool, dead, same_state}
use cluster_mesh.Scheduler.Pools.{PoolRouter, eligible_nodes}
use cluster_mesh.Driver.Cluster.{Cluster, live_nodes}

-- A target by its kind and host name, and for an agent the node of its remote.
pub data Target : Type 0 where
  driver : String → Target
  agent : (hostname node_id : String) → Target

-- `if node_ids: … n.node_id in node_ids`
unfoldable pub wanted : Option (List String) → Node → Bool
wanted none n = true
wanted (some []) n = true
wanted (some (id ∷ ids)) n = member n.node_id (id ∷ ids)

-- A name that is no pool's stands for all nodes.
unfoldable pub pool_enum : String → Option ResourcePool
pool_enum pool =
    if (pool == "") || same_word (lower pool) (lower "all")
    then none
    else if same_word (upper pool) (upper "CPU")
    then some ResourcePool.cpu
    else if same_word (upper pool) (upper "MEMORY")
    then some ResourcePool.memory
    else if same_word (upper pool) (upper "GPU")
    then some ResourcePool.gpu
    else if same_word (upper pool) (upper "NIGHT")
    then some ResourcePool.night
    else none

-- The nodes that are asked for.
unfoldable pub chosen_nodes :
    PoolRouter → (now hour : ℕ) → String → Option (List String) → Cluster → List Node × Cluster
chosen_nodes router now hour pool node_ids env =
    let (nodes, env') = live_nodes now env in
    (eligible_nodes router (select (wanted node_ids) nodes) (pool_enum pool) hour, env')

-- The loop over the nodes.
unfoldable pub agent_targets : List String → List Node → List Target
agent_targets remotes [] = []
agent_targets remotes (n ∷ nodes) =
    let rest = agent_targets remotes nodes in
    if not (same_state n.state dead) && member n.node_id remotes
    then agent n.hostname n.node_id ∷ rest
    else rest

abbrev pub hostnames : List Node → List String
hostnames nodes = map (λ n. n.hostname) nodes

unfoldable pub with_driver : Bool → String → List Node → List Target → List Target
with_driver include_driver host nodes targets =
    if include_driver && not (member host (hostnames nodes)) then driver host ∷ targets else targets

unfoldable pub resolve_targets :
    PoolRouter
    → (now hour : ℕ) → (driver_host : String) → String
    → Option (List String)
    → Bool
    → Cluster
    → List Target × Cluster
resolve_targets router now hour driver_host pool node_ids include_driver env =
    let (nodes, env') = chosen_nodes router now hour pool node_ids env in
    (
      with_driver include_driver driver_host nodes (agent_targets env'.world.remote_agents nodes),
      env',
    )
