-- ===== src/Driver/Targets.antt =====
-- Which machines an installation reaches.
use cluster_mesh.Prelude.{
  ℕ, String, Bool, true, false, not, ◌&&◌, if◌then◌else◌, ◌==◌, Option, List, [], ◌∷◌, ◌≡◌, refl,
  sym, ap, ◌⊎◌, ◌∙◌, arith, eq_iff, inl, inr,
}
use cluster_mesh.Prelude.Dict.{member}
use cluster_mesh.Prelude.Sort.{Has}
use cluster_mesh.Models.{Node, dead, same_state}
use cluster_mesh.Scheduler.Pools.{PoolRouter}
use cluster_mesh.Driver.Cluster.{Cluster}
use cluster_mesh.Driver.Installer.{
  Target, driver, agent, chosen_nodes, agent_targets, hostnames, with_driver, resolve_targets,
}

abbrev pub target_host : Target → String
target_host (driver host) = host
target_host (agent host id) = host

-- The node behind an agent's target.
abbrev pub Reached : List String → List Node → Target → Type 0
Reached remotes nodes t =
    (n : Node) × Has n nodes
    × (agent n.hostname n.node_id ≡ t)
    × (same_state n.state dead ≡ false)
    × (member n.node_id remotes ≡ true)

later_node :
    (remotes : List String) (n : Node) (nodes : List Node) (t : Target)
    → Reached remotes nodes t
    → Reached remotes (n ∷ nodes) t
later_node remotes n nodes t (m, has, same, alive, remote) = (m, inr has, same, alive, remote)

Has-if :
    (test : Bool) (t u : Target) (rest : List Target)
    → Has t (if test then u ∷ rest else rest)
    → ((test ≡ true) × (u ≡ t)) ⊎ Has t rest
Has-if true t u rest (inl e) = inl (refl, e)
Has-if true t u rest (inr k) = inr k
Has-if false t u rest k = inr k

both : (a b : Bool) → not a && b ≡ true → (a ≡ false) × (b ≡ true)
both false true h = (refl, refl)
both false false h = absurd (cc h)
both true b h = absurd (cc h)

agent_targets-Reached :
    (remotes : List String) (nodes : List Node) (t : Target)
    → Has t (agent_targets remotes nodes)
    → Reached remotes nodes t
unfolding agent_targets
agent_targets-Reached remotes [] t h = elim h [ ]
agent_targets-Reached remotes (n ∷ nodes) t h =
    let test = not (same_state n.state dead) && member n.node_id remotes in
    elim (Has-if test t (agent n.hostname n.node_id) (agent_targets remotes nodes) h) [
      | inl (ok, same) ↦
          let (alive, remote) = both (same_state n.state dead) (member n.node_id remotes) ok in
          (n, inl refl, same, alive, remote)
      | inr k ↦ later_node remotes n nodes t (agent_targets-Reached remotes nodes t k)
    ]

member-hostnames :
    (n : Node) (nodes : List Node) → Has n nodes → member n.hostname (hostnames nodes) ≡ true
unfolding member
member-hostnames n [] h = elim h [ ]
member-hostnames n (m ∷ nodes) (inl e) =
    let same : (m.hostname == n.hostname) ≡ true =
      (eq_iff m.hostname n.hostname).1 (ap (λ x. x.hostname) e) in
    ground arith
member-hostnames n (m ∷ nodes) (inr h) = ground (arith, member-hostnames n nodes h)

with_driver-Has :
    (include_driver : Bool) (driver_host : String) (nodes : List Node) (targets : List Target)
    (t : Target)
    → Has t (with_driver include_driver driver_host nodes targets)
    → ((member driver_host (hostnames nodes) ≡ false) × (driver driver_host ≡ t)) ⊎ Has t targets
unfolding with_driver
with_driver-Has include_driver driver_host nodes targets t h =
    let absent = not (member driver_host (hostnames nodes)) in
    elim (Has-if (include_driver && absent) t (driver driver_host) targets h) [
      | inl (ok, same) ↦ inl (ground arith, same)
      | inr k ↦ inr k
    ]

not_both : true ≡ false → ⊥
not_both h = cc h

kinds_differ : {a b c : String} → driver a ≡ agent b c → ⊥
kinds_differ e = cc e

-- Every agent that resolve_targets names belongs to a node that is asked for, is not DEAD and has a
-- remote agent, and the driver does not install on the same host as well.
resolve_targets-Reached :
    (router : PoolRouter) (now hour : ℕ) (driver_host pool : String)
    (node_ids : Option (List String)) (include_driver : Bool) (env : Cluster) (host id : String)
    → Has
        (agent host id)
        (resolve_targets router now hour driver_host pool node_ids include_driver env).0
    → (let (nodes, env') = chosen_nodes router now hour pool node_ids env in
        Reached env'.world.remote_agents nodes (agent host id))
      × (Has
            (driver host)
            (resolve_targets router now hour driver_host pool node_ids include_driver env).0
          → ⊥)
unfolding resolve_targets with_driver
resolve_targets-Reached router now hour driver_host pool node_ids include_driver env host id h =
    let (nodes, env') = chosen_nodes router now hour pool node_ids env in
    let targets = agent_targets env'.world.remote_agents nodes in
    let placed = with_driver-Has include_driver driver_host nodes targets in
    let Behind = Reached env'.world.remote_agents nodes in
    let behind : (t : Target) → Has t targets → Behind t =
      agent_targets-Reached env'.world.remote_agents nodes in
    let reached : Behind (agent host id) = elim (placed (agent host id) h) [
      | inl (absent, e) ↦ absurd (kinds_differ e)
      | inr k ↦ behind (agent host id) k
    ] in
    (
      reached,
      λ d. elim (placed (driver host) d) [
        | inl (absent, e) ↦
            let (n, has, same, alive, remote) = reached in
            let here : n.hostname ≡ host = cc same in
            let its : driver_host ≡ host = cc e in
            not_both (
              sym (member-hostnames n nodes has)
              ∙ (ap (λ x. member x (hostnames nodes)) (here ∙ sym its) ∙ absent))
        | inr k ↦
            let (n, has, same, alive, remote) = behind (driver host) k in
            absurd (kinds_differ (sym same))
      ],
    )
