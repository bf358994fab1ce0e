-- ===== src/Driver/Live.antt =====
-- Which nodes the driver counts as live, and where it puts a task.
use mathlib.Core.Path.{subst}
use cluster_mesh.Prelude.{
  ℕ, String, true, Option, none, some, List, [], ◌∷◌, map, select, ◌≡◌, refl, sym, ap, ◌∙◌, arith,
  eq_refl, inl, inr, Option-cases,
}
use cluster_mesh.Prelude.Dict.{Dict, get, get-put}
use cluster_mesh.Prelude.Sort.{Has, Has-map, Has-select_iff}
use cluster_mesh.Models.{
  Node, NodeState, healthy, same_state, TaskSpec, running, pending, meets_requirements,
}
use cluster_mesh.Health.Tracker
use cluster_mesh.Health.Tracker.{HeartbeatTracker}
use cluster_mesh.Health.Registry
use cluster_mesh.Health.Sweep.{SameInputs, SameInputs-refl, evaluate-SameInputs, verdict_same}
use cluster_mesh.Scheduler.Scoring.{Float}
use cluster_mesh.Scheduler.Placement.{PlacementEngine, Placement, place}
use cluster_mesh.Scheduler.Placement.Best.{IsOrdered, place-IsBest, admits}
use cluster_mesh.Driver.Cluster.{
  Cluster, nodes_from, live_nodes, not_dead, assign_placed, set_task, submit,
}

-- A node of the cluster in the state that the tracker gives for it at this moment.
abbrev pub observed : ℕ → HeartbeatTracker → String × Node → Node
observed now t (id, node) = record node { state = (Tracker.evaluate now id t).0 }

nodes_from-observed :
    (now : ℕ) (t : HeartbeatTracker) (d : Dict Node) (env : Cluster)
    → SameInputs env.tracker t
    → ((nodes_from now d env).0 ≡ map (observed now t) d)
      × ((nodes_from now d env).1.world ≡ env.world)
unfolding nodes_from Registry.get_state
nodes_from-observed now t [] env s = (refl, refl)
nodes_from-observed now t ((id, node) ∷ d) env s =
    let env' : Cluster = record env { tracker = (Tracker.evaluate now id env.tracker).1 } in
    let rest = nodes_from-observed now t d env' (evaluate-SameInputs env.tracker t now id s) in
    (rw (rest.0, verdict_same env.tracker t now id s) refl, rest.1)

-- `live_nodes` returns the cluster's nodes in their order, each in the state that the tracker gives
-- for it, without those that are DEAD, though every look at a state is stored before the next; of
-- the cluster nothing else changes.
pub live_nodes-eq :
    (now : ℕ) (env : Cluster)
    → ((live_nodes now env).0 ≡ select not_dead (map (observed now env.tracker) env.world.nodes))
      × ((live_nodes now env).1.world ≡ env.world)
unfolding live_nodes
live_nodes-eq now env =
    let all =
      nodes_from-observed now env.tracker env.world.nodes env (SameInputs-refl env.tracker) in
    (ap (select not_dead) all.0, all.1)

healthy_if : (s : NodeState) → same_state s healthy ≡ true → s ≡ healthy
healthy_if s h = ground arith

pub admitted_healthy :
    (e : PlacementEngine) (task : TaskSpec) (hour : ℕ) (n : Node)
    → admits e task hour n ≡ true
    → n.state ≡ healthy
unfolding meets_requirements
admitted_healthy e task hour n h = ground (arith, healthy_if n.state)

not_both : {A : Type 0} {a : A} → none ≡ some a → ⊥
not_both h = cc

some_inj : {A : Type 0} {a b : A} → some a ≡ some b → a ≡ b
some_inj h = cc

module _ (f : Float) (order : IsOrdered f) (e : PlacementEngine) (now hour : ℕ) (task : TaskSpec)
    (env : Cluster) where
  abbrev nodes_seen : List Node
  nodes_seen = select not_dead (map (observed now env.tracker) env.world.nodes)

  -- A node of the cluster that the tracker holds for HEALTHY and the engine admits.
  abbrev pub Chosen : String → Type 0
  Chosen id =
      (key : String) × (node : Node) × Has (key, node) env.world.nodes
      × (node.node_id ≡ id)
      × ((Tracker.evaluate now key env.tracker).0 ≡ healthy)
      × (admits e task hour (observed now env.tracker (key, node)) ≡ true)

  abbrev looked : Cluster
  looked = (live_nodes now (set_task task env)).1

  seen : (live_nodes now (set_task task env)).0 ≡ nodes_seen
  seen = (live_nodes-eq now (set_task task env)).0

  submit_chose :
      (p : Placement f)
      → place f e task nodes_seen hour ≡ some p
      → submit f e now hour task env ≡ (
        some p.node_id,
        set_task (record task { assigned_node = some p.node_id; state = running }) looked,
      )
  unfolding submit assign_placed
  submit_chose p h =
      ap (λ o. assign_placed task o looked) (ap (λ l. place f e task l hour) seen ∙ h)

  submit_passed :
      place f e task nodes_seen hour ≡ none
      → submit f e now hour task env ≡ (none, set_task (record task { state = pending }) looked)
  unfolding submit assign_placed
  submit_passed h = ap (λ o. assign_placed task o looked) (ap (λ l. place f e task l hour) seen ∙ h)

  place-Chosen : (p : Placement f) → place f e task nodes_seen hour ≡ some p → Chosen p.node_id
  place-Chosen p h =
      let (best, is_best, placed) = place-IsBest f order e task nodes_seen hour p h in
      let ((key, node), there, same) =
        Has-map (observed now env.tracker) best env.world.nodes
          ((Has-select_iff not_dead best (map (observed now env.tracker) env.world.nodes)).0
            is_best.present).0 in
      let allowed = subst (λ n. admits e task hour n ≡ true) (sym same) is_best.allowed in
      (
        key,
        node,
        there,
        ap (λ (n : Node). n.node_id) same ∙ sym placed.0,
        admitted_healthy e task hour (observed now env.tracker (key, node)) allowed,
        allowed,
      )

  -- Where the comparison of scores is an order: a task that `submit` gives to a node goes to one
  -- of the cluster's nodes that the tracker holds for HEALTHY at this moment and that the
  -- placement engine admits for the task, and the stored task is RUNNING on it.
  pub submit_lands :
      (id : String)
      → (submit f e now hour task env).0 ≡ some id
      → Chosen id
        × (get task.task_id (submit f e now hour task env).1.world.tasks
            ≡ some (record task { assigned_node = some id; state = running }))
  submit_lands id h = elim (Option-cases (place f e task nodes_seen hour)) [
    | inl e₀ ↦
        absurd (not_both (sym (ap (λ (r : Option String × Cluster). r.0) (submit_passed e₀)) ∙ h))
    | inr (p, e₀) ↦
        let now_is = submit_chose p e₀ in
        let same : p.node_id ≡ id =
          some_inj (sym (ap (λ (r : Option String × Cluster). r.0) now_is) ∙ h) in
        (
          subst (λ i. Chosen i) same (place-Chosen p e₀),
          rw now_is (rw same (get-put task.task_id task.task_id _ _ ∙ rw eq_refl refl)),
        )
  ]

  -- A task that `submit` cannot place stays in the cluster as PENDING.
  submit_waits :
      (submit f e now hour task env).0 ≡ none
      → get task.task_id (submit f e now hour task env).1.world.tasks
        ≡ some (record task { state = pending })
  submit_waits h = elim (Option-cases (place f e task nodes_seen hour)) [
    | inl e₀ ↦ rw (submit_passed e₀) (get-put task.task_id task.task_id _ _ ∙ rw eq_refl refl)
    | inr (p, e₀) ↦
        absurd (not_both (sym h ∙ (ap (λ (r : Option String × Cluster). r.0) (submit_chose p e₀))))
  ]
