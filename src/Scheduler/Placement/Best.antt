-- ===== src/Scheduler/Placement/Best.antt =====
-- `place` chooses the best of the nodes that are allowed.
use mathlib.Core.Path.{subst}
use cluster_mesh.Prelude.{
  ℕ, ◌≡◌, refl, sym, Bool, true, false, not, ◌&&◌, Option, none, some, List, [], ◌∷◌, map, ◌↔◌, inl,
  inr, arith, ltb, select, Bool-cases, Option-cases,
}
use cluster_mesh.Prelude.Sort.{
  Has, Has-map, Has-map_of, All_at, Has-select_iff, Has-sort_by_iff, sort_by, sort_by_least,
  IsOrder,
}
use cluster_mesh.Prelude.Text.{text_leb_total, text_leb_trans}
use cluster_mesh.Models.{Node, ResourcePool, TaskSpec, meets_requirements, cpu, memory, gpu, night}
use cluster_mesh.Scheduler.Scoring.{Float, score}
use cluster_mesh.Scheduler.Pools.{
  PoolRouter, eligible_nodes, is_night_window, passes_battery_gate, has_cuda,
}
use cluster_mesh.Scheduler.Placement.{
  PlacementEngine, Placement, Scored, scored, ranks_before, candidates, choose, place,
}

-- May the node serve the pool at this hour?
abbrev pub pool_admits : PoolRouter → Option ResourcePool → ℕ → Node → Bool
pool_admits p none hour n = true
pool_admits p (some cpu) hour n = not n.preemptible && passes_battery_gate p n
pool_admits p (some memory) hour n = passes_battery_gate p n
pool_admits p (some gpu) hour n =
    ltb 0 n.resources.gpu_count && (has_cuda n && passes_battery_gate p n)
pool_admits p (some night) hour n =
    is_night_window p hour && (n.preemptible && passes_battery_gate p n)

-- A pool's nodes are exactly those of the cluster that the pool admits, whatever their order.
pub eligible_nodes_iff :
    (p : PoolRouter) (nodes : List Node) (pool : Option ResourcePool) (hour : ℕ) (n : Node)
    → Has n (eligible_nodes p nodes pool hour) ↔ (Has n nodes × (pool_admits p pool hour n ≡ true))
unfolding eligible_nodes
eligible_nodes_iff p nodes none hour n = (λ h. (h, refl), λ h. h.0)
eligible_nodes_iff p nodes (some cpu) hour n = Has-select_iff _ n nodes
eligible_nodes_iff p nodes (some gpu) hour n = Has-select_iff _ n nodes
eligible_nodes_iff p nodes (some memory) hour n =
    let sorted = Has-sort_by_iff _ n (select (passes_battery_gate p) nodes) in
    let kept = Has-select_iff (passes_battery_gate p) n nodes in
    (λ h. kept.0 (sorted.0 h), λ h. sorted.1 (kept.1 h))
eligible_nodes_iff p nodes (some night) hour n = elim (Bool-cases (is_night_window p hour)) [
  | inl open_now ↦ rw open_now (Has-select_iff _ n nodes)
  | inr shut ↦ rw shut (λ h. elim h [ ], λ h. absurd (cc (h.1)))
]

-- May the task run on the node at this hour?
abbrev pub admits : PlacementEngine → TaskSpec → ℕ → Node → Bool
admits e task hour n =
    pool_admits e.pool_router task.pool hour n && meets_requirements n task.requirements

-- The comparison of floats that are not NaN.
abbrev pub IsOrdered : Float → Type 0
IsOrdered f = IsOrder f.le

module _ (f : Float) (e : PlacementEngine) (task : TaskSpec) (nodes : List Node) (hour : ℕ) where
  candidates_iff :
      (n : Node)
      → Has n (candidates f e task nodes hour) ↔ (Has n nodes × (admits e task hour n ≡ true))
  unfolding candidates
  candidates_iff n =
      let kept =
        Has-select_iff (λ m. meets_requirements m task.requirements) n
          (eligible_nodes e.pool_router nodes task.pool hour) in
      let eligible = eligible_nodes_iff e.pool_router nodes task.pool hour n in
      (
        λ h. let (m, ok) = kept.0 h in let (has, open_to) = eligible.0 m in (has, rw open_to ok),
        λ h. kept.1 (eligible.1 (h.0, ground arith), ground arith),
      )

ranks_before-IsOrder : (f : Float) → IsOrdered f → IsOrder (ranks_before f)
unfolding ranks_before
ranks_before-IsOrder f order = record {
  total = λ a b h.
      ground
        (arith, order.total a.1 b.1, order.total b.1 a.1, text_leb_total a.0.node_id b.0.node_id);
  trans = λ a b c h k. ground (
    arith,
    order.trans a.1 b.1 c.1,
    order.trans c.1 b.1 a.1,
    order.trans a.1 c.1 b.1,
    order.trans b.1 a.1 c.1,
    order.trans b.1 c.1 a.1,
    order.trans c.1 a.1 b.1,
    text_leb_trans a.0.node_id b.0.node_id c.0.node_id,
  );
}

module _ (f : Float) (order : IsOrdered f) (e : PlacementEngine) (task : TaskSpec)
    (nodes : List Node) (hour : ℕ) where
  open f use {F, zero_f, le}

  -- `best` is allowed, and no allowed node comes before it.
  pub record IsBest (best : Node) : Type 0 where
    pub present : Has best nodes
    pub allowed : admits e task hour best ≡ true
    pub first :
        (n : Node)
        → Has n nodes
        → admits e task hour n ≡ true
        → ranks_before f (scored f e task best) (scored f e task n) ≡ true

  abbrev ranking : List (Scored f)
  ranking = sort_by (ranks_before f) (map (scored f e task) (candidates f e task nodes hour))

  -- What the list of scored candidates starts with.
  ranking-IsBest :
      (top : Scored f) (others : List (Scored f))
      → ranking ≡ top ∷ others
      → (best : Node) × (top ≡ scored f e task best) × IsBest best
  ranking-IsBest top others eq =
      let cands = candidates f e task nodes hour in
      let pairs = map (scored f e task) cands in
      let (best, among, same) = Has-map (scored f e task) top cands (
        (Has-sort_by_iff (ranks_before f) top pairs).0
          (subst (λ l. Has top l) (sym eq) (inl refl))) in
      let (present, allowed) = (candidates_iff f e task nodes hour best).0 among in
      let least = sort_by_least (ranks_before-IsOrder f order) pairs others top eq in
      (
        best,
        sym same,
        record {
          present = present;
          allowed = allowed;
          first = λ n has ok.
              subst (λ t. ranks_before f t (scored f e task n) ≡ true) (sym same)
                (All_at (λ x. ranks_before f top x ≡ true) (scored f e task n) pairs least
                  (Has-map_of (scored f e task) n cands
                    ((candidates_iff f e task nodes hour n).1 (has, ok))));
        },
      )

  abbrev pub Placed : Placement f → Node → Type 0
  Placed p best =
      (p.node_id ≡ best.node_id)
      × (p.task_id ≡ task.task_id)
      × (p.score ≡ score f e.scorer best task.requirements)
      × (le p.score zero_f ≡ false)

  choose-Placed :
      (p : Placement f) (best : Node) (others : List (Scored f))
      → choose f task (scored f e task best ∷ others) ≡ some p
      → Placed p best
  unfolding choose
  choose-Placed p best others h = ground arith

  choose-IsBest :
      (p : Placement f) (l : List (Scored f))
      → ranking ≡ l
      → choose f task l ≡ some p
      → (best : Node) × IsBest best × Placed p best
  unfolding choose
  choose-IsBest p [] eq h = cc
  choose-IsBest p (top ∷ others) eq h =
      let (best, same, is_best) = ranking-IsBest top others eq in
      (
        best,
        is_best,
        choose-Placed p best others (subst (λ t. choose f task (t ∷ others) ≡ some p) same h),
      )

  -- Where the comparison of scores is an order: whatever `place` returns names an allowed node
  -- that every other allowed node follows in the order of falling score, then of node id, with
  -- that node's score, which is above zero.
  pub place-IsBest :
      (p : Placement f)
      → place f e task nodes hour ≡ some p
      → (best : Node) × IsBest best × Placed p best
  unfolding place
  place-IsBest p h = choose-IsBest p ranking refl h

  worst_case :
      (l : List (Scored f))
      → ranking ≡ l
      → choose f task l ≡ none
      → (n : Node) → Has n nodes
      → admits e task hour n ≡ true
      → le (score f e.scorer n task.requirements) zero_f ≡ true
  unfolding choose ranks_before
  worst_case [] eq h n has ok =
      let pairs = map (scored f e task) (candidates f e task nodes hour) in
      let stands : Has (scored f e task n) [] =
        subst (λ l. Has (scored f e task n) l) eq
          ((Has-sort_by_iff (ranks_before f) (scored f e task n) pairs).1 (
            Has-map_of (scored f e task) n (candidates f e task nodes hour)
              ((candidates_iff f e task nodes hour n).1 (has, ok)))) in
      absurd stands
  worst_case (top ∷ others) eq h n has ok =
      let (best, same, is_best) = ranking-IsBest top others eq in
      ground (
        arith,
        same,
        is_best.first n has ok,
        order.trans (score f e.scorer n task.requirements) top.1 zero_f,
      )

  -- Where the comparison of scores is an order: `place` returns nothing exactly when no allowed
  -- node has a score above zero.
  pub place-eq-none_iff : (place f e task nodes hour ≡ none) ↔ (
      (n : Node)
      → Has n nodes
      → admits e task hour n ≡ true
      → le (score f e.scorer n task.requirements) zero_f ≡ true)
  unfolding place
  place-eq-none_iff = (
    worst_case ranking refl,
    λ all. elim (Option-cases (place f e task nodes hour)) [
      | inl nothing ↦ nothing
      | inr (p, some_p) ↦
          let (best, is_best, placed) = place-IsBest p some_p in
          absurd (clash p best is_best placed (all best is_best.present is_best.allowed))
    ],
  )
    where
      clash :
          (p : Placement f) (best : Node)
          → IsBest best
          → Placed p best
          → le (score f e.scorer best task.requirements) zero_f ≡ true
          → ⊥
      clash p best b placed low = ground arith
