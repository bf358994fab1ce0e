-- ===== src/Recovery/Spread.antt =====
-- What `steal` makes of the orphaned tasks, and how it spreads them.
use cluster_mesh.Prelude.{
  ℕ, String, ◌≡◌, ◌≢◌, refl, ap, sym, true, false, not, ◌||◌, Option, none, some, List, [], ◌∷◌,
  arith, select, length, eqb, ◌==◌, eq_iff, eq_refl, inl, inr, Option-cases, Bool-cases,
}
use cluster_mesh.Prelude.Dict.{member, add, member-add, Distinct}
use cluster_mesh.Prelude.Sort.{Has, Has-select_iff}
use cluster_mesh.Models.{Node, TaskSpec, running, pending, same_state, healthy}
use cluster_mesh.Scheduler.Scoring.{Float}
use cluster_mesh.Scheduler.Placement.{PlacementEngine, Placement, place}
use cluster_mesh.Scheduler.Placement.Best.{IsOrdered, place-IsBest, admits}
use cluster_mesh.Recovery.Checkpoints.{Checkpoints}
use cluster_mesh.Recovery.Stealing.{free_nodes, migrated, steal_from, steal}

-- The nodes that tasks went to.
pub placed_on : List (TaskSpec × Option String) → List String
placed_on [] = []
placed_on ((t, none) ∷ rs) = placed_on rs
placed_on ((t, some id) ∷ rs) = id ∷ placed_on rs

module _ (f : Float) (order : IsOrdered f) (e : PlacementEngine) (cps : Checkpoints)
    (hour : ℕ) where
  -- A stolen task runs on a listed node that may run it, or waits with no node; its progress and
  -- its user state are those of its checkpoint.
  abbrev pub Settled : List Node → TaskSpec → TaskSpec × Option String → Type 0
  Settled nodes t (t', none) =
      t' ≡ record (migrated f e cps hour t) { state = pending; assigned_node = none }
  Settled nodes t (t', some id) =
      (t' ≡ record (migrated f e cps hour t) { assigned_node = some id; state = running })
      × (n : Node) × Has n nodes
      × (n.node_id ≡ id)
      × (admits e (migrated f e cps hour t) hour n ≡ true)

  abbrev pub AllSettled : List Node → List TaskSpec → List (TaskSpec × Option String) → Type 0
  AllSettled nodes [] [] = Unit
  AllSettled nodes [] (r ∷ rs) = ⊥
  AllSettled nodes (t ∷ ts) [] = ⊥
  AllSettled nodes (t ∷ ts) (r ∷ rs) = Settled nodes t r × AllSettled nodes ts rs

  module _ (hs : List Node) where
    nowhere_round :
        (used : List String) (t : TaskSpec) (ts : List TaskSpec)
        → place f e (migrated f e cps hour t) (free_nodes f e cps hour hs used) hour ≡ none
        → steal_from f e cps hour hs used (t ∷ ts)
          ≡ (record (migrated f e cps hour t) { state = pending; assigned_node = none }, none)
            ∷ steal_from f e cps hour hs used ts
    unfolding steal_from
    nowhere_round used t ts h = rw (h, steal_from)

    placed_round :
        (used : List String) (t : TaskSpec) (ts : List TaskSpec) (p : Placement f)
        → place f e (migrated f e cps hour t) (free_nodes f e cps hour hs used) hour ≡ some p
        → steal_from f e cps hour hs used (t ∷ ts)
          ≡ (
            record (migrated f e cps hour t) { assigned_node = some p.node_id; state = running },
            some p.node_id,
          )
            ∷ steal_from f e cps hour hs (add p.node_id used) ts
    unfolding steal_from
    placed_round used t ts p h = rw (h, steal_from)

    steal_from-AllSettled :
        (used : List String) (ts : List TaskSpec)
        → AllSettled hs ts (steal_from f e cps hour hs used ts)
    steal_from-AllSettled used [] = unfold steal_from in tt
    steal_from-AllSettled used (t ∷ ts) =
        let nodes = free_nodes f e cps hour hs used in
        let t' = migrated f e cps hour t in
        elim (Option-cases (place f e t' nodes hour)) [
          | inl nowhere ↦ rw (nowhere_round used t ts nowhere) (refl, steal_from-AllSettled used ts)
          | inr (p, placed) ↦
              let (best, is_best, on) = place-IsBest f order e t' nodes hour p placed in
              let (has, free) = (Has-select_iff _ best hs).0 is_best.present in
              rw (placed_round used t ts p placed) (
                (refl, best, has, sym on.0, is_best.allowed),
                steal_from-AllSettled (add p.node_id used) ts,
              )
        ]

    -- New places are free, and no two are the same.
    Fresh : List String → List String → Type 0
    Fresh used ids = Distinct ids × ((k : String) → member k used ≡ true → member k ids ≡ false)

    unused_before :
        (id best_id : String) (used : List String) (nodes : List Node)
        → id ≡ best_id
        → length nodes ≢ 1
        → (not (member best_id used) || eqb (length nodes) 1) ≡ true
        → member id used ≡ false
    unused_before id best_id used nodes same many free =
        ground (arith, ap (λ k. member k used) same)

    still_fresh :
        (id k : String) (used ids : List String)
        → member id used ≡ false
        → member k used ≡ true
        → ((j : String) → member j (add id used) ≡ true → member j ids ≡ false)
        → member k (id ∷ ids) ≡ false
    unfolding member
    still_fresh id k used ids off on unused = elim (Bool-cases (id == k)) [
      | inl hit ↦ absurd (clash (ap (λ j. member j used) ((eq_iff id k).0 hit)))
      | inr miss ↦ rw miss (unused k (rw (member-add, miss) on))
    ]
      where
        clash : member id used ≡ member k used → ⊥
        clash same = cc

    steal_from-Fresh :
        (used : List String) (ts : List TaskSpec)
        → length hs ≢ 1
        → Fresh used (placed_on (steal_from f e cps hour hs used ts))
    unfolding Fresh placed_on
    steal_from-Fresh used [] many = unfold steal_from member in (tt, λ k h. refl)
    steal_from-Fresh used (t ∷ ts) many =
        let nodes = free_nodes f e cps hour hs used in
        let t' = migrated f e cps hour t in
        elim (Option-cases (place f e t' nodes hour)) [
          | inl nowhere ↦ rw (nowhere_round used t ts nowhere) (steal_from-Fresh used ts many)
          | inr (p, placed) ↦
              let (best, is_best, on) = place-IsBest f order e t' nodes hour p placed in
              let (has, free) = (Has-select_iff _ best hs).0 is_best.present in
              let (apart, unused) = steal_from-Fresh (add p.node_id used) ts many in
              rw (placed_round used t ts p placed) (
                (unused p.node_id (rw (member-add, eq_refl)), apart),
                λ k h.
                    still_fresh p.node_id k used _
                      (unused_before p.node_id best.node_id used hs on.0 many free) h unused,
              )
        ]

  -- Where the comparison of scores is an order: `steal` answers each orphaned task in turn. With
  -- the progress and the state of its checkpoint it runs on a healthy node that may run it, or
  -- waits with no node.
  pub steal-AllSettled :
      (orphaned_tasks : List TaskSpec) (available_nodes : List Node)
      → AllSettled
          (select (λ n. same_state n.state healthy) available_nodes)
          orphaned_tasks
          (steal f e cps hour orphaned_tasks available_nodes)
  unfolding steal
  steal-AllSettled orphaned_tasks available_nodes = steal_from-AllSettled _ [] orphaned_tasks

  -- Where the comparison of scores is an order, and unless just one node is healthy: no two stolen
  -- tasks go to the same node.
  pub steal_spreads :
      (orphaned_tasks : List TaskSpec) (available_nodes : List Node)
      → length (select (λ n. same_state n.state healthy) available_nodes) ≢ 1
      → Distinct (placed_on (steal f e cps hour orphaned_tasks available_nodes))
  unfolding steal Fresh
  steal_spreads orphaned_tasks available_nodes many =
      (steal_from-Fresh (select (λ n. same_state n.state healthy) available_nodes) [] orphaned_tasks
        many).0
