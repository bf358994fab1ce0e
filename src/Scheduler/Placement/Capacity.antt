-- ===== src/Scheduler/Placement/Capacity.antt =====
-- `place_all` never gives away more of a node than the node has.
use mathlib.Core.Path.{subst}
use native.Mathlib.Nat.{add_assoc, zero-add}
use cluster_mesh.Prelude.{
  ℕ, ◌+◌, ◌≤◌, String, ◌≡◌, sym, ap, ◌∙◌, true, Option, none, some, List, [], ◌∷◌, arith, All,
  sum_of, ◌==◌, eq_iff, Option-cases, Bool-cases, inl, inr, if◌then◌else◌,
}
use cluster_mesh.Prelude.Dict.{get, get-put}
use cluster_mesh.Prelude.Sort.{Has, Has-map, All_at}
use cluster_mesh.Models.{Node, TaskSpec, ResourceRequirements, meets_requirements}
use cluster_mesh.Scheduler.Scoring.{Float}
use cluster_mesh.Scheduler.Placement.{
  PlacementEngine, Placement, Usage, used_on, apply_usage, apply_usage_to, place, add_usage,
  place_from, place_all,
}
use cluster_mesh.Scheduler.Placement.Best.{IsOrdered, place-IsBest, admits}

-- The first of the tasks with the id.
abbrev pub find_task : String → List TaskSpec → Option TaskSpec
find_task id [] = none
find_task id (t ∷ ts) = if t.task_id == id then some t else find_task id ts

abbrev pub needs : (ResourceRequirements → ℕ) → Option TaskSpec → ℕ
needs what none = 0
needs what (some t) = what t.requirements

abbrev pub cores_of : ResourceRequirements → ℕ
cores_of req = req.cpu_cores

abbrev pub ram_of : ResourceRequirements → ℕ
ram_of req = req.ram_gb

-- What the placements on a node ask for in total.
unfoldable pub load :
    (f : Float) → (ResourceRequirements → ℕ) → List TaskSpec → String → List (Placement f) → ℕ
load f what all id =
    sum_of (λ p. if p.node_id == id then needs what (find_task p.task_id all) else 0)

-- A node that meets the requirements has that much free.
meets_requirements_free :
    (n : Node) (req : ResourceRequirements)
    → meets_requirements n req ≡ true
    → (req.cpu_cores ≤ n.resources.cpu_cores_free) × (req.ram_gb ≤ n.resources.ram_gb_free)
unfolding meets_requirements
meets_requirements_free n req h = (cpu, ram)
  where
    cpu : req.cpu_cores ≤ n.resources.cpu_cores_free
    cpu = ground arith

    ram : req.ram_gb ≤ n.resources.ram_gb_free
    ram = ground arith

-- Every node of that id has at most so many free cores and so much free memory.
abbrev pub HasAtMost : String → ℕ → ℕ → Node → Type 0
HasAtMost id cores ram n =
    n.node_id ≡ id → (n.resources.cpu_cores_free ≤ cores) × (n.resources.ram_gb_free ≤ ram)

module _ (f : Float) (order : IsOrdered f) (e : PlacementEngine) (nodes : List Node) (hour : ℕ)
    (id : String) (cores ram : ℕ) (bound : All (HasAtMost id cores ram) nodes) where
  abbrev Within : ℕ × ℕ → Type 0
  Within used = (used.0 ≤ cores) × (used.1 ≤ ram)

  node_room :
      (usage : Usage) (task : TaskSpec) (n : Node)
      → Has n nodes
      → n.node_id ≡ id
      → meets_requirements (apply_usage_to usage n) task.requirements ≡ true
      → Within (used_on id usage)
      → ((used_on id usage).0 + task.requirements.cpu_cores ≤ cores)
        × ((used_on id usage).1 + task.requirements.ram_gb ≤ ram)
  unfolding apply_usage_to
  node_room usage task n has named ok within =
      let (most_cores, most_ram) = All_at (HasAtMost id cores ram) n nodes bound has named in
      let (cpu_fits, ram_fits) =
        meets_requirements_free (apply_usage_to usage n) task.requirements ok in
      let here = ap (λ (k : String). used_on k usage) named in
      (ground (arith, ap (λ (u : ℕ × ℕ). u.0) here), ground (arith, ap (λ (u : ℕ × ℕ). u.1) here))

  place_room :
      (usage : Usage) (task : TaskSpec) (p : Placement f)
      → place f e task (apply_usage nodes usage) hour ≡ some p
      → p.node_id ≡ id
      → Within (used_on id usage)
      → ((used_on id usage).0 + task.requirements.cpu_cores ≤ cores)
        × ((used_on id usage).1 + task.requirements.ram_gb ≤ ram)
  unfolding apply_usage
  place_room usage task p placed named within =
      let (best, is_best, placed_on) =
        place-IsBest f order e task (apply_usage nodes usage) hour p placed in
      let (n, has, same) = Has-map (apply_usage_to usage) best nodes is_best.present in
      node_room usage task n has (ap (λ (m : Node). m.node_id) same ∙ sym placed_on.0 ∙ named)
        (subst (λ m. meets_requirements m task.requirements ≡ true) (sym same)
          (allowed best is_best.allowed))
        within
    where
      allowed :
          (best : Node)
          → admits e task hour best ≡ true
          → meets_requirements best task.requirements ≡ true
      allowed best h = ground arith

  placed_nowhere :
      (usage : Usage) (task : TaskSpec) (tasks : List TaskSpec)
      → place f e task (apply_usage nodes usage) hour ≡ none
      → place_from f e nodes hour usage (task ∷ tasks) ≡ place_from f e nodes hour usage tasks
  unfolding place_from
  placed_nowhere usage task tasks h = rw (h, place_from)

  placed_somewhere :
      (usage : Usage) (task : TaskSpec) (tasks : List TaskSpec) (p : Placement f)
      → place f e task (apply_usage nodes usage) hour ≡ some p
      → place_from f e nodes hour usage (task ∷ tasks)
        ≡ p ∷ place_from f e nodes hour (add_usage f task p.node_id usage) tasks
  unfolding place_from
  placed_somewhere usage task tasks p h = rw (h, place_from)

  -- The usage and the placements still to come stay within the bound.
  abbrev Fits : List TaskSpec → Usage → List (Placement f) → Type 0
  Fits all usage ps =
      ((used_on id usage).0 + load f cores_of all id ps ≤ cores)
      × ((used_on id usage).1 + load f ram_of all id ps ≤ ram)

  used_after :
      (usage : Usage) (task : TaskSpec) (k : String)
      → used_on id (add_usage f task k usage) ≡ (
          if k == id
          then (
            (used_on id usage).0 + task.requirements.cpu_cores,
            (used_on id usage).1 + task.requirements.ram_gb,
          )
          else used_on id usage)
  unfolding add_usage
  used_after usage task k = ground (
    arith,
    get-put k id
        (
          (used_on k usage).0 + task.requirements.cpu_cores,
          (used_on k usage).1 + task.requirements.ram_gb,
        )
        usage,
    eq_iff k id,
  )

  Fits-cons :
      (all : List TaskSpec) (usage : Usage) (task : TaskSpec) (p : Placement f)
      (ps : List (Placement f))
      → find_task p.task_id all ≡ some task
      → Fits all (add_usage f task p.node_id usage) ps
      → Fits all usage (p ∷ ps)
  unfolding load sum_of
  Fits-cons all usage task p ps known fits = elim (Bool-cases (p.node_id == id)) [
    | inl on_it ↦
        let used = rw on_it at (used_after usage task p.node_id) in
        rw (on_it, known) (rw (used, add_assoc, add_assoc) at fits)
    | inr off_it ↦
        let used = rw off_it at (used_after usage task p.node_id) in
        rw (off_it, zero-add, zero-add) (rw used at fits)
  ]

  named :
      (task : TaskSpec) (usage : Usage) (p : Placement f)
      → place f e task (apply_usage nodes usage) hour ≡ some p
      → p.task_id ≡ task.task_id
  named task usage p placed =
      let (best, is_best, on) =
        place-IsBest f order e task (apply_usage nodes usage) hour p placed in
      on.1

  room :
      (task : TaskSpec) (usage : Usage) (p : Placement f)
      → place f e task (apply_usage nodes usage) hour ≡ some p
      → Within (used_on id usage)
      → Within (used_on id (add_usage f task p.node_id usage))
  room task usage p placed within = elim (Bool-cases (p.node_id == id)) [
    | inl on_it ↦
        rw (used_after, on_it)
          (place_room usage task p placed ((eq_iff p.node_id id).0 on_it) within)
    | inr off_it ↦ rw (used_after, off_it) within
  ]

  place_from-Fits :
      (all tasks : List TaskSpec) (usage : Usage)
      → All (λ t. find_task t.task_id all ≡ some t) tasks
      → Within (used_on id usage)
      → Fits all usage (place_from f e nodes hour usage tasks)
  unfolding place_from load sum_of
  place_from-Fits all [] usage known within = (omega arith, omega arith)
  place_from-Fits all (task ∷ tasks) usage known within =
      elim (Option-cases (place f e task (apply_usage nodes usage) hour)) [
        | inl nowhere ↦
            rw (placed_nowhere usage task tasks nowhere)
              (place_from-Fits all tasks usage known.1 within)
        | inr (p, placed) ↦ rw (placed_somewhere usage task tasks p placed) (
            Fits-cons all usage task p _
              (ap (λ k. find_task k all) (named task usage p placed) ∙ known.0)
              (place_from-Fits all tasks (add_usage f task p.node_id usage) known.1
                (room task usage p placed within)))
      ]

  -- Where the comparison of scores is an order and the tasks have ids of their own: the tasks that
  -- `place_all` puts on a node ask together for no more cores and no more memory than any bound on
  -- what the nodes of that id have free.
  pub place_all-capacity :
      (tasks : List TaskSpec)
      → All (λ t. find_task t.task_id tasks ≡ some t) tasks
      → (load f cores_of tasks id (place_all f e tasks nodes hour) ≤ cores)
        × (load f ram_of tasks id (place_all f e tasks nodes hour) ≤ ram)
  unfolding place_all get
  place_all-capacity tasks known =
      let fits = place_from-Fits tasks tasks [] known (omega arith) in
      rw (zero-add, zero-add) at fits
