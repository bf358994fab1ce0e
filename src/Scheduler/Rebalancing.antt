-- ===== src/Scheduler/Rebalancing.antt =====
-- `Rebalancer` of mesh/scheduler/rebalancing.py. Loads are Python floats: a type with the operations
-- that the code uses, given as a parameter.
use mathlib.Core.Path.{subst}
use cluster_mesh.Prelude.{
  ℕ, String, Bool, true, false, none, some, List, [], ◌∷◌, ◌++◌, map, ◌≡◌, ◌∙◌, refl, ap, arith,
  length, eqb, ltb, select, ◌==◌, if◌then◌else◌, Bool-cases, inl, inr, eq_iff, Option-cases,
}
use cluster_mesh.Prelude.Sort.{Has, Has-select_iff}
use cluster_mesh.Models.{Node, TaskSpec}

-- `load total free` is `(total - free) / total`, `mean` is `sum(l) / len(l)`, `exceeds u avg` is
-- `u - avg > variance_threshold`.
pub record Loads : Type 1 where
  pub F : Type 0
  pub load : ℕ → ℕ → F
  pub mean : List F → F
  pub exceeds : F → F → Bool

-- The reason is a text that the source formats for people.
pub record RebalanceAction : Type 0 where
  pub task_id : String
  pub from_node : String
  pub to_node : String

abbrev assigned_to : Node → TaskSpec → Bool
assigned_to n t = elim t.assigned_node [ none ↦ false | some id ↦ id == n.node_id ]

abbrev action : Node → TaskSpec → Node → RebalanceAction
action node task target = record {
  task_id = task.task_id;
  from_node = node.node_id;
  to_node = target.node_id;
}

module _ (f : Loads) where
  open f use {F, load, mean, exceeds}

  unfoldable pub utilizations : List Node → List (Node × F)
  utilizations [] = []
  utilizations (n ∷ ns) =
      let rest = utilizations ns in
      let total = n.resources.cpu_cores_total in
      if eqb total 0 then rest else (n, load total n.resources.cpu_cores_free) ∷ rest

  abbrev pub average : List (Node × F) → F
  average us = mean (map (λ (u : Node × F). u.1) us)

  abbrev pub overloaded : List (Node × F) → List (Node × F)
  overloaded us = select (λ (u : Node × F). exceeds u.1 (average us)) us

  abbrev pub underloaded : List (Node × F) → List (Node × F)
  underloaded us = select (λ (u : Node × F). exceeds (average us) u.1) us

  -- `node_tasks[:1]` with the target at `under_idx`, and how the targets go on.
  unfoldable pub pick :
      Node → List TaskSpec → List (Node × F) → List RebalanceAction × List (Node × F)
  pick node [] targets = ([], targets)
  pick node (task ∷ others) [] = ([], [])
  pick node (task ∷ others) ((target, u) ∷ targets) = (action node task target ∷ [], targets)

  -- The loop over the overloaded nodes; `targets` are those from `under_idx` on.
  unfoldable pub actions_from :
      List TaskSpec → List (Node × F) → List (Node × F) → List RebalanceAction
  unfolding pick
  actions_from tasks [] targets = []
  actions_from tasks ((node, u) ∷ over) targets =
      let (made, targets') = pick node (select (assigned_to node) tasks) targets in
      made ++ actions_from tasks over targets'

  unfoldable pub analyze : List Node → List TaskSpec → List RebalanceAction
  unfolding utilizations actions_from
  analyze nodes tasks =
      let us = utilizations nodes in
      if ltb (length nodes) 2 then [] else actions_from tasks (overloaded us) (underloaded us)

  abbrev target_ids : List (Node × F) → List String
  target_ids l = map (λ (u : Node × F). u.0.node_id) l

  abbrev pub targets_of : List RebalanceAction → List String
  targets_of l = map (λ (a : RebalanceAction). a.to_node) l

  -- The first of the lists starts the second.
  abbrev pub Starts : List String → List String → Type 0
  Starts [] l = Unit
  Starts (x ∷ xs) [] = ⊥
  Starts (x ∷ xs) (y ∷ ys) = (x ≡ y) × Starts xs ys

  pick-targets :
      (node : Node) (own : List TaskSpec) (targets : List (Node × F))
      (after : List (Node × F) → List RebalanceAction)
      → ((l : List (Node × F)) → Starts (targets_of (after l)) (target_ids l))
      → Starts
          (targets_of ((pick node own targets).0 ++ after (pick node own targets).1))
          (target_ids targets)
  unfolding pick
  pick-targets node [] targets after rest = rest targets
  pick-targets node (t ∷ own) [] after rest = rest []
  pick-targets node (t ∷ own) ((n, u) ∷ targets) after rest = (refl, rest targets)

  actions_from-targets :
      (tasks : List TaskSpec) (over targets : List (Node × F))
      → Starts (targets_of (actions_from tasks over targets)) (target_ids targets)
  unfolding actions_from
  actions_from-targets tasks [] targets = tt
  actions_from-targets tasks ((node, u) ∷ over) targets =
      pick-targets node (select (assigned_to node) tasks) targets (actions_from tasks over)
        (actions_from-targets tasks over)

  -- The targets of the moves are the underloaded nodes, each once and in their order, until the moves
  -- end.
  analyze_targets :
      (nodes : List Node) (tasks : List TaskSpec)
      → Starts (targets_of (analyze nodes tasks)) (target_ids (underloaded (utilizations nodes)))
  unfolding analyze
  analyze_targets nodes tasks = elim (Bool-cases (ltb (length nodes) 2)) [
    | inl few ↦ rw few tt
    | inr enough ↦ rw enough (actions_from-targets tasks _ _)
  ]

  abbrev pub Moves : List TaskSpec → List (Node × F) → RebalanceAction → Type 0
  Moves tasks over a =
      (task : TaskSpec) × (u : Node × F) × Has task tasks
      × Has u over
      × (task.task_id ≡ a.task_id)
      × (u.0.node_id ≡ a.from_node)
      × (task.assigned_node ≡ some a.from_node)

  assigned : (n : Node) (t : TaskSpec) → assigned_to n t ≡ true → t.assigned_node ≡ some n.node_id
  assigned n t h = elim (Option-cases t.assigned_node) [
    | inl e ↦ absurd (away e)
    | inr (id, e) ↦ e ∙ ap some ((eq_iff id n.node_id).0 (here_is id e))
  ]
    where
      away : t.assigned_node ≡ none → ⊥
      away e = ground arith

      here_is : (id : String) → t.assigned_node ≡ some id → id == n.node_id ≡ true
      here_is id e = ground arith

  -- The action that one round makes, and those of the later rounds.
  pick-sources :
      (node : Node) (tasks own : List TaskSpec) (over targets : List (Node × F)) (u : F)
      (after : List (Node × F) → List RebalanceAction) (a : RebalanceAction)
      → ((t : TaskSpec) → Has t own → Has t tasks × (assigned_to node t ≡ true))
      → ((l : List (Node × F)) → Has a (after l) → Moves tasks ((node, u) ∷ over) a)
      → Has a ((pick node own targets).0 ++ after (pick node own targets).1)
      → Moves tasks ((node, u) ∷ over) a
  unfolding pick
  pick-sources node tasks [] over targets u after a owned later k = later targets k
  pick-sources node tasks (t ∷ own) over [] u after a owned later k = later [] k
  pick-sources node tasks (t ∷ own) over ((n, l) ∷ targets) u after a owned later (inr k) =
      later targets k
  pick-sources node tasks (t ∷ own) over ((n, l) ∷ targets) u after a owned later (inl same) =
      let (listed, on_node) = owned t (inl refl) in
      (
        t,
        (node, u),
        listed,
        inl refl,
        ap (λ (b : RebalanceAction). b.task_id) same,
        ap (λ (b : RebalanceAction). b.from_node) same,
        assigned node t on_node ∙ ap (λ (b : RebalanceAction). some b.from_node) same,
      )

  later-Moves :
      (tasks : List TaskSpec) (over : List (Node × F)) (v : Node × F) (a : RebalanceAction)
      → Moves tasks over a
      → Moves tasks (v ∷ over) a
  later-Moves tasks over v a (task, w, listed, among, x, y, z) =
      (task, w, listed, inr among, x, y, z)

  actions_from-sources :
      (tasks : List TaskSpec) (over targets : List (Node × F)) (a : RebalanceAction)
      → Has a (actions_from tasks over targets)
      → Moves tasks over a
  unfolding actions_from
  actions_from-sources tasks [] targets a h = elim h [ ]
  actions_from-sources tasks ((node, u) ∷ over) targets a h =
      pick-sources node tasks (select (assigned_to node) tasks) over targets u
        (actions_from tasks over) a (λ t m. (Has-select_iff (assigned_to node) t tasks).0 m)
        (λ l k. later-Moves tasks over (node, u) a (actions_from-sources tasks over l a k)) h

  -- Each move takes a task off the node that it is assigned to, which is overloaded.
  analyze_sources :
      (nodes : List Node) (tasks : List TaskSpec) (a : RebalanceAction)
      → Has a (analyze nodes tasks)
      → Moves tasks (overloaded (utilizations nodes)) a
  unfolding analyze
  analyze_sources nodes tasks a h = elim (Bool-cases (ltb (length nodes) 2)) [
    | inl few ↦ absurd (subst (λ b. Has a (if b then [] else moves)) few h)
    | inr enough ↦
        actions_from-sources tasks _ _ a (subst (λ b. Has a (if b then [] else moves)) enough h)
  ]
    where
      moves : List RebalanceAction
      moves =
          actions_from tasks (overloaded (utilizations nodes)) (underloaded (utilizations nodes))
