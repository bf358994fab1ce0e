-- ===== src/Api/Notebook/Runs.antt =====
-- The API offers notebooks on the mesh exactly when the job manager would take a cell.
use mathlib.Core.Path.{subst}
use cluster_mesh.Prelude.{
  ℕ, String, Bool, true, false, ◌&&◌, Option, none, some, List, [], ◌∷◌, ◌≡◌, refl, sym, ◌∙◌, ◌↔◌,
  ap, Option-cases, inl, inr,
}
use cluster_mesh.Prelude.Sort.{Has, Has-select_iff}
use cluster_mesh.Models.{Node, TaskSpec, healthy, same_state}
use cluster_mesh.Scheduler.Scoring.{Float, score}
use cluster_mesh.Scheduler.Placement.{PlacementEngine, Placement, place}
use cluster_mesh.Scheduler.Placement.Best.{IsOrdered, place-IsBest, place-eq-none_iff, admits}
use cluster_mesh.Driver.Live.{admitted_healthy}
use cluster_mesh.Jobs.Manager.{JobManager}
use cluster_mesh.Jobs.Dispatch.{Agents}
use cluster_mesh.Jobs.Named.{submit_notebook_cell, send_cell, simple_spec}
use cluster_mesh.Api.Notebook.{notebook_task_spec, is_some, runs_on, notebook_runnable_nodes}

module _ (f : Float) (order : IsOrdered f) (e : PlacementEngine) (hour : ℕ) (task : TaskSpec) where
  open f use {zero_f, le}

  -- A node that is allowed and scores above zero.
  abbrev Worthy : Node → Type 0
  Worthy n =
      (admits e task hour n ≡ true) × (le (score f e.scorer n task.requirements) zero_f ≡ false)

  place-some_iff :
      (nodes : List Node)
      → ((p : Placement f) × (place f e task nodes hour ≡ some p))
        ↔ ((n : Node) × Has n nodes × Worthy n)
  place-some_iff nodes = (
    λ (p, found).
        let (best, is_best, placed) = place-IsBest f order e task nodes hour p found in
        (best, is_best.present, (is_best.allowed, ap (λ x. le x zero_f) (sym placed.2) ∙ placed.3)),
    λ (n, has, worthy). elim (Option-cases (place f e task nodes hour)) [
      | inl nothing ↦
          let low = (place-eq-none_iff f order e task nodes hour).0 nothing n has worthy.0 in
          absurd (not_both (sym low ∙ worthy.1))
      | inr found ↦ found
    ],
  )
    where
      not_both : true ≡ false → ⊥
      not_both h = cc h

is_some_iff : {A : Type 0} (o : Option A) → (is_some o ≡ true) ↔ ((a : A) × (o ≡ some a))
is_some_iff none = (λ h. absurd (cc h), λ (a, e). absurd (cc e))
is_some_iff (some a) = (λ h. (a, refl), λ h. refl)

-- The task of a cell.
abbrev cell_spec : (code language task_id job_id : String) → TaskSpec
cell_spec code language task_id job_id =
    simple_spec "notebook.exec" task_id job_id 500 false 1_000
      (("code", code) ∷ ("language", language) ∷ [])

send_cell_iff :
    (f : Float) (e : PlacementEngine) (hour : ℕ) (agents : Agents) (live : List Node)
    (code language task_id job_id : String) (m : JobManager)
    → ((id : String) × ((submit_notebook_cell f e hour agents live code language task_id job_id m).0
          ≡ some id))
      ↔ ((p : Placement f) × (place f e (cell_spec code language task_id job_id) live hour
            ≡ some p))
unfolding submit_notebook_cell send_cell
send_cell_iff f e hour agents live code language task_id job_id m =
    elim (Option-cases (place f e (cell_spec code language task_id job_id) live hour)) [
      | inl nothing ↦ rw nothing (λ (id, h). absurd (cc h), λ (p, h). absurd (cc h))
      | inr (p, found) ↦ rw found (λ (id, h). (p, refl), λ (q, h). (job_id, refl))
    ]

both : (a b : Bool) → a && b ≡ true → (a ≡ true) × (b ≡ true)
both true b h = (refl, h)
both false b h = absurd (cc h)

-- The one node of a list is in another list.
the_one : {n m : Node} (live : List Node) → Has m (n ∷ []) → Has n live → Has m live
the_one live (inl e) listed = subst (λ x. Has x live) e listed
the_one live (inr h) listed = elim h [ ]

-- Where the comparison of scores is an order: the API reports some node as ready for notebooks exactly
-- when submit_notebook_cell would find a worker for a cell, whatever its code, among the same live nodes.
pub runnable-submit_notebook_cell_iff :
    (f : Float) (e : PlacementEngine) (hour : ℕ) (agents : Agents) (live : List Node)
    (code language probe_id task_id job_id : String) (m : JobManager)
    → IsOrdered f
    → ((n : Node) × Has n (notebook_runnable_nodes f e hour probe_id live)) ↔ (
        (id : String) × ((submit_notebook_cell f e hour agents live code language task_id job_id
            m).0
          ≡ some id))
unfolding notebook_runnable_nodes
runnable-submit_notebook_cell_iff f e hour agents live code language probe_id task_id job_id m
      order =
    let probe = notebook_task_spec probe_id in
    let spec = cell_spec code language task_id job_id in
    let sent = send_cell_iff f e hour agents live code language task_id job_id m in
    let all = place-some_iff f order e hour spec live in
    let alone = λ (n : Node). place-some_iff f order e hour probe (n ∷ []) in
    let tested = λ (n : Node). Has-select_iff (runs_on f e hour probe_id) n live in
    (
      λ (n, has).
          let (listed, ok) = (tested n).0 has in
          let (ready, placed) = both _ _ ok in
          let (m', only, worthy) = (alone n).0 ((is_some_iff _).0 placed) in
          sent.1 (all.1 (m', the_one live only listed, worthy)),
      λ found.
          let (n, has, worthy) = all.0 (sent.0 found) in
          let ready : same_state n.state healthy ≡ true =
            rw (admitted_healthy e spec hour n worthy.0) refl in
          let placed = (is_some_iff _).1 ((alone n).1 (n, inl refl, worthy)) in
          (n, (tested n).1 (has, rw (ready, placed) refl)),
    )
