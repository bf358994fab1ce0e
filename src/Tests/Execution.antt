-- ===== src/Tests/Execution.antt =====
-- A context that saves every 5 s, and a submission.
use cluster_mesh.Prelude.{◌≡◌, refl, arith, [], ◌∷◌, some, none, true, select, Option, String}
use cluster_mesh.Prelude.Dict.{Dict, get, values, member, discard}
use cluster_mesh.Models.{TaskSpec, running}
use cluster_mesh.Recovery.Stealing.{find_orphaned_tasks}
use cluster_mesh.Execution.Context.{TaskContext, fresh, set_progress, restore_from_checkpoint}
use cluster_mesh.Execution.Progress.{InStep, set_progress-InStep, interrupted-restores}
use cluster_mesh.Jobs.Manager.{JobManager}
use cluster_mesh.Jobs.Death.{oldest_first, pause_running, handle_node_death}
use cluster_mesh.Jobs.Stranded.{handle_node_death_strands}
use cluster_mesh.Jobs.Submit.{register_mesh_task, submit}
use cluster_mesh.Jobs.Idempotency.{submit_again}
use cluster_mesh.Tests.Data.{millionths, engine, nodes, task, manager}

abbrev job_task : TaskSpec
job_task = record (task "t" 1_000 running none) { progress = 0 }

abbrev context : TaskContext
context = record (fresh job_task []) { state = ("sum", "6") ∷ [] }

started : InStep context
started = record { same = refl; bounded = omega arith }

set_progress-InStep_example : InStep (set_progress 9_000 250 (("sum", "9") ∷ []) context).1
set_progress-InStep_example = set_progress-InStep 9_000 250 (("sum", "9") ∷ []) context started

abbrev stopped : TaskContext
stopped = record context { interrupt = true; progress = 40 }

interrupted-restores_example :
    ((set_progress 9_000 50 [] stopped).0 ≡ true)
    × ((restore_from_checkpoint
          (fresh job_task (set_progress 9_000 50 [] stopped).1.checkpoints)).1.progress
        ≡ 40)
    × ((restore_from_checkpoint
          (fresh job_task (set_progress 9_000 50 [] stopped).1.checkpoints)).1.state
        ≡ ("sum", "6") ∷ [])
interrupted-restores_example = interrupted-restores 9_000 50 [] stopped job_task refl refl

-- A task that runs on the remote node "x".
abbrev away : JobManager
away = record (manager ("t" ∷ []) (("t", task "t" 1_000 running (some "x")) ∷ [])) {
  remotes = "x" ∷ "a" ∷ [];
}

handle_node_death_strands_example :
    ((handle_node_death millionths engine 12 9 (λ node id. none) nodes [] "x" away).signals
      ≡ (pause_running "x" (oldest_first ("t" ∷ [])) (record away { remotes = "a" ∷ [] })).signals)
    × ((handle_node_death millionths engine 12 9 (λ node id. none) nodes [] "x" away).running
        ≡ "t" ∷ [])
unfolding find_orphaned_tasks select values member discard
handle_node_death_strands_example =
    handle_node_death_strands millionths engine 12 9 (λ node id. none) nodes "x" away (refl, tt)

abbrev empty : JobManager
empty = record (manager [] []) { jobs = []; job_tasks = []; running = []; tasks = [] }

abbrev first : Option String × Dict String × JobManager
first =
    submit millionths engine 12 9 (λ node id. none) nodes "fit" job_task 1 (some "k") "j1" [] []
      empty

submit_again_example :
    (first.0 ≡ some "j1")
    × (submit millionths engine 12 9
          (λ node id. none)
          nodes
          "fit_again"
          job_task
          1
          (some "k")
          "j2"
          []
          first.1
          first.2
        ≡ (some "j1", register_mesh_task job_task.name "fit_again" first.1, first.2))
unfolding get
submit_again_example =
    submit_again millionths engine 12 9 (λ node id. none) nodes "fit" job_task 1 "k" "j1" [] []
      empty "fit_again" job_task 1 "j2" [] refl refl
