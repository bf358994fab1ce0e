-- ===== src/Jobs/Dispatch.antt =====
-- `_dispatch`, `_dispatch_remote` and `_start_local_execution`. What a remote agent answers to an
-- assignment is a parameter: nothing where it accepts, else the message or the exception's text.
use cluster_mesh.Prelude.{ℕ, String, Bool, Option, none, some, if◌then◌else◌}
use cluster_mesh.Prelude.Dict.{put, member, add, discard}
use cluster_mesh.Models.{TaskSpec, failed, Job}
use cluster_mesh.Jobs.Manager.{JobManager, assign_remote, start_thread, signal, set_task}
use cluster_mesh.Jobs.Outcome.{on_task_failed}

abbrev pub Agents : Type 0
Agents = (node_id task_id : String) → Option String

unfoldable pub start_local_execution : TaskSpec → JobManager → JobManager
start_local_execution spec m = elim spec.fn [
  | none ↦ m
  | some _ ↦
      if member spec.task_id m.running
      then m
      else signal (start_thread spec.task_id) (record m { running = add spec.task_id m.running })
]

-- What a refused assignment leads to. `shared` says whether `spec` is the object in `tasks`.
unfoldable pub refused : Bool → TaskSpec → Job → String → JobManager → JobManager
refused shared spec job message m =
    let spec' : TaskSpec = record spec { state = failed } in
    let m' = on_task_failed spec' job message (if shared then set_task spec' m else m) in
    record m' { running = discard spec.task_id m'.running }

unfoldable pub dispatch_remote : Bool → Agents → String → TaskSpec → Job → JobManager → JobManager
unfolding refused
dispatch_remote shared agents node spec job m =
    let m₁ =
      signal (assign_remote node spec.task_id)
        (record m { running = add spec.task_id m.running }) in
    let after = elim (agents node spec.task_id) as (λ _. JobManager) [
      | none ↦ m₁
      | some message ↦ refused shared spec job message m₁
    ] in
    if member spec.task_id m.running then m else after

unfoldable pub dispatch : Bool → Agents → ℕ → TaskSpec → Job → JobManager → JobManager
unfolding dispatch_remote start_local_execution
dispatch shared agents now spec job m =
    let m₁ : JobManager = record m { start_times = put spec.task_id now m.start_times } in
    elim spec.assigned_node [
      | none ↦ start_local_execution spec m₁
      | some node ↦
          if member node m.remotes
          then dispatch_remote shared agents node spec job m₁
          else start_local_execution spec m₁
    ]
