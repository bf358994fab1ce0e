-- ===== src/Jobs/Manager.antt =====
-- The state of `JobManager`, what it persists and whom it signals. A `TaskSpec` or a `Job` object is
-- its entry in `tasks` or `jobs`: whoever holds the object's id sees every change to it. Signals to
-- threads and to remote agents are written down in `signals`, in order.
use cluster_mesh.Prelude.{ℕ, String, Bool, Option, none, some, List, [], ◌∷◌, ◌++◌, if◌then◌else◌}
use cluster_mesh.Prelude.Dict.{Dict, get, put, member}
use cluster_mesh.Models.{TaskSpec, Job, Checkpoint}
use cluster_mesh.Recovery.Checkpoints.{Checkpoints, load}

-- What a `StateStore` holds. A task comes back from it without its callable; in which order a store
-- lists its rows is left open by the source, and here is the order of their first writing.
pub record Store : Type 0 where
  pub jobs : Dict Job
  pub tasks : Dict TaskSpec
  pub checkpoints : Dict Checkpoint

pub data Signal : Type 0 where
  interrupt : (task_id : String) → Signal
  pause_remote : (node_id task_id : String) → Signal
  cancel_remote : (node_id task_id : String) → Signal
  assign_remote : (node_id task_id : String) → Signal
  start_thread : (task_id : String) → Signal

-- `remotes` are the nodes with a remote agent, `leads` is what `_can_write()` answers.
pub record JobManager : Type 0 where
  pub jobs : Dict Job
  pub job_tasks : Dict (List String)
  pub idempotency : Dict String
  pub running : List String
  pub tasks : Dict TaskSpec
  pub start_times : Dict ℕ
  pub speculative : Dict String
  pub checkpoints : Checkpoints
  pub remotes : List String
  pub state_store : Option Store
  pub leads : Bool
  pub signals : List Signal

abbrev pub signal : Signal → JobManager → JobManager
signal s m = record m { signals = m.signals ++ s ∷ [] }

abbrev pub set_task : TaskSpec → JobManager → JobManager
set_task spec m = record m { tasks = put spec.task_id spec m.tasks }

abbrev pub set_job : Job → JobManager → JobManager
set_job job m = record m { jobs = put job.job_id job m.jobs }

-- `store.save_job` and `store.save_task`
abbrev pub save_job : Job → Store → Store
save_job job s = record s { jobs = put job.job_id job s.jobs }

abbrev pub save_task : TaskSpec → Store → Store
save_task task s = record s { tasks = put task.task_id (record task { fn = none }) s.tasks }

abbrev pub save_checkpoint : Option Checkpoint → Store → Store
save_checkpoint none s = s
save_checkpoint (some cp) s = record s { checkpoints = put cp.task_id cp s.checkpoints }

abbrev pub on_store : (Store → Store) → JobManager → JobManager
on_store write m = elim m.state_store [
  | none ↦ m
  | some s ↦ if m.leads then record m { state_store = some (write s) } else m
]

unfoldable pub persist_job : Job → JobManager → JobManager
persist_job job m = on_store (save_job job) m

unfoldable pub persist_task : TaskSpec → JobManager → JobManager
unfolding load
persist_task task m =
    on_store (λ s. save_checkpoint (load task.task_id m.checkpoints) (save_task task s)) m

-- Whom to signal: the remote agent of the task's node, or the local executor.
abbrev pub cancel_signal : JobManager → TaskSpec → Signal
cancel_signal m spec = elim spec.assigned_node [
  | none ↦ interrupt spec.task_id
  | some node ↦
      if member node m.remotes then cancel_remote node spec.task_id else interrupt spec.task_id
]

-- What the calls of remote agents to cancel a task come to: nothing where the call returns, else the
-- text of its exception.
abbrev pub Cancels : Type 0
Cancels = (node_id task_id : String) → Option String

abbrev pub cancel_error : Cancels → List String → TaskSpec → Option String
cancel_error cancels remotes spec = elim spec.assigned_node [
  | none ↦ none
  | some node ↦ if member node remotes then cancels node spec.task_id else none
]

-- The call is made in any case; an exception of it leaves the method.
unfoldable pub cancel_task : Cancels → TaskSpec → JobManager → Option String × JobManager
cancel_task cancels spec m = (cancel_error cancels m.remotes spec, signal (cancel_signal m spec) m)

-- The same for a pause, whose call is taken to return.
abbrev pub pause_signal : JobManager → TaskSpec → Signal
pause_signal m spec = elim spec.assigned_node [
  | none ↦ interrupt spec.task_id
  | some node ↦
      if member node m.remotes then pause_remote node spec.task_id else interrupt spec.task_id
]

unfoldable pub pause_task : TaskSpec → JobManager → JobManager
pause_task spec m = signal (pause_signal m spec) m

-- The objects behind the ids in `_job_tasks`.
unfoldable pub specs_at : List String → Dict TaskSpec → List TaskSpec
specs_at [] tasks = []
specs_at (id ∷ ids) tasks = elim (get id tasks) [
  | none ↦ specs_at ids tasks
  | some spec ↦ spec ∷ specs_at ids tasks
]

-- `self._job_tasks.get(job_id, [])`
unfoldable pub job_specs : String → JobManager → List TaskSpec
unfolding specs_at
job_specs job_id m = elim (get job_id m.job_tasks) [ none ↦ [] | some ids ↦ specs_at ids m.tasks ]

-- The loop of `_find_job_for_task` over `_job_tasks`, and the method.
unfoldable pub owner_among : String → Dict (List String) → Option String
owner_among task_id [] = none
owner_among task_id ((job_id, ids) ∷ rest) =
    if member task_id ids then some job_id else owner_among task_id rest

unfoldable pub find_job_for_task : TaskSpec → JobManager → Option Job
unfolding owner_among
find_job_for_task spec m = elim spec.job_id [
  | some job_id ↦ get job_id m.jobs
  | none ↦ elim (owner_among spec.task_id m.job_tasks) [
    | none ↦ none
    | some job_id ↦ get job_id m.jobs
  ]
]
