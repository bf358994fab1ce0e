-- ===== src/Jobs/Keeps.antt =====
-- What starting and ending tasks leaves of the keys and the jobs.
use cluster_mesh.Prelude.{
  ℕ, String, Bool, true, false, Option, none, some, List, [], ◌∷◌, ◌≡◌, refl, ◌∙◌, arith, ltb,
  length, if◌then◌else◌,
}
use cluster_mesh.Prelude.Dict.{Dict, put, has, member, get-put}
use cluster_mesh.Models.{TaskSpec, failed, Job, JobState}
use cluster_mesh.Recovery.Replication.{on_replica_failure}
use cluster_mesh.Jobs.Manager.{JobManager, set_task, set_job, persist_job, persist_task, job_specs}
use cluster_mesh.Jobs.Outcome.{forget_run, on_task_failed}
use cluster_mesh.Jobs.Dispatch.{Agents, dispatch, dispatch_remote, refused, start_local_execution}
use cluster_mesh.Jobs.Death.{store_placed}
use cluster_mesh.Jobs.Submit.{store_specs, start_all}

-- Every key is kept, and every job that is there stays there.
pub record Keeps (m n : JobManager) : Type 0 where
  pub keys : m.idempotency ≡ n.idempotency
  pub jobs : (id : String) → has id m.jobs ≡ true → has id n.jobs ≡ true

has-put :
    (id : String) (job : Job) (d : Dict Job)
    → has id d ≡ true
    → has id (put job.job_id job d) ≡ true
has-put id job d h = ground (arith, get-put job.job_id id job d)

pub persist_job-Keeps : (job : Job) (m : JobManager) → Keeps m (persist_job job m)
unfolding persist_job
persist_job-Keeps job m = ground arith

persist_task-Keeps : (task : TaskSpec) (m : JobManager) → Keeps m (persist_task task m)
unfolding persist_task
persist_task-Keeps task m = ground arith

pub Keeps-trans : (l m n : JobManager) → Keeps l m → Keeps m n → Keeps l n
Keeps-trans l m n a b = record { keys = a.keys ∙ b.keys; jobs = λ id h. b.jobs id (a.jobs id h) }

pub set_job-Keeps : (job : Job) (m : JobManager) → Keeps m (set_job job m)
set_job-Keeps job m = record { keys = refl; jobs = λ id h. has-put id job m.jobs h }

forget_run-Keeps : (id : String) (m : JobManager) → Keeps m (forget_run id m)
unfolding forget_run
forget_run-Keeps id m = record { keys = refl; jobs = λ j h. h }

-- A job that is set and written down, with its task.
settle-Keeps :
    (job : Job) (spec : TaskSpec) (m : JobManager)
    → Keeps m (persist_job job (persist_task spec (set_job job m)))
settle-Keeps job spec m = Keeps-trans m _ _ (set_job-Keeps job m) (
    Keeps-trans _ _ _ (persist_task-Keeps spec (set_job job m))
      (persist_job-Keeps job (persist_task spec (set_job job m))))

if_Keeps : (b : Bool) (m x y : JobManager) → Keeps m x → Keeps m y → Keeps m (if b then x else y)
if_Keeps true m x y h k = h
if_Keeps false m x y h k = k

elim_Keeps :
    {A : Type 0} (o : Option A) (m x : JobManager) (g : A → JobManager)
    → Keeps m x
    → ((a : A) → Keeps m (g a))
    → Keeps m (elim o as (λ _. JobManager) [ none ↦ x | some a ↦ g a ])
elim_Keeps none m x g h k = h
elim_Keeps (some a) m x g h k = k a

Keeps-refl : (m : JobManager) → Keeps m m
Keeps-refl m = record { keys = refl; jobs = λ id h. h }

on_task_failed-Keeps :
    (spec : TaskSpec) (job : Job) (error : String) (m : JobManager)
    → Keeps m (on_task_failed spec job error m)
unfolding on_task_failed
on_task_failed-Keeps spec job error m =
    let m₁ = forget_run spec.task_id m in
    let (goes_on, job') = on_replica_failure job spec (job_specs job.job_id m₁) in
    let single : Job = record job { state = JobState.failed; error = some error } in
    Keeps-trans m m₁ _ (forget_run-Keeps spec.task_id m) (
      if_Keeps (ltb 1 (length (job_specs job.job_id m₁))) m₁ _ _
        (if_Keeps goes_on m₁ _ _ (settle-Keeps job' spec m₁) (set_job-Keeps job' m₁))
        (settle-Keeps single spec m₁))

refused-Keeps :
    (spec : TaskSpec) (job : Job) (message : String) (m : JobManager)
    → Keeps m (refused true spec job message m)
unfolding refused
refused-Keeps spec job message m =
    let spec' : TaskSpec = record spec { state = failed } in
    let after = on_task_failed-Keeps spec' job message (set_task spec' m) in
    record { keys = after.keys; jobs = after.jobs }

start_local_execution-Keeps :
    (spec : TaskSpec) (m : JobManager) → Keeps m (start_local_execution spec m)
unfolding start_local_execution
start_local_execution-Keeps spec m = elim_Keeps spec.fn m m _ (Keeps-refl m) (λ fn.
    if_Keeps (member spec.task_id m.running) m _ _ (Keeps-refl m)
      (record { keys = refl; jobs = λ id h. h }))

dispatch_remote-Keeps :
    (agents : Agents) (node : String) (spec : TaskSpec) (job : Job) (m : JobManager)
    → Keeps m (dispatch_remote true agents node spec job m)
unfolding dispatch_remote
dispatch_remote-Keeps agents node spec job m =
    if_Keeps (member spec.task_id m.running) m _ _ (Keeps-refl m) (
      elim_Keeps (agents node spec.task_id) m _ _ (record { keys = refl; jobs = λ id h. h })
        (λ message.
          let k = refused-Keeps spec job message _ in record { keys = k.keys; jobs = k.jobs }))

dispatch-Keeps :
    (agents : Agents) (now : ℕ) (spec : TaskSpec) (job : Job) (m : JobManager)
    → Keeps m (dispatch true agents now spec job m)
unfolding dispatch
dispatch-Keeps agents now spec job m =
    let m₁ : JobManager = record m { start_times = put spec.task_id now m.start_times } in
    let local = start_local_execution-Keeps spec m₁ in
    let k = elim_Keeps spec.assigned_node m₁ _ _ local (λ node.
      if_Keeps (member node m.remotes) m₁ _ _ (dispatch_remote-Keeps agents node spec job m₁)
        local) in
    record { keys = k.keys; jobs = k.jobs }

pub start_all-Keeps :
    (agents : Agents) (now : ℕ) (job : Job) (l : List (TaskSpec × Option String)) (m : JobManager)
    → Keeps m (start_all agents now job l m)
unfolding start_all
start_all-Keeps agents now job [] m = record { keys = refl; jobs = λ id h. h }
start_all-Keeps agents now job ((spec, none) ∷ l) m =
    Keeps-trans m _ _ (persist_task-Keeps spec m)
      (start_all-Keeps agents now job l (persist_task spec m))
start_all-Keeps agents now job ((spec, some node) ∷ l) m =
    Keeps-trans m _ _ (persist_task-Keeps spec m) (
      Keeps-trans _ _ _ (dispatch-Keeps agents now spec _ (persist_task spec m))
        (start_all-Keeps agents now job l _))

pub store_placed-Keeps :
    (l : List (TaskSpec × Option String)) (m : JobManager) → Keeps m (store_placed l m)
unfolding store_placed
store_placed-Keeps [] m = Keeps-refl m
store_placed-Keeps ((spec, placed) ∷ l) m =
    let k = store_placed-Keeps l (set_task spec m) in record { keys = k.keys; jobs = k.jobs }

pub store_specs-Keeps : (l : List TaskSpec) (m : JobManager) → Keeps m (store_specs l m)
unfolding store_specs
store_specs-Keeps [] m = Keeps-refl m
store_specs-Keeps (spec ∷ l) m =
    let k = store_specs-Keeps l (set_task spec m) in record { keys = k.keys; jobs = k.jobs }
