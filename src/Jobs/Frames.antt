-- ===== src/Jobs/Frames.antt =====
-- What the parts of `JobManager`'s methods leave as it is.
use mathlib.Core.List.{append-nil, append_assoc}
use mathlib.Core.Path.{subst}
use cluster_mesh.Prelude.{
  String, ◌≡◌, refl, sym, inl, inr, ◌∙◌, false, none, some, All, Option-cases, List, [], ◌∷◌, ◌++◌,
  map, arith, eq_refl,
}
use cluster_mesh.Prelude.Dict.{get, get-put, get-remove, member, Distinct}
use cluster_mesh.Prelude.Sort.{Has}
use cluster_mesh.Models.{TaskSpec, failed, Job}
use cluster_mesh.Jobs.Manager.{
  JobManager, Cancels, signal, set_task, persist_job, persist_task, cancel_signal, cancel_error,
  cancel_task, job_specs,
}
use cluster_mesh.Jobs.Outcome.{forget_run, cancel_duplicate, cancel_all}

-- Everything but the durable store.
pub record SameMemory (m n : JobManager) : Type 0 where
  pub jobs : m.jobs ≡ n.jobs
  pub job_tasks : m.job_tasks ≡ n.job_tasks
  pub tasks : m.tasks ≡ n.tasks
  pub running : m.running ≡ n.running
  pub signals : m.signals ≡ n.signals
  pub leads : m.leads ≡ n.leads
  pub remotes : m.remotes ≡ n.remotes

pub persist_job-SameMemory : (job : Job) (m : JobManager) → SameMemory (persist_job job m) m
unfolding persist_job
persist_job-SameMemory job m = ground arith

pub persist_task-SameMemory :
    (task : TaskSpec) (m : JobManager) → SameMemory (persist_task task m) m
unfolding persist_task
persist_task-SameMemory task m = ground arith

-- Both writes of a task's end.
pub persist_both-SameMemory :
    (job : Job) (task : TaskSpec) (m : JobManager)
    → SameMemory (persist_job job (persist_task task m)) m
persist_both-SameMemory job task m =
    ground (arith, persist_job-SameMemory job (persist_task task m), persist_task-SameMemory task m)

-- The duplicate is forgotten before it is looked up.
pub duplicate_forgotten :
    (cancels : Cancels) (id : String) (m : JobManager)
    → cancel_duplicate cancels id (forget_run id m) ≡ (none, forget_run id m)
unfolding cancel_duplicate forget_run
duplicate_forgotten cancels id m = ground (arith, get-remove id id m.speculative, eq_refl id)

pub job_specs-forget_run :
    (job_id id : String) (m : JobManager) → job_specs job_id (forget_run id m) ≡ job_specs job_id m
unfolding job_specs forget_run
job_specs-forget_run job_id id m = refl

abbrev pub ids_of : List TaskSpec → List String
ids_of l = map (λ (s : TaskSpec). s.task_id) l

-- One round of `cancel_all` whose call returns.
abbrev after_cancel : TaskSpec → JobManager → JobManager
after_cancel s m = set_task (record s { state = failed }) (signal (cancel_signal m s) m)

-- All rounds, where each call returns.
pub cancelled : List TaskSpec → JobManager → JobManager
cancelled [] m = m
cancelled (s ∷ l) m = cancelled l (after_cancel s m)

-- The calls to cancel these tasks return.
abbrev pub AllReturn : Cancels → List String → List TaskSpec → Type 0
AllReturn cancels remotes l = All (λ s. cancel_error cancels remotes s ≡ none) l

pub cancel_all-cancelled :
    (cancels : Cancels) (l : List TaskSpec) (m : JobManager)
    → AllReturn cancels m.remotes l
    → cancel_all cancels l m ≡ (none, cancelled l m)
unfolding cancel_all cancel_task cancelled
cancel_all-cancelled cancels [] m h = refl
cancel_all-cancelled cancels (s ∷ l) m h =
    rw (h.0, cancel_all) (cancel_all-cancelled cancels l (after_cancel s m) h.1)

-- The first call that raises an exception ends the loop.
pub cancel_all-raised :
    (cancels : Cancels) (pre post : List TaskSpec) (bad : TaskSpec) (exc : String) (m : JobManager)
    → AllReturn cancels m.remotes pre
    → cancel_error cancels m.remotes bad ≡ some exc
    → cancel_all cancels (pre ++ bad ∷ post) m
      ≡ (some exc, signal (cancel_signal m bad) (cancelled pre m))
unfolding cancel_all cancel_task cancelled
cancel_all-raised cancels [] post bad exc m h e = rw (e, cancel_all) refl
cancel_all-raised cancels (s ∷ pre) post bad exc m h e =
    rw (h.0, cancel_all) (cancel_all-raised cancels pre post bad exc (after_cancel s m) h.1 e)

-- What cancelling leaves alone.
pub record SameJobs (m n : JobManager) : Type 0 where
  pub jobs : m.jobs ≡ n.jobs
  pub job_tasks : m.job_tasks ≡ n.job_tasks
  pub state_store : m.state_store ≡ n.state_store
  pub leads : m.leads ≡ n.leads
  pub remotes : m.remotes ≡ n.remotes

pub cancelled-SameJobs : (l : List TaskSpec) (m : JobManager) → SameJobs (cancelled l m) m
unfolding cancelled
cancelled-SameJobs [] m = ground arith
cancelled-SameJobs (s ∷ l) m = ground (arith, cancelled-SameJobs l (after_cancel s m))

pub cancel_all-SameJobs :
    (cancels : Cancels) (l : List TaskSpec) (m : JobManager) → SameJobs (cancel_all cancels l m).1 m
unfolding cancel_all cancel_task
cancel_all-SameJobs cancels [] m = ground arith
cancel_all-SameJobs cancels (s ∷ l) m = elim (Option-cases (cancel_error cancels m.remotes s)) [
  | inl e ↦ rw (e, cancel_all) ground (arith, cancel_all-SameJobs cancels l (after_cancel s m))
  | inr (exc, e) ↦ rw (e, cancel_all) ground arith
]

pub cancelled-elsewhere :
    (id : String) (l : List TaskSpec) (m : JobManager)
    → member id (ids_of l) ≡ false
    → get id (cancelled l m).tasks ≡ get id m.tasks
unfolding cancelled member
cancelled-elsewhere id [] m h = refl
cancelled-elsewhere id (s ∷ l) m h = ground (
  arith,
  cancelled-elsewhere id l (after_cancel s m),
  get-put s.task_id id (record s { state = failed }) m.tasks,
)

-- Each cancelled task is FAILED afterwards.
pub cancelled-failed :
    (other : TaskSpec) (l : List TaskSpec) (m : JobManager)
    → Distinct (ids_of l)
    → Has other l
    → get other.task_id (cancelled l m).tasks ≡ some (record other { state = failed })
unfolding cancelled
cancelled-failed other [] m u h = elim h [ ]
cancelled-failed other (s ∷ l) m u (inl same) =
    let away = subst (λ (t : TaskSpec). member t.task_id (ids_of l) ≡ false) same u.0 in
    cancelled-elsewhere other.task_id l (after_cancel s m) away
    ∙ subst
        (λ (t : TaskSpec).
          get t.task_id (after_cancel s m).tasks ≡ some (record t { state = failed }))
        same (get-put s.task_id s.task_id _ _ ∙ simp eq_refl)
cancelled-failed other (s ∷ l) m u (inr h) = cancelled-failed other l (after_cancel s m) u.1 h

-- Each cancelled task is signalled, after all earlier signals.
pub cancelled-signals :
    (l : List TaskSpec) (m : JobManager)
    → (cancelled l m).signals ≡ m.signals ++ map (cancel_signal m) l
unfolding cancelled
cancelled-signals [] m = sym (append-nil m.signals)
cancelled-signals (s ∷ l) m =
    cancelled-signals l (after_cancel s m) ∙ append_assoc m.signals (cancel_signal m s ∷ []) _
