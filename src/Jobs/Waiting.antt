-- ===== src/Jobs/Waiting.antt =====
-- What a waiting caller gets, and what a submission by name leaves in the store.
use cluster_mesh.Prelude.{
  ℕ, String, ◌≡◌, refl, ap, ◌∙◌, Bool, true, Option, none, some, List, [], ◌∷◌, ◌++◌, All,
  Bool-cases, inl, inr,
}
use cluster_mesh.Prelude.Dict.{get, member}
use cluster_mesh.Models.{Node, TaskSpec, Job, JobState, is_terminal}
use cluster_mesh.Scheduler.Scoring.{Float}
use cluster_mesh.Scheduler.Placement.{PlacementEngine, place}
use cluster_mesh.Jobs.Manager.{JobManager, Cancels, set_task, set_job}
use cluster_mesh.Jobs.Dispatch.{Agents, dispatch_remote}
use cluster_mesh.Jobs.Outcome.{begin_complete, on_task_complete}
use cluster_mesh.Jobs.Frames.{AllReturn}
use cluster_mesh.Jobs.Completion.{
  others, completion_overwrites, completion_returns, begin_complete-stored,
}
use cluster_mesh.Jobs.Submit.{placed_at, new_job}
use cluster_mesh.Jobs.Named.{
  Answer, look, look_at, first_of, wait_for_job, answer_of, send, simple_spec, filed, started,
  submit_remote_by_name,
}

-- The look does not end the wait.
abbrev pub GoesOn : String → Bool × JobManager → Type 0
GoesOn job_id l = look job_id l.0 l.1 ≡ none

first_answer :
    (job_id : String) (early rest : List (Bool × JobManager)) (late : Bool) (m : JobManager)
    (answer : Answer)
    → All (GoesOn job_id) early
    → look job_id late m ≡ some answer
    → wait_for_job job_id (early ++ (late, m) ∷ rest) ≡ some answer
unfolding wait_for_job
first_answer job_id [] rest late m answer a h = ap (λ o. first_of o (wait_for_job job_id rest)) h
first_answer job_id (l ∷ early) rest late m answer a h =
    ap (λ o. first_of o (wait_for_job job_id (early ++ (late, m) ∷ rest))) a.0
    ∙ first_answer job_id early rest late m answer a.1 h

look_at_completed :
    (late : Bool) (job : Job) (result : Option String)
    → job.state ≡ JobState.completed
    → job.result ≡ result
    → look_at late (some job) ≡ some (Answer.result result)
unfolding look_at is_terminal answer_of
look_at_completed late job result s r = rw (s, r)

look_completed :
    (job_id : String) (late : Bool) (m : JobManager) (job : Job) (result : Option String)
    → get job_id m.jobs ≡ some job
    → job.state ≡ JobState.completed
    → job.result ≡ result
    → look job_id late m ≡ some (Answer.result result)
unfolding look
look_completed job_id late m job result g s r =
    ap (look_at late) g ∙ look_at_completed late job result s r

-- A caller that waits for a job is answered, by the first look after the completion of one of its
-- tasks, with that task's result, whether its deadline has passed by then or not, if the calls of agents
-- to cancel the job's other replicas return and no earlier look ended the wait.
pub wait_for_job-on_task_complete :
    (cancels : Cancels) (spec : TaskSpec) (job : Job) (result : String) (m : JobManager)
    (late : Bool) (early rest : List (Bool × JobManager))
    → AllReturn cancels m.remotes (others cancels spec job result m)
    → All (GoesOn job.job_id) early
    → wait_for_job job.job_id
        (early ++ (late, (on_task_complete cancels spec job result m).1) ∷ rest)
      ≡ some (Answer.result (some result))
wait_for_job-on_task_complete cancels spec job result m late early rest all_return a =
    let ended = on_task_complete cancels spec job result m in
    let (after, stored, state, result_is) =
      completion_overwrites cancels spec job result m
        (completion_returns cancels spec job result m all_return) in
    first_answer job.job_id early rest late ended.1 (Answer.result (some result)) a
      (look_completed job.job_id late ended.1 after (some result) stored state result_is)

-- A look before the completion has set the result, while replicas are cancelled or after one of these
-- calls raised an exception, ends the wait with the result that the job had before.
wait_for_job-begin_complete :
    (cancels : Cancels) (spec : TaskSpec) (job : Job) (result : String) (m : JobManager)
    (late : Bool) (early rest : List (Bool × JobManager))
    → All (GoesOn job.job_id) early
    → wait_for_job job.job_id (early ++ (late, (begin_complete cancels spec job m).2) ∷ rest)
      ≡ some (Answer.result job.result)
wait_for_job-begin_complete cancels spec job result m late early rest a =
    let begun = begin_complete cancels spec job m in
    let (during, stored, state, result_is) = begin_complete-stored cancels spec job result m in
    first_answer job.job_id early rest late begun.2 (Answer.result job.result) a
      (look_completed job.job_id late begun.2 during job.result stored state result_is)

-- Every agent takes what it is sent.
abbrev pub TakesAll : Agents → Type 0
TakesAll agents = (node_id task_id : String) → agents node_id task_id ≡ none

dispatch_unsaved :
    (agents : Agents) (node : String) (spec : TaskSpec) (job : Job) (m : JobManager)
    → TakesAll agents
    → (dispatch_remote true agents node spec job m).state_store ≡ m.state_store
unfolding dispatch_remote
dispatch_unsaved agents node spec job m h = elim (Bool-cases (member spec.task_id m.running)) [
  | inl e ↦ rw e
  | inr e ↦ rw (e, h node spec.task_id)
]

send_unsaved :
    (agents : Agents) (spec : TaskSpec) (node : Option String) (job : Job) (m : JobManager)
    → TakesAll agents
    → (send agents spec node job m).state_store ≡ m.state_store
unfolding send dispatch_remote
send_unsaved agents spec none job m h = refl
send_unsaved agents spec (some n) job m h = elim (Bool-cases (member n m.remotes)) [
  | inl e ↦ rw e (dispatch_unsaved agents n spec job m h)
  | inr e ↦ rw e
]

-- A task that is submitted by its name, and taken by its agent, is stored nowhere: a driver that
-- takes over does not know it.
pub submit_remote_by_name_unsaved :
    (f : Float) (e : PlacementEngine) (hour : ℕ) (agents : Agents) (live : List Node)
    (name task_id job_id : String) (total_work : ℕ) (checkpoint : Bool) (m : JobManager)
    → TakesAll agents
    → (submit_remote_by_name f e hour agents live name task_id job_id total_work checkpoint
        m).state_store
      ≡ m.state_store
unfolding submit_remote_by_name
submit_remote_by_name_unsaved f e hour agents live name task_id job_id total_work checkpoint m h =
    let spec = simple_spec name task_id job_id 1_000 checkpoint total_work [] in
    let job = new_job name job_id none in
    let (spec', node) = placed_at spec (place f e spec live hour) in
    send_unsaved agents spec' node (started job spec)
      (set_job (started job spec) (set_task spec' (filed job spec m))) h
