-- ===== src/Tests/Agent.antt =====
-- An agent and its driver at concrete inputs: a task that ends, a machine on an empty battery, and
-- callers that wait.
use cluster_mesh.Prelude.{
  String, ◌≡◌, refl, true, false, Option, none, some, [], ◌∷◌, arith, select,
}
use cluster_mesh.Prelude.Dict.{Dict, get, member}
use cluster_mesh.Models.{TaskSpec, TaskState, JobState, is_terminal}
use cluster_mesh.Recovery.Checkpoints.{Checkpoints, load}
use cluster_mesh.Execution.Context.{TaskContext}
use cluster_mesh.Jobs.Manager.{JobManager, Cancels, job_specs, specs_at}
use cluster_mesh.Jobs.Outcome.{on_task_complete}
use cluster_mesh.Jobs.Named.{Answer, wait_for_job, look}
use cluster_mesh.Jobs.Waiting.{wait_for_job-on_task_complete}
use cluster_mesh.Agent.Runner.{StateJson, new_runner, assign}
use cluster_mesh.Agent.Runner.Handoff.{assignment_of, assign-assignment_of}
use cluster_mesh.Tests.Data.{task, job, manager}

-- A JSON text is the object, or the empty text.
abbrev json : StateJson
json = record {
  Text = Option (Dict String);
  dumps = λ d. some d;
  loads = λ t. elim t [ none ↦ [] | some d ↦ d ];
  is_blank = λ t. elim t [ none ↦ true | some d ↦ false ];
  loads-dumps = λ d. refl;
  is_blank-dumps = λ d. refl;
}

abbrev spec : TaskSpec
spec = task "t" 2_000 TaskState.running (some "a")

abbrev checkpoints : Checkpoints
checkpoints =
    ("t", record { task_id = "t"; progress = 60; state_data = ("epoch", "6") ∷ []; timestamp = 5 })
    ∷ []

assign-assignment_of_example :
    (c : TaskContext) × ((assign json
        ("train" ∷ [])
        (assignment_of json spec checkpoints)
        new_runner).1.started
      ≡ c ∷ [])
    × (c.progress ≡ 60)
    × (c.state ≡ ("epoch", "6") ∷ [])
unfolding get load member
assign-assignment_of_example =
    assign-assignment_of json spec checkpoints ("train" ∷ []) new_runner refl refl (omega arith)

abbrev driver : JobManager
driver = manager ("t" ∷ []) (("t", spec) ∷ [])

abbrev accepted : Cancels
accepted node task_id = none

wait_for_job-on_task_complete_example :
    wait_for_job "job" (
      (false, driver)
      ∷ (true, (on_task_complete accepted spec (job JobState.running) "ok" driver).1)
      ∷ [])
    ≡ some (Answer.result (some "ok"))
unfolding look get is_terminal select job_specs specs_at
wait_for_job-on_task_complete_example =
    wait_for_job-on_task_complete accepted spec (job JobState.running) "ok" driver true
      ((false, driver) ∷ []) [] tt (refl, tt)
