-- ===== src/Tests/Jobs.antt =====
-- One job with two or three replicas.
use cluster_mesh.Prelude.{◌≡◌, refl, arith, String, Option, [], ◌∷◌, some, none, select, inl, inr}
use cluster_mesh.Prelude.Dict.{get, member}
use cluster_mesh.Models.{TaskSpec, JobState, running, failed, completed}
use cluster_mesh.Jobs.Manager.{JobManager, Cancels, interrupt, cancel_remote, job_specs, specs_at}
use cluster_mesh.Jobs.Outcome.{on_task_complete}
use cluster_mesh.Jobs.Completion.{completion_stops_replicas}
use cluster_mesh.Jobs.Raised.{completion_cut_short}
use cluster_mesh.Prelude.Sort.{Has}
use cluster_mesh.Tests.Data.{task, job, manager}

abbrev done : TaskSpec
done = task "t" 1_000 completed none

abbrev other : TaskSpec
other = task "u" 1_000 running none

abbrev pair : JobManager
pair = manager ("t" ∷ "u" ∷ []) (("t", done) ∷ ("u", other) ∷ [])

-- No agent can be reached.
abbrev lost_agents : Cancels
lost_agents node task_id = some "deadline exceeded"

abbrev ended : JobManager → Option String × JobManager
ended m = on_task_complete lost_agents done (job JobState.running) "ok" m

completion_stops_replicas_example :
    ((ended pair).0 ≡ none)
    × (get "u" (ended pair).1.tasks ≡ some (record other { state = failed }))
    × ((ended pair).1.signals ≡ interrupt "u" ∷ [])
    × (get "job" (ended pair).1.jobs
        ≡ some (record (job JobState.running) {
          state = JobState.completed;
          result = some "ok";
          completed_task_id = some "t";
        }))
unfolding job_specs specs_at get select member
completion_stops_replicas_example =
    completion_stops_replicas lost_agents done (job JobState.running) "ok" pair other (omega arith)
      (refl, tt) (refl, tt) (inr (inl refl)) refl

-- A third replica runs on "x", whose agent is lost.
abbrev away : TaskSpec
away = task "v" 1_000 running (some "x")

abbrev three : JobManager
three = record (manager ("t" ∷ "u" ∷ "v" ∷ []) (("t", done) ∷ ("u", other) ∷ ("v", away) ∷ [])) {
  remotes = "x" ∷ [];
}

completion_cut_short_example :
    ((ended three).0 ≡ some "deadline exceeded")
    × (get "job" (ended three).1.jobs
        ≡ some (record (job JobState.running) {
          state = JobState.completed;
          completed_task_id = some "t";
        }))
    × ((ended three).1.state_store ≡ three.state_store)
    × ((ended three).1.signals ≡ interrupt "u" ∷ cancel_remote "x" "v" ∷ [])
    × ((t : TaskSpec)
        → Has t (away ∷ [])
        → get t.task_id (ended three).1.tasks ≡ get t.task_id three.tasks)
unfolding job_specs specs_at get select member
completion_cut_short_example =
    completion_cut_short lost_agents done (job JobState.running) "ok" three (other ∷ []) [] away
      "deadline exceeded" (omega arith) refl (refl, (refl, tt)) (refl, tt) refl
