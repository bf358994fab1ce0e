-- ===== src/Agent/Runner/Handoff.antt =====
-- A task's way from the driver to an agent, and what a cancelled task does there.
use cluster_mesh.Prelude.{
  ◌<◌, String, true, false, ◌≡◌, ◌∙◌, Option, none, some, List, [], ◌∷◌, ◌++◌, arith, ltb, eq_refl,
}
use cluster_mesh.Prelude.Dict.{member, get, get-put}
use cluster_mesh.Models.{TaskSpec, Checkpoint}
use cluster_mesh.Recovery.Checkpoints.{Checkpoints, save, load, checkpoint_of}
use cluster_mesh.Execution.Context.{TaskContext, fresh, restore_from_checkpoint}
use cluster_mesh.Agent.Runner.{
  StateJson, TaskAssignment, AgentTaskRunner, spec_of, resume_checkpoint, assign,
}

-- The object whose progress and state the driver sends.
abbrev pub sent : TaskSpec → Option Checkpoint → TaskSpec
sent spec none = spec
sent spec (some cp) = record spec { progress = cp.progress; state_data = cp.state_data }

abbrev or_blank : Option String → String
or_blank none = ""
or_blank (some id) = id

-- The request that `JobManager._dispatch_remote` makes.
unfoldable pub assignment_of :
    (json : StateJson) → TaskSpec → Checkpoints → TaskAssignment json.Text
unfolding load
assignment_of json spec cps =
    let from = sent spec (load spec.task_id cps) in
    record {
      task_id = spec.task_id;
      job_id = or_blank spec.job_id;
      task_name = spec.name;
      cpu_cores = spec.requirements.cpu_cores;
      ram_gb = spec.requirements.ram_gb;
      gpu_count = spec.requirements.gpu_count;
      checkpoint = spec.checkpoint;
      checkpoint_interval = spec.checkpoint_interval;
      total_work = spec.total_work;
      resume_progress = from.progress;
      resume_state_json = json.dumps from.state_data;
    }

-- The thread's context begins with a checkpoint's progress and state.
context_found :
    (spec : TaskSpec) (cps : Checkpoints) (cp : Checkpoint)
    → load spec.task_id cps ≡ some cp
    → ((restore_from_checkpoint (fresh spec cps)).1.progress ≡ cp.progress)
      × ((restore_from_checkpoint (fresh spec cps)).1.state ≡ cp.state_data)
unfolding restore_from_checkpoint get
context_found spec cps cp h = (rw (h, load), rw (h, load))

resume_checkpoint_found :
    (spec : TaskSpec) (cps : Checkpoints)
    → 0 < spec.progress
    → load spec.task_id (resume_checkpoint spec cps)
      ≡ some (checkpoint_of spec (some spec.state_data) 0)
unfolding load resume_checkpoint save
resume_checkpoint_found spec cps h =
    let positive : ltb 0 spec.progress ≡ true = ground arith in rw (positive, get-put, eq_refl)

assign_starts :
    (json : StateJson) (registered : List String) (a : TaskAssignment json.Text)
    (r : AgentTaskRunner)
    → member a.task_id r.running ≡ false
    → member a.task_name registered ≡ true
    → (assign json registered a r).1.started
      ≡ r.started
        ++ (restore_from_checkpoint
            (fresh (spec_of json a) (resume_checkpoint (spec_of json a) r.checkpoints))).1
          ∷ []
unfolding assign
assign_starts json registered a r idle known = rw (idle, known)

module _ (json : StateJson) where
  spec_of-state_data :
      (spec : TaskSpec) (cps : Checkpoints)
      → (spec_of json (assignment_of json spec cps)).state_data
        ≡ (sent spec (load spec.task_id cps)).state_data
  unfolding spec_of assignment_of
  spec_of-state_data spec cps =
      rw (json.is_blank-dumps (sent spec (load spec.task_id cps)).state_data)
        (json.loads-dumps (sent spec (load spec.task_id cps)).state_data)

  -- A task that the driver sends with some progress goes on at the agent where the driver's
  -- checkpoint of it stands, or the task itself where there is no checkpoint: the context of its
  -- thread has that progress and that state, whatever the agent remembered of the task.
  pub assign-assignment_of :
      (spec : TaskSpec) (cps : Checkpoints) (registered : List String) (r : AgentTaskRunner)
      → member spec.task_id r.running ≡ false
      → member spec.name registered ≡ true
      → 0 < (sent spec (load spec.task_id cps)).progress
      → (c : TaskContext) × ((assign json registered (assignment_of json spec cps) r).1.started
          ≡ r.started ++ c ∷ [])
        × (c.progress ≡ (sent spec (load spec.task_id cps)).progress)
        × (c.state ≡ (sent spec (load spec.task_id cps)).state_data)
  unfolding assignment_of spec_of
  assign-assignment_of spec cps registered r idle known some_progress =
      let a = assignment_of json spec cps in
      let s = spec_of json a in
      let cps' = resume_checkpoint s r.checkpoints in
      let (progress, state) =
        context_found s cps' (checkpoint_of s (some s.state_data) 0)
          (resume_checkpoint_found s r.checkpoints some_progress) in
      (
        (restore_from_checkpoint (fresh s cps')).1,
        assign_starts json registered a r idle known,
        progress,
        state ∙ spec_of-state_data spec cps,
      )
