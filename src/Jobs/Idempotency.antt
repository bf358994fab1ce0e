-- ===== src/Jobs/Idempotency.antt =====
-- A key that was used gives the job that it was used for.
use cluster_mesh.Prelude.{
  ℕ, String, Bool, true, false, Option, none, some, List, ◌≡◌, refl, sym, ◌∙◌, ap, arith, ◌==◌,
  eq_refl, if◌then◌else◌,
}
use cluster_mesh.Prelude.Dict.{Dict, get, has, get-put}
use cluster_mesh.Models.{Node, TaskSpec, Job, JobState}
use cluster_mesh.Scheduler.Scoring.{Float}
use cluster_mesh.Scheduler.Placement.{PlacementEngine}
use cluster_mesh.Jobs.Manager.{JobManager, set_job, persist_job}
use cluster_mesh.Jobs.Dispatch.{Agents}
use cluster_mesh.Jobs.Death.{store_placed}
use cluster_mesh.Jobs.Submit.{
  real_key, known_key, file_job, place_specs, register_job, submit_new, answer, register_mesh_task,
  submit,
}
use cluster_mesh.Jobs.Keeps.{
  Keeps, Keeps-trans, set_job-Keeps, persist_job-Keeps, start_all-Keeps, store_placed-Keeps,
  store_specs-Keeps,
}

looked_up :
    (key : String) (m : JobManager)
    → key == "" ≡ false
    → known_key (real_key (some key)) m ≡ get key m.idempotency
looked_up key m real = ground arith

file_job-known :
    (job : Job) (key : String) (m : JobManager)
    → key == "" ≡ false
    → (get key (file_job job (some key) m).idempotency ≡ some job.job_id)
      × (has job.job_id (file_job job (some key) m).jobs ≡ true)
unfolding file_job
file_job-known job key m real = ground (
  arith,
  get-put key key job.job_id m.idempotency,
  get-put job.job_id job.job_id job m.jobs,
  eq_refl key,
  eq_refl job.job_id,
)

module _ (f : Float) (e : PlacementEngine) (hour now : ℕ) (agents : Agents) (live : List Node)
    (key job_id : String) where
  abbrev answered : TaskSpec → ℕ → String → List String → JobManager → Option String × JobManager
  answered spec replicas new_id fresh m =
      answer f e hour now agents live (known_key (real_key (some key)) m) spec replicas (some key)
        new_id fresh m

  answered_first :
      (spec : TaskSpec) (replicas : ℕ) (new_id : String) (fresh : List String) (m : JobManager)
      → key == "" ≡ false
      → get key m.idempotency ≡ none
      → answered spec replicas new_id fresh m
        ≡ (some new_id, submit_new f e hour now agents live spec replicas (some key) new_id fresh m)
  unfolding answer
  answered_first spec replicas new_id fresh m real new =
      ap (λ o. answer f e hour now agents live o spec replicas (some key) new_id fresh m)
        (looked_up key m real ∙ new)

  answered_known :
      (spec : TaskSpec) (replicas : ℕ) (new_id : String) (fresh : List String) (m : JobManager)
      → key == "" ≡ false
      → get key m.idempotency ≡ some job_id
      → has job_id m.jobs ≡ true
      → answered spec replicas new_id fresh m ≡ (some job_id, m)
  unfolding answer
  answered_known spec replicas new_id fresh m real known there =
      ap (λ o. answer f e hour now agents live o spec replicas (some key) new_id fresh m)
        (looked_up key m real ∙ known)
      ∙ ap (λ (b : Bool). (if b then some job_id else none, m)) there

module _ (f : Float) (e : PlacementEngine) (hour now : ℕ) (agents : Agents) (live : List Node)
    (base : TaskSpec) (replicas : ℕ) (key job_id : String) (fresh : List String)
    (m : JobManager) where
  abbrev after : JobManager
  after = submit_new f e hour now agents live base replicas (some key) job_id fresh m

  abbrev registered : Job × List TaskSpec × JobManager
  registered = register_job f e hour now agents live base replicas (some key) job_id fresh m

  register_known :
      key == "" ≡ false
      → (get key registered.2.idempotency ≡ some job_id) × (has job_id registered.2.jobs ≡ true)
  unfolding register_job
  register_known real =
      let (job, specs, m₁) = registered in
      let filed = file_job job (some key) m in
      let (known, there) = file_job-known job key m real in
      let k = store_specs-Keeps specs filed in
      (ap (get key) (sym k.keys) ∙ known, k.jobs job_id there)

  submit_new-Keeps : Keeps registered.2 after
  unfolding submit_new
  submit_new-Keeps =
      let (job, specs, m₁) = registered in
      let placements = place_specs f e hour now agents live replicas specs in
      let runs : Job = record job { state = JobState.running } in
      let m₂ = store_placed placements m₁ in
      Keeps-trans m₁ m₂ _ (store_placed-Keeps placements m₁) (
        Keeps-trans m₂ (set_job runs m₂) _ (set_job-Keeps runs m₂) (
          Keeps-trans (set_job runs m₂) (persist_job runs (set_job runs m₂)) _
            (persist_job-Keeps runs (set_job runs m₂))
            (start_all-Keeps agents now runs placements _)))

-- A submission under a new key that is not empty is remembered: when the same key is sent again,
-- whatever else is sent with it, the answer is the first job's id, and the manager stays as it is. Only
-- the callable that came along is registered under its task's name.
pub submit_again :
    (f : Float) (e : PlacementEngine) (hour now : ℕ) (agents : Agents) (live : List Node)
    (fn : String) (base : TaskSpec) (replicas : ℕ) (key job_id : String) (fresh : List String)
    (registry : Dict String) (m : JobManager) (fn' : String) (base' : TaskSpec) (replicas' : ℕ)
    (job_id' : String) (fresh' : List String)
    → key == "" ≡ false
    → get key m.idempotency ≡ none
    → (let first =
          submit f e hour now agents live fn base replicas (some key) job_id fresh registry m in
        (first.0 ≡ some job_id)
        × (submit f e hour now agents live fn' base' replicas'
              (some key)
              job_id'
              fresh'
              first.1
              first.2
            ≡ (some job_id, register_mesh_task base'.name fn' first.1, first.2)))
unfolding submit
submit_again f e hour now agents live fn base replicas key job_id fresh registry m fn' base'
      replicas' job_id' fresh' real new =
    let spec : TaskSpec = record base { fn = some fn } in
    let spec' : TaskSpec = record base' { fn = some fn' } in
    let after = submit_new f e hour now agents live spec replicas (some key) job_id fresh m in
    let first =
      answered_first f e hour now agents live key job_id spec replicas job_id fresh m real new in
    let known = register_known f e hour now agents live spec replicas key job_id fresh m real in
    let k = submit_new-Keeps f e hour now agents live spec replicas key job_id fresh m in
    let again =
      answered_known f e hour now agents live key job_id spec' replicas' job_id' fresh' after real
        (ap (get key) (sym k.keys) ∙ known.0) (k.jobs job_id known.1) in
    rw (first, again) (refl, refl)
