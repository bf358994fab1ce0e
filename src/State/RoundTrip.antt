-- ===== src/State/RoundTrip.antt =====
-- What is read back of an object is what was written.
use cluster_mesh.Prelude.{ℕ, String, Option, none, some, ◌≡◌, refl}
use cluster_mesh.Prelude.Dict.{member}
use cluster_mesh.Models.{
  Job, JobState, Checkpoint, TaskSpec, TaskState, Node, NodeState, ResourcePool,
  ResourceRequirements, NodeResources,
}
use cluster_mesh.State.Json.{to_texts-of_texts, only, Value, or_null, nullable, as_text, as_number}
use cluster_mesh.State.Serialize.{
  job_to_dict, job_from_dict, job_state_of, job_state_name, checkpoint_to_dict,
  checkpoint_from_dict,
}
use cluster_mesh.State.Serialize.Tasks.{
  pool_from, pool_of, pool_name, task_state_of, task_state_name, requirements_from_dict,
  requirements_to_dict, task_from_dict, task_to_dict,
}
use cluster_mesh.State.Serialize.Nodes.{
  node_state_of, node_state_name, resources_from_dict, resources_to_dict, node_from_dict,
  node_to_dict,
}

job_state_of-name : (s : JobState) → job_state_of (job_state_name s) ≡ some s
job_state_of-name JobState.pending = refl
job_state_of-name JobState.running = refl
job_state_of-name JobState.completed = refl
job_state_of-name JobState.failed = refl
job_state_of-name JobState.cancelled = refl

nullable-or_null : (o : Option String) → nullable as_text (or_null Value.text o) ≡ some o
nullable-or_null none = refl
nullable-or_null (some s) = refl

pub job_from_dict-job_to_dict : (job : Job) → job_from_dict (job_to_dict job) ≡ some job
unfolding job_to_dict job_from_dict
job_from_dict-job_to_dict job = rw (
  job_state_of-name,
  nullable-or_null job.result,
  nullable-or_null job.error,
  nullable-or_null job.idempotency_key,
  nullable-or_null job.completed_task_id,
)

pub checkpoint_from_dict-checkpoint_to_dict :
    (cp : Checkpoint) → checkpoint_from_dict (checkpoint_to_dict cp) ≡ some cp
unfolding checkpoint_to_dict checkpoint_from_dict only member
checkpoint_from_dict-checkpoint_to_dict cp = rw (to_texts-of_texts cp.state_data)

nullable-number : (o : Option ℕ) → nullable as_number (or_null Value.number o) ≡ some o
nullable-number none = refl
nullable-number (some n) = refl

task_state_of-name : (s : TaskState) → task_state_of (task_state_name s) ≡ some s
task_state_of-name TaskState.pending = refl
task_state_of-name TaskState.running = refl
task_state_of-name TaskState.checkpointing = refl
task_state_of-name TaskState.paused = refl
task_state_of-name TaskState.completed = refl
task_state_of-name TaskState.failed = refl
task_state_of-name TaskState.migrating = refl

node_state_of-name : (s : NodeState) → node_state_of (node_state_name s) ≡ some s
node_state_of-name NodeState.healthy = refl
node_state_of-name NodeState.suspected = refl
node_state_of-name NodeState.dead = refl
node_state_of-name NodeState.preempted = refl
node_state_of-name NodeState.offline = refl

pool_of-name : (p : ResourcePool) → pool_of (pool_name p) ≡ some p
pool_of-name ResourcePool.cpu = refl
pool_of-name ResourcePool.memory = refl
pool_of-name ResourcePool.gpu = refl
pool_of-name ResourcePool.night = refl

pool_from-or_null :
    (o : Option ResourcePool)
    → pool_from (some (or_null (λ p. Value.text (pool_name p)) o)) ≡ some o
pool_from-or_null none = refl
pool_from-or_null (some ResourcePool.cpu) = refl
pool_from-or_null (some ResourcePool.memory) = refl
pool_from-or_null (some ResourcePool.gpu) = refl
pool_from-or_null (some ResourcePool.night) = refl

requirements_round_trip :
    (req : ResourceRequirements) → requirements_from_dict (requirements_to_dict req) ≡ some req
unfolding requirements_from_dict requirements_to_dict only member
requirements_round_trip req =
    rw (nullable-number req.cuda_version, nullable-number req.min_battery_pct)

resources_round_trip : (r : NodeResources) → resources_from_dict (resources_to_dict r) ≡ some r
unfolding resources_from_dict resources_to_dict only member
resources_round_trip r = rw (nullable-number r.cuda_version, nullable-number r.battery_pct)

-- A task that is written and read back is the task without its callable, whatever its state.
pub task_from_dict-task_to_dict :
    (task : TaskSpec) → task_from_dict (task_to_dict task) ≡ some (record task { fn = none })
unfolding task_to_dict task_from_dict
task_from_dict-task_to_dict task = rw (
  pool_from-or_null task.pool,
  requirements_round_trip task.requirements,
  nullable-or_null task.job_id,
  task_state_of-name task.state,
  nullable-or_null task.assigned_node,
  to_texts-of_texts task.state_data,
)

-- A node that is written and read back is the node.
pub node_from_dict-node_to_dict : (node : Node) → node_from_dict (node_to_dict node) ≡ some node
unfolding node_to_dict node_from_dict
node_from_dict-node_to_dict node = rw (
  resources_round_trip node.resources,
  node_state_of-name node.state,
  pool_of-name node.pool,
  to_texts-of_texts node.tags,
)
