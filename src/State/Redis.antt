-- ===== src/State/Redis.antt =====
-- The objects in mesh/state/redis_store.py, over the libraries json and redis: all kinds of objects
-- share one key space, and a prefix tells them apart.
pub mod Keys
pub mod Refinement
use Prim.Native.String.{◌++◌}
use cluster_mesh.Prelude.{String, Option, none, some, List, [], ◌∷◌}
use cluster_mesh.Models.{Job, TaskSpec, Checkpoint, Node}
use cluster_mesh.State.Json.{Members}
use cluster_mesh.State.Serialize.{
  job_to_dict, job_from_dict, checkpoint_to_dict, checkpoint_from_dict,
}
use cluster_mesh.State.Serialize.Tasks.{task_to_dict, task_from_dict}
use cluster_mesh.State.Serialize.Nodes.{node_to_dict, node_from_dict}
use cluster_mesh.State.Interface.{Json, KeySpace, StateStore, read_row, read_rows}

-- The prefixes of the keys, `_PREFIX` and the kind.
abbrev pub job_prefix : String
job_prefix = "mesh:job:"

abbrev pub task_prefix : String
task_prefix = "mesh:task:"

abbrev pub checkpoint_prefix : String
checkpoint_prefix = "mesh:cp:"

abbrev pub node_prefix : String
node_prefix = "mesh:node:"

module _ (json : Json) (redis : KeySpace json.Document) where
  open json use {Document, dumps}
  open redis use {Db, set, fetch, scan}

  abbrev pub with_document : Option Document → List Document → List Document
  with_document none docs = docs
  with_document (some d) docs = d ∷ docs

  -- `self._r.get(k) for k in keys if self._r.get(k)`
  unfoldable pub documents_at : List String → Db → List Document
  documents_at [] db = []
  documents_at (k ∷ ks) db = with_document (fetch k db) (documents_at ks db)

  unfoldable pub save_job : Job → Db → Db
  save_job job db = set (job_prefix ++ job.job_id) (dumps (job_to_dict job)) db

  unfoldable pub load_job : String → Db → Option (Option Job)
  load_job id db = read_row json job_from_dict (fetch (job_prefix ++ id) db)

  unfoldable pub list_jobs : Db → Option (List Job)
  unfolding documents_at
  list_jobs db = read_rows json job_from_dict (documents_at (scan job_prefix db) db)

  unfoldable pub save_task : TaskSpec → Db → Db
  save_task task db = set (task_prefix ++ task.task_id) (dumps (task_to_dict task)) db

  unfoldable pub load_task : String → Db → Option (Option TaskSpec)
  load_task id db = read_row json task_from_dict (fetch (task_prefix ++ id) db)

  unfoldable pub list_tasks : Db → Option (List TaskSpec)
  unfolding documents_at
  list_tasks db = read_rows json task_from_dict (documents_at (scan task_prefix db) db)

  unfoldable pub save_checkpoint : Checkpoint → Db → Db
  save_checkpoint cp db = set (checkpoint_prefix ++ cp.task_id) (dumps (checkpoint_to_dict cp)) db

  unfoldable pub load_checkpoint : String → Db → Option (Option Checkpoint)
  load_checkpoint id db = read_row json checkpoint_from_dict (fetch (checkpoint_prefix ++ id) db)

  unfoldable pub save_node : Node → Db → Db
  save_node node db = set (node_prefix ++ node.node_id) (dumps (node_to_dict node)) db

  unfoldable pub load_node : String → Db → Option (Option Node)
  load_node id db = read_row json node_from_dict (fetch (node_prefix ++ id) db)

  unfoldable pub list_nodes : Db → Option (List Node)
  unfolding documents_at
  list_nodes db = read_rows json node_from_dict (documents_at (scan node_prefix db) db)

  -- The class as an implementation of the protocol.
  abbrev pub redis_store : StateStore Db
  redis_store = record {
    save_job = save_job;
    load_job = load_job;
    list_jobs = list_jobs;
    save_task = save_task;
    load_task = load_task;
    list_tasks = list_tasks;
    save_checkpoint = save_checkpoint;
    load_checkpoint = load_checkpoint;
    save_node = save_node;
    load_node = load_node;
    list_nodes = list_nodes;
  }
