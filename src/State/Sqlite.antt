-- ===== src/State/Sqlite.antt =====
-- The objects in mesh/state/sqlite_store.py, over the libraries json and sqlite3. Each method is one
-- transaction under the lock. The column `job_id` of `tasks`, which nothing reads, is left out.
pub mod Refinement
use cluster_mesh.Prelude.{String, Option, List}
use cluster_mesh.Models.{Job, TaskSpec, Checkpoint, Node}
use cluster_mesh.State.Serialize.{
  job_to_dict, job_from_dict, checkpoint_to_dict, checkpoint_from_dict,
}
use cluster_mesh.State.Serialize.Tasks.{task_to_dict, task_from_dict}
use cluster_mesh.State.Serialize.Nodes.{node_to_dict, node_from_dict}
use cluster_mesh.State.Interface.{Json, Table, StateStore, read_row, read_rows}

pub record SqliteStateStore (Rows : Type 0) : Type 0 where
  pub jobs : Rows
  pub tasks : Rows
  pub checkpoints : Rows
  pub nodes : Rows

module _ (json : Json) (table : Table json.Document) where
  open json use {Document, dumps}
  open table use {Rows, empty, replace, select_row, all_rows}

  abbrev Db : Type 0
  Db = SqliteStateStore Rows

  unfoldable pub init_schema : Db
  init_schema = record { jobs = empty; tasks = empty; checkpoints = empty; nodes = empty }

  unfoldable pub save_job : Job → Db → Db
  save_job job db = record db { jobs = replace job.job_id (dumps (job_to_dict job)) db.jobs }

  unfoldable pub load_job : String → Db → Option (Option Job)
  load_job id db = read_row json job_from_dict (select_row id db.jobs)

  unfoldable pub list_jobs : Db → Option (List Job)
  list_jobs db = read_rows json job_from_dict (all_rows db.jobs)

  unfoldable pub save_task : TaskSpec → Db → Db
  save_task task db = record db {
    tasks = replace task.task_id (dumps (task_to_dict task)) db.tasks;
  }

  unfoldable pub load_task : String → Db → Option (Option TaskSpec)
  load_task id db = read_row json task_from_dict (select_row id db.tasks)

  unfoldable pub list_tasks : Db → Option (List TaskSpec)
  list_tasks db = read_rows json task_from_dict (all_rows db.tasks)

  unfoldable pub save_checkpoint : Checkpoint → Db → Db
  save_checkpoint cp db = record db {
    checkpoints = replace cp.task_id (dumps (checkpoint_to_dict cp)) db.checkpoints;
  }

  unfoldable pub load_checkpoint : String → Db → Option (Option Checkpoint)
  load_checkpoint id db = read_row json checkpoint_from_dict (select_row id db.checkpoints)

  unfoldable pub save_node : Node → Db → Db
  save_node node db = record db {
    nodes = replace node.node_id (dumps (node_to_dict node)) db.nodes;
  }

  unfoldable pub load_node : String → Db → Option (Option Node)
  load_node id db = read_row json node_from_dict (select_row id db.nodes)

  unfoldable pub list_nodes : Db → Option (List Node)
  list_nodes db = read_rows json node_from_dict (all_rows db.nodes)

  -- The class as an implementation of the protocol.
  abbrev pub sqlite_store : StateStore Db
  sqlite_store = record {
    save_job = save_job;
    load_job = load_job;
    list_jobs = list_jobs;
    save_task = save_task;
    load_task = load_task;
    list_tasks = list_tasks;
    save_checkpoint = save_checkpoint;
    load_checkpoint = load_checkpoint;
    save_node = save_node;
    load_node = load_node;
    list_nodes = list_nodes;
  }
