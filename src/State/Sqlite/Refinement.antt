-- ===== src/State/Sqlite/Refinement.antt =====
-- The SQLite store keeps what a store promises.
use cluster_mesh.Prelude.{String, Option, none, some, List, [], ◌≡◌, subst, ◌==◌}
use cluster_mesh.Prelude.Dict.{Dict, get, put, get-put}
use cluster_mesh.State.Json.{Members}
use cluster_mesh.State.Serialize.{
  job_to_dict, job_from_dict, checkpoint_to_dict, checkpoint_from_dict,
}
use cluster_mesh.State.Serialize.Tasks.{task_to_dict, task_from_dict}
use cluster_mesh.State.Serialize.Nodes.{node_to_dict, node_from_dict}
use cluster_mesh.State.RoundTrip.{
  job_from_dict-job_to_dict, task_from_dict-task_to_dict, node_from_dict-node_to_dict,
  checkpoint_from_dict-checkpoint_to_dict,
}
use cluster_mesh.State.Interface.{Json, Table, read_row, read_rows}
use cluster_mesh.State.Contents.{
  Contents, Write, Lists, Loads, Implements, note, note_all, write, write_all, nothing,
  Loads-write_all,
}
use cluster_mesh.State.Rows.{read_row_saved, Lists-read_rows, row_of_entry}
use cluster_mesh.State.Sqlite
use cluster_mesh.State.Sqlite.{SqliteStateStore, sqlite_store, init_schema}

module _ (json : Json) (table : Table json.Document) where
  open json use {Document, dumps}
  open table use {
    Rows, empty, replace, select_row, all_rows, select_row-empty, select_row-replace, all_rows_iff,
  }

  -- A table whose rows read as a dictionary's entries.
  abbrev Holds : {A : Type 0} → (Members → Option A) → Rows → Dict A → Type 0
  Holds from rows d = (k : String) → read_row json from (select_row k rows) ≡ some (get k d)

  module _ {A : Type 0} (from : Members → Option A) where
    Holds-empty : Holds from empty []
    unfolding get
    Holds-empty k = rw (select_row-empty k)

    Holds-replace :
        (id : String) (m : Members) (a : A) (rows : Rows) (d : Dict A)
        → from m ≡ some a
        → Holds from rows d
        → Holds from (replace id (dumps m) rows) (put id a d)
    Holds-replace id m a rows d e h k =
        rw (select_row-replace id k (dumps m) rows, get-put id k a d)
          (read_row_saved json from (id == k) m a (select_row k rows) (get k d) e (h k))

    Holds-Lists :
        (rows : Rows) (d : Dict A)
        → Holds from rows d
        → Lists (read_rows json from (all_rows rows)) d
    Holds-Lists rows d h =
        Lists-read_rows json from (all_rows rows) d
          (λ doc i.
            let (k, e) = (all_rows_iff doc rows).0 i in
            (k, subst (λ o. read_row json from o ≡ some (get k d)) e (h k)))
          (λ k a g.
            let (doc, e, r) = row_of_entry json from (select_row k rows) (get k d) a (h k) g in
            (doc, (all_rows_iff doc rows).1 (k, e), r))

  abbrev Db : Type 0
  Db = SqliteStateStore Rows

  sqlite_loads_write :
      (w : Write) (db : Db) (c : Contents)
      → Loads (sqlite_store json table) db c
      → Loads (sqlite_store json table) (write (sqlite_store json table) w db) (note w c)
  unfolding Sqlite.save_job Sqlite.load_job Sqlite.save_task Sqlite.load_task Sqlite.save_checkpoint
      Sqlite.load_checkpoint Sqlite.save_node Sqlite.load_node
  sqlite_loads_write (Write.job j) db c h = record {
    loads_job =
        Holds-replace job_from_dict j.job_id (job_to_dict j) j db.jobs c.store.jobs
          (job_from_dict-job_to_dict j) h.loads_job;
    loads_task = h.loads_task;
    loads_checkpoint = h.loads_checkpoint;
    loads_node = h.loads_node;
  }
  sqlite_loads_write (Write.task t) db c h = record {
    loads_job = h.loads_job;
    loads_task =
        Holds-replace task_from_dict t.task_id (task_to_dict t) (record t { fn = none }) db.tasks
          c.store.tasks (task_from_dict-task_to_dict t) h.loads_task;
    loads_checkpoint = h.loads_checkpoint;
    loads_node = h.loads_node;
  }
  sqlite_loads_write (Write.checkpoint cp) db c h = record {
    loads_job = h.loads_job;
    loads_task = h.loads_task;
    loads_checkpoint =
        Holds-replace checkpoint_from_dict cp.task_id (checkpoint_to_dict cp) cp db.checkpoints
          c.store.checkpoints (checkpoint_from_dict-checkpoint_to_dict cp) h.loads_checkpoint;
    loads_node = h.loads_node;
  }
  sqlite_loads_write (Write.node n) db c h = record {
    loads_job = h.loads_job;
    loads_task = h.loads_task;
    loads_checkpoint = h.loads_checkpoint;
    loads_node =
        Holds-replace node_from_dict n.node_id (node_to_dict n) n db.nodes c.nodes
          (node_from_dict-node_to_dict n) h.loads_node;
  }

  sqlite_loads_empty : Loads (sqlite_store json table) (init_schema json table) nothing
  unfolding init_schema Sqlite.load_job Sqlite.load_task Sqlite.load_checkpoint Sqlite.load_node
  sqlite_loads_empty = record {
    loads_job = Holds-empty job_from_dict;
    loads_task = Holds-empty task_from_dict;
    loads_checkpoint = Holds-empty checkpoint_from_dict;
    loads_node = Holds-empty node_from_dict;
  }

  sqlite-Implements :
      (db : Db) (c : Contents)
      → Loads (sqlite_store json table) db c
      → Implements (sqlite_store json table) db c
  unfolding Sqlite.list_jobs Sqlite.list_tasks Sqlite.list_nodes Sqlite.load_job Sqlite.load_task
      Sqlite.load_node
  sqlite-Implements db c h = record {
    loads = h;
    jobs = Holds-Lists job_from_dict db.jobs c.store.jobs h.loads_job;
    tasks = Holds-Lists task_from_dict db.tasks c.store.tasks h.loads_task;
    nodes = Holds-Lists node_from_dict db.nodes c.nodes h.loads_node;
  }

  -- Whatever sequence of saves the SQLite store began with, each of its loads finds the last saved
  -- version of the object or none, and each listing holds just the last saved versions; no read
  -- raises. A task comes back without its callable.
  pub sqlite_refines :
      (ws : List Write)
      → Implements
          (sqlite_store json table)
          (write_all (sqlite_store json table) ws (init_schema json table))
          (note_all ws nothing)
  sqlite_refines ws =
      sqlite-Implements (write_all (sqlite_store json table) ws (init_schema json table))
        (note_all ws nothing)
        (Loads-write_all (sqlite_store json table) sqlite_loads_write ws (init_schema json table)
          nothing sqlite_loads_empty)
