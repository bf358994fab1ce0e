-- ===== src/State/Redis/Refinement.antt =====
-- The Redis store keeps what a store promises.
use Prim.Native.String.{String, ◌++◌}
use text.Mathlib.TextPositions.{starts_with-append}
use text.Mathlib.TextEquality.{starts_with_iff}
use cluster_mesh.Prelude.{
  String, Option, none, some, List, [], ◌∷◌, ◌≡◌, ◌≢◌, refl, sym, subst, ap, ◌∙◌, ◌⊎◌, inl, inr,
  ◌↔◌, arith, ◌==◌,
}
use cluster_mesh.Prelude.Dict.{Dict, get, put, get-put}
use cluster_mesh.Prelude.Sort.{Has}
use cluster_mesh.State.Json.{Members}
use cluster_mesh.State.Serialize.{
  job_to_dict, job_from_dict, checkpoint_to_dict, checkpoint_from_dict,
}
use cluster_mesh.State.Serialize.Tasks.{task_to_dict, task_from_dict}
use cluster_mesh.State.Serialize.Nodes.{node_to_dict, node_from_dict}
use cluster_mesh.State.RoundTrip.{
  job_from_dict-job_to_dict, task_from_dict-task_to_dict, node_from_dict-node_to_dict,
  checkpoint_from_dict-checkpoint_to_dict,
}
use cluster_mesh.State.Interface.{Json, KeySpace, read_row, read_rows}
use cluster_mesh.State.Contents.{
  Contents, Write, Lists, Loads, Implements, note, note_all, write, write_all, nothing,
  Loads-write_all,
}
use cluster_mesh.State.Rows.{read_row_saved, Lists-read_rows, row_of_entry}
use cluster_mesh.State.Redis
use cluster_mesh.State.Redis.{
  redis_store, job_prefix, task_prefix, checkpoint_prefix, node_prefix, documents_at, with_document,
}
use cluster_mesh.State.Redis.Keys.{
  Apart, Apart_sym, same_prefix, job_task, job_checkpoint, job_node, task_checkpoint, task_node,
  checkpoint_node,
}

none-some : {D : Type 0} (d : D) → none ≢ some d
none-some d h = absurd (ground arith)

module _ (json : Json) (redis : KeySpace json.Document) where
  open json use {Document, dumps}
  open redis use {Db, empty, set, fetch, scan, fetch-empty, fetch-set, scan_iff}

  Has-with_document_iff :
      (doc : Document) (o : Option Document) (docs : List Document)
      → Has doc (with_document json redis o docs) ↔ ((o ≡ some doc) ⊎ Has doc docs)
  Has-with_document_iff doc none docs = ground arith
  Has-with_document_iff doc (some d) docs = ground arith

  pub Has-documents_at_iff :
      (doc : Document) (ks : List String) (db : Db)
      → Has doc (documents_at json redis ks db)
        ↔ ((k : String) × Has k ks × (fetch k db ≡ some doc))
  unfolding documents_at
  Has-documents_at_iff doc [] db = (λ i. elim i [ ], λ p. elim p.1 [ ])
  Has-documents_at_iff doc (k ∷ ks) db =
      let first = Has-with_document_iff doc (fetch k db) (documents_at json redis ks db) in
      let rest = Has-documents_at_iff doc ks db in
      (
        λ i. elim (first.0 i) [
          | inl e ↦ (k, inl refl, e)
          | inr j ↦ (let (k', h, e) = rest.0 j in (k', inr h, e))
        ],
        λ (k', h, e). elim h [
          | inl same ↦ first.1 (inl (ap (λ u. fetch u db) same ∙ e))
          | inr j ↦ first.1 (inr (rest.1 (k', j, e)))
        ],
      )

  module _ {A : Type 0} (from : Members → Option A) (p : String) where
    -- The keys with the prefix read as a dictionary's entries.
    abbrev Holds : Db → Dict A → Type 0
    Holds db d = (k : String) → read_row json from (fetch (p ++ k) db) ≡ some (get k d)

    Holds-empty : Holds empty []
    unfolding get
    Holds-empty k = rw (fetch-empty (p ++ k))

    Holds-set :
        (id : String) (m : Members) (a : A) (db : Db) (d : Dict A)
        → from m ≡ some a
        → Holds db d
        → Holds (set (p ++ id) (dumps m) db) (put id a d)
    Holds-set id m a db d e h k =
        rw (fetch-set (p ++ id) (p ++ k) (dumps m) db, same_prefix p id k, get-put id k a d)
          (read_row_saved json from (id == k) m a (fetch (p ++ k) db) (get k d) e (h k))

    Holds-Apart :
        (q id : String) (doc : Document) (db : Db) (d : Dict A)
        → Apart q p
        → Holds db d
        → Holds (set (q ++ id) doc db) d
    Holds-Apart q id doc db d apart h k = rw (fetch-set (q ++ id) (p ++ k) doc db, apart id k) (h k)

    Holds-Lists :
        (db : Db) (d : Dict A)
        → Holds db d
        → Lists (read_rows json from (documents_at json redis (scan p db) db)) d
    Holds-Lists db d h =
        Lists-read_rows json from (documents_at json redis (scan p db) db) d
          (λ doc i.
            let (k, j, e) = (Has-documents_at_iff doc (scan p db) db).0 i in
            let (rest, e') = (starts_with_iff k p).0 ((scan_iff p k db).0 j).0 in
            (
              rest,
              subst (λ o. read_row json from o ≡ some (get rest d)) (ap (λ u. fetch u db) e' ∙ e)
                  (h rest),
            ))
          (λ k a g.
            let (doc, e, r) = row_of_entry json from (fetch (p ++ k) db) (get k d) a (h k) g in
            (
              doc,
              (Has-documents_at_iff doc (scan p db) db).1 (
                p ++ k,
                (scan_iff p (p ++ k) db).1 (starts_with-append p k, λ n. none-some doc (sym n ∙ e)),
                e,
              ),
              r,
            ))

  redis_loads_write :
      (w : Write) (db : Db) (c : Contents)
      → Loads (redis_store json redis) db c
      → Loads (redis_store json redis) (write (redis_store json redis) w db) (note w c)
  unfolding Redis.save_job Redis.load_job Redis.save_task Redis.load_task Redis.save_checkpoint
      Redis.load_checkpoint Redis.save_node Redis.load_node
  redis_loads_write (Write.job j) db c h = record {
    loads_job =
        Holds-set job_from_dict job_prefix j.job_id (job_to_dict j) j db c.store.jobs
          (job_from_dict-job_to_dict j) h.loads_job;
    loads_task =
        Holds-Apart task_from_dict task_prefix job_prefix j.job_id (dumps (job_to_dict j)) db
          c.store.tasks job_task h.loads_task;
    loads_checkpoint =
        Holds-Apart checkpoint_from_dict checkpoint_prefix job_prefix j.job_id
          (dumps (job_to_dict j)) db c.store.checkpoints job_checkpoint h.loads_checkpoint;
    loads_node =
        Holds-Apart node_from_dict node_prefix job_prefix j.job_id (dumps (job_to_dict j)) db
          c.nodes job_node h.loads_node;
  }
  redis_loads_write (Write.task t) db c h = record {
    loads_job =
        Holds-Apart job_from_dict job_prefix task_prefix t.task_id (dumps (task_to_dict t)) db
          c.store.jobs (Apart_sym job_prefix task_prefix job_task) h.loads_job;
    loads_task =
        Holds-set task_from_dict task_prefix t.task_id (task_to_dict t) (record t { fn = none }) db
          c.store.tasks (task_from_dict-task_to_dict t) h.loads_task;
    loads_checkpoint =
        Holds-Apart checkpoint_from_dict checkpoint_prefix task_prefix t.task_id
          (dumps (task_to_dict t)) db c.store.checkpoints task_checkpoint h.loads_checkpoint;
    loads_node =
        Holds-Apart node_from_dict node_prefix task_prefix t.task_id (dumps (task_to_dict t)) db
          c.nodes task_node h.loads_node;
  }
  redis_loads_write (Write.checkpoint cp) db c h = record {
    loads_job =
        Holds-Apart job_from_dict job_prefix checkpoint_prefix cp.task_id
          (dumps (checkpoint_to_dict cp)) db c.store.jobs
          (Apart_sym job_prefix checkpoint_prefix job_checkpoint) h.loads_job;
    loads_task =
        Holds-Apart task_from_dict task_prefix checkpoint_prefix cp.task_id
          (dumps (checkpoint_to_dict cp)) db c.store.tasks
          (Apart_sym task_prefix checkpoint_prefix task_checkpoint) h.loads_task;
    loads_checkpoint =
        Holds-set checkpoint_from_dict checkpoint_prefix cp.task_id (checkpoint_to_dict cp) cp db
          c.store.checkpoints (checkpoint_from_dict-checkpoint_to_dict cp) h.loads_checkpoint;
    loads_node =
        Holds-Apart node_from_dict node_prefix checkpoint_prefix cp.task_id
          (dumps (checkpoint_to_dict cp)) db c.nodes checkpoint_node h.loads_node;
  }
  redis_loads_write (Write.node n) db c h = record {
    loads_job =
        Holds-Apart job_from_dict job_prefix node_prefix n.node_id (dumps (node_to_dict n)) db
          c.store.jobs (Apart_sym job_prefix node_prefix job_node) h.loads_job;
    loads_task =
        Holds-Apart task_from_dict task_prefix node_prefix n.node_id (dumps (node_to_dict n)) db
          c.store.tasks (Apart_sym task_prefix node_prefix task_node) h.loads_task;
    loads_checkpoint =
        Holds-Apart checkpoint_from_dict checkpoint_prefix node_prefix n.node_id
          (dumps (node_to_dict n)) db c.store.checkpoints
          (Apart_sym checkpoint_prefix node_prefix checkpoint_node) h.loads_checkpoint;
    loads_node =
        Holds-set node_from_dict node_prefix n.node_id (node_to_dict n) n db c.nodes
          (node_from_dict-node_to_dict n) h.loads_node;
  }

  redis_loads_empty : Loads (redis_store json redis) empty nothing
  unfolding Redis.load_job Redis.load_task Redis.load_checkpoint Redis.load_node
  redis_loads_empty = record {
    loads_job = Holds-empty job_from_dict job_prefix;
    loads_task = Holds-empty task_from_dict task_prefix;
    loads_checkpoint = Holds-empty checkpoint_from_dict checkpoint_prefix;
    loads_node = Holds-empty node_from_dict node_prefix;
  }

  redis-Implements :
      (db : Db) (c : Contents)
      → Loads (redis_store json redis) db c
      → Implements (redis_store json redis) db c
  unfolding Redis.list_jobs Redis.list_tasks Redis.list_nodes Redis.load_job Redis.load_task
      Redis.load_node
  redis-Implements db c h = record {
    loads = h;
    jobs = Holds-Lists job_from_dict job_prefix db c.store.jobs h.loads_job;
    tasks = Holds-Lists task_from_dict task_prefix db c.store.tasks h.loads_task;
    nodes = Holds-Lists node_from_dict node_prefix db c.nodes h.loads_node;
  }

  -- Whatever sequence of saves a Redis store began with, each of its loads finds the last saved
  -- version of the object or none, and each listing holds just the last saved versions; no read
  -- raises. A task comes back without its callable.
  pub redis_refines :
      (ws : List Write)
      → Implements
          (redis_store json redis)
          (write_all (redis_store json redis) ws empty)
          (note_all ws nothing)
  redis_refines ws =
      redis-Implements (write_all (redis_store json redis) ws empty) (note_all ws nothing) (
        Loads-write_all (redis_store json redis) redis_loads_write ws empty nothing
          redis_loads_empty)
