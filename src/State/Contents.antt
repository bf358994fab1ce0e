-- ===== src/State/Contents.antt =====
-- What a store promises: it holds the last saved version of each object, as the job manager's
-- `Store` does.
use cluster_mesh.Prelude.{String, Option, some, List, [], ◌∷◌, ◌≡◌, ◌↔◌}
use cluster_mesh.Prelude.Dict.{Dict, get, put}
use cluster_mesh.Prelude.Sort.{Has}
use cluster_mesh.Models.{Job, TaskSpec, Checkpoint, Node}
use cluster_mesh.Jobs.Manager
use cluster_mesh.Jobs.Manager.{Store}
use cluster_mesh.State.Interface.{StateStore}

pub record Contents : Type 0 where
  pub store : Store
  pub nodes : Dict Node

abbrev pub nothing : Contents
nothing = record { store = record { jobs = []; tasks = []; checkpoints = [] }; nodes = [] }

-- One call that writes.
pub data Write : Type 0 where
  job : Job → Write
  task : TaskSpec → Write
  checkpoint : Checkpoint → Write
  node : Node → Write

abbrev pub write : {S : Type 0} → StateStore S → Write → S → S
write st (Write.job j) = st.save_job j
write st (Write.task t) = st.save_task t
write st (Write.checkpoint cp) = st.save_checkpoint cp
write st (Write.node n) = st.save_node n

abbrev pub note : Write → Contents → Contents
note (Write.job j) c = record c { store = Manager.save_job j c.store }
note (Write.task t) c = record c { store = Manager.save_task t c.store }
note (Write.checkpoint cp) c = record c { store = Manager.save_checkpoint (some cp) c.store }
note (Write.node n) c = record c { nodes = put n.node_id n c.nodes }

unfoldable pub write_all : {S : Type 0} → StateStore S → List Write → S → S
write_all st [] s = s
write_all st (w ∷ ws) s = write_all st ws (write st w s)

unfoldable pub note_all : List Write → Contents → Contents
note_all [] c = c
note_all (w ∷ ws) c = note_all ws (note w c)

-- The listing does not raise, and lists what the dictionary holds.
abbrev pub Lists : {A : Type 0} → Option (List A) → Dict A → Type 0
Lists {A = A} listing d =
    (found : List A) × (listing ≡ some found)
    × ((a : A) → Has a found ↔ ((k : String) × (get k d ≡ some a)))

-- The store's loads find just what the contents hold.
pub record Loads {S : Type 0} (st : StateStore S) (s : S) (c : Contents) : Type 0 where
  pub loads_job : (id : String) → st.load_job id s ≡ some (get id c.store.jobs)
  pub loads_task : (id : String) → st.load_task id s ≡ some (get id c.store.tasks)
  pub loads_checkpoint : (id : String) → st.load_checkpoint id s ≡ some (get id c.store.checkpoints)
  pub loads_node : (id : String) → st.load_node id s ≡ some (get id c.nodes)

-- Its loads and its listings answer as the contents do.
pub record Implements {S : Type 0} (st : StateStore S) (s : S) (c : Contents) : Type 0 where
  pub loads : Loads st s c
  pub jobs : Lists (st.list_jobs s) c.store.jobs
  pub tasks : Lists (st.list_tasks s) c.store.tasks
  pub nodes : Lists (st.list_nodes s) c.nodes

-- A store that keeps its promise on every write keeps it on a sequence of them.
pub Loads-write_all :
    {S : Type 0} (st : StateStore S)
    → ((w : Write) (s : S) (c : Contents) → Loads st s c → Loads st (write st w s) (note w c))
    → (ws : List Write) (s : S) (c : Contents) → Loads st s c
    → Loads st (write_all st ws s) (note_all ws c)
unfolding write_all note_all
Loads-write_all st keeps [] s c h = h
Loads-write_all st keeps (w ∷ ws) s c h =
    Loads-write_all st keeps ws (write st w s) (note w c) (keeps w s c h)
