-- ===== src/Models/Enums.antt =====
-- mesh/models/enums.py, with the tests that the code makes on its values.
use cluster_mesh.Prelude.{ℕ, Bool, true, false, eqb}

pub data NodeState : Type 0 where
  healthy suspected dead preempted offline : NodeState

pub data ResourcePool : Type 0 where
  cpu memory gpu night : ResourcePool

pub data TaskState : Type 0 where
  pending running checkpointing paused completed failed migrating : TaskState

-- `==` on `NodeState`: the values that `auto()` gives.
abbrev number : NodeState → ℕ
number healthy = 1
number suspected = 2
number dead = 3
number preempted = 4
number offline = 5

abbrev pub same_state : NodeState → NodeState → Bool
same_state s t = eqb (number s) (number t)

-- `state in (RUNNING, PENDING, MIGRATING)`
abbrev pub is_active : TaskState → Bool
is_active running = true
is_active pending = true
is_active migrating = true
is_active _ = false

-- `state in (RUNNING, PAUSED, CHECKPOINTING)`
abbrev pub is_held : TaskState → Bool
is_held running = true
is_held paused = true
is_held checkpointing = true
is_held _ = false

abbrev pub is_running : TaskState → Bool
is_running running = true
is_running _ = false
