-- ===== src/Tests/Pool.antt =====
-- An allocation that is made and released by requests.
use cluster_mesh.Prelude.{ℕ, String, [], refl}
use cluster_mesh.Prelude.Dict.{get}
use cluster_mesh.Memory.Fabric.{init}
use cluster_mesh.Api.Pool.{Context, Stamp, memory_allocate, memory_release}
use cluster_mesh.Api.Pool.Accounts.{Step, Reach, IsAccounted, Reach-IsAccounted}
use cluster_mesh.Tests.Api.{cluster}

abbrev fresh_driver : Context
fresh_driver = record {
  cluster = cluster;
  memory = init;
  bus = record { max_events = 10; events = []; subscribers = []; delivered = [] };
}

abbrev shown : ℕ → String
shown n = "3.0"

abbrev at_nine : Stamp
at_nine = record { id = "e1"; timestamp = "09:00" }

abbrev allocated : Context
allocated = (memory_allocate shown at_nine 13_000 "m" 3_000 "me" fresh_driver).1

abbrev emptied : Context
emptied = (memory_release at_nine "m" allocated).1

requests : Reach shown fresh_driver emptied
unfolding get
requests =
    Reach.next (Reach.next Reach.here (Step.allocated at_nine 13_000 "m" 3_000 "me" refl))
      (Step.released at_nine "m")

Reach-IsAccounted_example : IsAccounted emptied
Reach-IsAccounted_example = Reach-IsAccounted shown fresh_driver emptied refl requests
