-- ===== src/Tests/Recovery.antt =====
-- Checkpoints, stolen tasks and stragglers.
use cluster_mesh.Prelude.{ℕ, ◌≢◌, arith, List, [], ◌∷◌, some, select}
use cluster_mesh.Prelude.Dict.{Distinct}
use cluster_mesh.Models.{TaskSpec, running}
use cluster_mesh.Recovery.Stealing.{steal}
use cluster_mesh.Recovery.Spread.{AllSettled, placed_on, steal-AllSettled, steal_spreads}
use cluster_mesh.Tests.Data.{millionths, millionths-IsOrder, engine, nodes, task}

abbrev early : TaskSpec
early = task "t" 2_000 running (some "x")

abbrev orphans : List TaskSpec
orphans = early ∷ task "u" 2_000 running (some "x") ∷ []

steal-AllSettled_example :
    AllSettled millionths millionths-IsOrder engine [] 12 nodes orphans
      (steal millionths engine [] 12 orphans nodes)
unfolding select
steal-AllSettled_example = steal-AllSettled millionths millionths-IsOrder engine [] 12 orphans nodes

two : ◌≢◌ {A = ℕ} 2 1
two = omega arith

steal_spreads_example : Distinct (placed_on (steal millionths engine [] 12 orphans nodes))
unfolding select
steal_spreads_example = steal_spreads millionths millionths-IsOrder engine [] 12 orphans nodes two
