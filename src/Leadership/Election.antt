-- ===== src/Leadership/Election.antt =====
-- `LeaderElection` of mesh/driver/ha/election.py: one driver over the shared row. The callbacks'
-- calls are written down in `told`, in order.
use cluster_mesh.Prelude.{
  ℕ, zero, suc, ◌+◌, String, Bool, true, false, not, List, [], ◌∷◌, ◌++◌, if◌then◌else◌,
}
use cluster_mesh.Leadership.Lease.{Row, try_acquire_leadership, renew_leadership}

pub record Driver : Type 0 where
  pub driver_id : String
  pub lease_seconds : ℕ
  pub term : ℕ
  pub is_leader : Bool
  pub stopped : Bool
  pub told : List Bool

abbrev same : Bool → Bool → Bool
same true b = b
same false b = not b

-- `if acquired != self.is_leader: …`
unfoldable pub set_leader : Bool → Driver → Driver
set_leader acquired d =
    if same acquired d.is_leader
    then d
    else record d { is_leader = acquired; told = d.told ++ acquired ∷ [] }

unfoldable pub try_become_leader : ℕ → Driver → Row → Driver × Row
unfolding set_leader
try_become_leader now d row =
    let term = d.term + 1 in
    let (acquired, row') = try_acquire_leadership now d.driver_id term d.lease_seconds row in
    if d.stopped then (d, row) else (set_leader acquired (record d { term = term }), row')

-- One round of `_renew_loop`, up to its wait.
unfoldable pub renew_round : ℕ → Driver → Row → Driver × Row
unfolding try_become_leader
renew_round now d row =
    let (ok, row') = renew_leadership now d.driver_id d.term d.lease_seconds row in
    let lost : Driver = record d { is_leader = false; told = d.told ++ false ∷ [] } in
    if d.stopped
    then (d, row)
    else if d.is_leader
    then (if ok then (d, row') else try_become_leader now lost row')
    else try_become_leader now d row

unfoldable pub stop : Driver → Driver
stop d = record d { stopped = true; is_leader = false }

-- Several rounds of one driver, with the clock still.
unfoldable pub rounds : ℕ → ℕ → Driver → Row → Driver × Row
rounds zero now d row = (d, row)
rounds (suc n) now d row = let (d', row') = renew_round now d row in rounds n now d' row'
