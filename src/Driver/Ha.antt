-- ===== src/Driver/Ha.antt =====
-- `HADriverCoordinator` of mesh/driver/ha/coordinator.py: an election whose outcome a job manager
-- follows. The callbacks that the election makes are the new entries of its `told`.
use mathlib.Core.List.{append-nil}
use cluster_mesh.Prelude.{
  ℕ, ◌+◌, String, ◌≡◌, refl, sym, Bool, true, false, Option, none, some, List, [], ◌∷◌, ◌++◌, arith,
  if◌then◌else◌, Bool-cases, inl, inr,
}
use cluster_mesh.Leadership.Lease.{Row, try_acquire_leadership}
use cluster_mesh.Leadership.Election
use cluster_mesh.Leadership.Election.{Driver, try_become_leader, renew_round, set_leader}
use cluster_mesh.Jobs.Manager.{JobManager}
use cluster_mesh.Jobs.Dispatch.{Agents}
use cluster_mesh.Jobs.Resume.{resume_from_store}

pub record HaDriver : Type 0 where
  pub election : Driver
  pub manager : JobManager

-- The calls that were made since the first list.
unfoldable pub calls_since : List Bool → List Bool → List Bool
calls_since [] told = told
calls_since (x ∷ before) [] = []
calls_since (x ∷ before) (y ∷ told) = calls_since before told

-- `manager.leadership_check` is the election's `is_leader`.
abbrev pub follows : Driver → JobManager → JobManager
follows d m = record m { leads = d.is_leader }

module _ (agents : Agents) (registry : String → Option String) (now : ℕ) where
  -- `resume_from_store(self.store)`, of a manager with that store.
  unfoldable pub resume : JobManager → JobManager
  resume m = elim m.state_store [
    | none ↦ m
    | some store ↦ resume_from_store agents registry now store m
  ]

  -- `_on_leadership`, for the calls in their order.
  unfoldable pub on_leadership : List Bool → JobManager → JobManager
  unfolding resume
  on_leadership [] m = m
  on_leadership (true ∷ calls) m = on_leadership calls (resume m)
  on_leadership (false ∷ calls) m = on_leadership calls m

  -- The coordinator after the election moved.
  abbrev pub moved : Driver → HaDriver → HaDriver
  moved d h = record {
    election = d;
    manager = on_leadership (calls_since h.election.told d.told) (follows d h.manager);
  }

  -- `start`, up to the thread of the election.
  unfoldable pub start : HaDriver → Row → HaDriver × Row
  unfolding on_leadership resume
  start h row =
      let (d, row') = try_become_leader now h.election row in
      let h' = moved d h in
      (record h' { manager = if d.is_leader then resume h'.manager else h'.manager }, row')

  -- A round of the election's loop.
  unfoldable pub round : HaDriver → Row → HaDriver × Row
  unfolding on_leadership
  round h row = let (d, row') = renew_round now h.election row in (moved d h, row')

  unfoldable pub stop : HaDriver → HaDriver
  stop h =
      let d = Election.stop h.election in record { election = d; manager = follows d h.manager }

  calls_since-append : (before calls : List Bool) → calls_since before (before ++ calls) ≡ calls
  unfolding calls_since
  calls_since-append [] calls = refl
  calls_since-append (x ∷ before) calls = calls_since-append before calls

  elected :
      (d : Driver) (row : Row)
      → d.stopped ≡ false
      → d.is_leader ≡ false
      → (try_acquire_leadership now d.driver_id (d.term + 1) d.lease_seconds row).0 ≡ true
      → ((try_become_leader now d row).0.is_leader ≡ true)
        × ((try_become_leader now d row).0.told ≡ d.told ++ true ∷ [])
  unfolding try_become_leader set_leader
  elected d row runs follower won = ground arith

  passed_over :
      (d : Driver) (row : Row)
      → d.stopped ≡ false
      → d.is_leader ≡ false
      → (try_acquire_leadership now d.driver_id (d.term + 1) d.lease_seconds row).0 ≡ false
      → ((try_become_leader now d row).0.is_leader ≡ false)
        × ((try_become_leader now d row).0.told ≡ d.told ++ [])
  unfolding try_become_leader set_leader
  passed_over d row runs follower lost =
      let told_nothing : d.told ≡ d.told ++ [] = sym (append-nil d.told) in
      ground (arith, told_nothing)

  -- A driver that starts as a follower and wins the election loads its durable state twice, once by
  -- the election's callback and once more after it; one that does not win loads nothing and writes
  -- nothing from then on.
  pub start-manager :
      (h : HaDriver) (row : Row)
      → h.election.stopped ≡ false
      → h.election.is_leader ≡ false
      → (start h row).0.manager ≡ (
          if (try_acquire_leadership now h.election.driver_id
            (h.election.term + 1)
            h.election.lease_seconds
            row).0
          then resume (resume (record (h.manager) { leads = true }))
          else record (h.manager) { leads = false })
  unfolding start on_leadership
  start-manager h row runs follower =
      elim (Bool-cases
        (try_acquire_leadership now h.election.driver_id (h.election.term + 1)
          h.election.lease_seconds row).0) [
            | inl won ↦
                (let (leads, told) = elected h.election row runs follower won in
                  rw (won, leads, told, calls_since-append))
            | inr lost ↦
                (let (leads, told) = passed_over h.election row runs follower lost in
                  rw (lost, leads, told, calls_since-append))
          ]
