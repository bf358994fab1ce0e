-- ===== src/Health/Deadlines.antt =====
-- When a node is SUSPECTED or DEAD, in terms of the time since its last heartbeat.
use native.Mathlib.Nat.{le-div_iff_mul-le, mul_comm}
use cluster_mesh.Prelude.{
  ℕ, ◌+◌, ◌-◌, ◌*◌, ◌≤◌, ◌<◌, String, ◌≡◌, false, some, arith, leb, if◌then◌else◌, Bool-cases,
  Option-cases, inl, inr,
}
use cluster_mesh.Prelude.Dict.{get, member}
use cluster_mesh.Models.{NodeState, healthy, suspected, dead}
use cluster_mesh.Health.Tracker.{
  HeartbeatTracker, evaluate, classify, missed_count, at_least, whole_intervals, time_to_dead,
  time_to_suspected,
}

-- `k` whole intervals have passed exactly when `interval * k` fits in the time since `last`.
whole_intervals_reach :
    (now last interval k : ℕ)
    → 0 < interval
    → 0 < k
    → at_least (whole_intervals now last interval) k ≡ leb (last + interval * k) now
whole_intervals_reach now last interval k hi hk = ground (
  arith,
  (le-div_iff_mul-le {k = interval} {x = k} {y = now - last} hi).0,
  (le-div_iff_mul-le {k = interval} {x = k} {y = now - last} hi).1,
  mul_comm k interval,
  hk_pos,
)
  where
    hk_pos : 0 < interval * k
    hk_pos = grind arith

-- The thresholds are positive and in order.
pub record IsConfigured (t : HeartbeatTracker) : Type 0 where
  pub interval : 0 < t.interval_seconds
  pub suspected_first : 0 < t.suspected_threshold
  pub ordered : t.suspected_threshold ≤ t.dead_threshold

-- The state that the documentation promises, from the time of the last heartbeat.
abbrev pub state_at : HeartbeatTracker → ℕ → ℕ → NodeState
state_at t last now =
    if leb (last + time_to_dead t) now
    then dead
    else if leb (last + time_to_suspected t) now
    then suspected
    else healthy

-- With a positive interval and positive thresholds in order: for a node with a heartbeat at `last`
-- that is not marked dead, `evaluate` answers DEAD from `last + time_to_dead()` on, else SUSPECTED
-- from `last + time_to_suspected()` on, else HEALTHY, whatever the clock reads.
pub evaluate-eq-state_at :
    (t : HeartbeatTracker) (id : String) (last now : ℕ)
    → IsConfigured t
    → member id t.explicit_dead ≡ false
    → get id t.last_heartbeat ≡ some last
    → (evaluate now id t).0 ≡ state_at t last now
unfolding evaluate classify missed_count time_to_dead time_to_suspected
evaluate-eq-state_at t id last now c unmarked known = ground (
  arith,
  whole_intervals_reach now last t.interval_seconds t.dead_threshold c.interval,
  whole_intervals_reach now last t.interval_seconds t.suspected_threshold c.interval,
)

abbrev rank : NodeState → ℕ
rank dead = 2
rank suspected = 1
rank _ = 0

state_at_degrades :
    (t : HeartbeatTracker) (last now later : ℕ)
    → now ≤ later
    → rank (state_at t last now) ≤ rank (state_at t last later)
state_at_degrades t last now later h = ground arith

-- Without a heartbeat in between, a later evaluation never reports a better state.
evaluate_degrades :
    (t : HeartbeatTracker) (id : String) (now later : ℕ)
    → IsConfigured t
    → now ≤ later
    → rank (evaluate now id t).0 ≤ rank (evaluate later id t).0
evaluate_degrades t id now later c h = elim (Bool-cases (member id t.explicit_dead)) [
  | inl marked ↦ unfold evaluate in rw marked (omega arith)
  | inr unmarked ↦ elim (Option-cases (get id t.last_heartbeat)) [
    | inl unknown ↦ unfold evaluate in rw (unmarked, unknown) (omega arith)
    | inr (last, known) ↦
        rw
          (
            evaluate-eq-state_at t id last now c unmarked known,
            evaluate-eq-state_at t id last later c unmarked known,
          )
          (state_at_degrades t last now later h)
  ]
]
