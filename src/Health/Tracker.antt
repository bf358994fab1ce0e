-- ===== src/Health/Tracker.antt =====
-- `HeartbeatTracker` of mesh/health/heartbeat.py. Times are natural numbers of one unit (say a
-- millisecond), and the clock's reading is an argument, `now`. `interval_seconds` is positive: at
-- zero the source raises ZeroDivisionError.
use cluster_mesh.Prelude.{
  ℕ, ◌-◌, ◌*◌, ◌/◌, String, Bool, false, none, some, List, leb, if◌then◌else◌,
}
use cluster_mesh.Prelude.Dict.{Dict, get, get_or, put, member, add, discard}
use cluster_mesh.Prelude.Int.{ℤ, pos, negsuc}
use cluster_mesh.Models.{NodeState, healthy, suspected, dead, preempted, offline}

pub record HeartbeatTracker : Type 0 where
  pub interval_seconds : ℕ
  pub suspected_threshold : ℕ
  pub dead_threshold : ℕ
  pub last_heartbeat : Dict ℕ
  pub states : Dict NodeState
  pub explicit_dead : List String

unfoldable pub register : ℕ → String → HeartbeatTracker → HeartbeatTracker
register now id t = record t {
  last_heartbeat = put id now t.last_heartbeat;
  states = put id healthy t.states;
  explicit_dead = discard id t.explicit_dead;
}

unfoldable pub record_heartbeat : ℕ → String → HeartbeatTracker → NodeState × HeartbeatTracker
record_heartbeat now id t = (
  healthy,
  record t {
    last_heartbeat = put id now t.last_heartbeat;
    states = put id healthy t.states;
    explicit_dead = discard id t.explicit_dead;
  },
)

-- `int((now - last) // interval)`: floored, and negative if the clock went back.
abbrev pub whole_intervals : ℕ → ℕ → ℕ → ℤ
whole_intervals now last interval =
    if leb last now then pos ((now - last) / interval) else negsuc ((last - now - 1) / interval)

unfoldable pub missed_count : ℕ → String → HeartbeatTracker → ℤ
missed_count now id t = elim (get id t.last_heartbeat) [
  | none ↦ pos t.dead_threshold
  | some last ↦ whole_intervals now last t.interval_seconds
]

abbrev pub at_least : ℤ → ℕ → Bool
at_least (pos n) k = leb k n
at_least (negsuc n) k = false

unfoldable pub classify : HeartbeatTracker → ℤ → NodeState
classify t missed =
    if at_least missed t.dead_threshold
    then dead
    else if at_least missed t.suspected_threshold
    then suspected
    else healthy

unfoldable pub evaluate : ℕ → String → HeartbeatTracker → NodeState × HeartbeatTracker
evaluate now id t =
    if member id t.explicit_dead
    then (dead, record t { states = put id dead t.states })
    else elim (get id t.last_heartbeat) [
      | none ↦ (dead, t)
      | some _ ↦
          let state = classify t (missed_count now id t) in
          (state, record t { states = put id state t.states })
    ]

unfoldable pub get_state : String → HeartbeatTracker → NodeState
get_state id t = get_or offline id t.states

unfoldable pub mark_dead : String → HeartbeatTracker → HeartbeatTracker
mark_dead id t = record t { states = put id dead t.states; explicit_dead = add id t.explicit_dead }

unfoldable pub mark_preempted : String → HeartbeatTracker → HeartbeatTracker
mark_preempted id t = record t { states = put id preempted t.states }

unfoldable pub time_to_suspected : HeartbeatTracker → ℕ
time_to_suspected t = t.interval_seconds * t.suspected_threshold

unfoldable pub time_to_dead : HeartbeatTracker → ℕ
time_to_dead t = t.interval_seconds * t.dead_threshold
