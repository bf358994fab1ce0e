-- ===== src/Health/History.antt =====
-- Runs of tracker operations: what a sequence of calls does to the verdict on one node.
use native.Mathlib.Nat.{mul-le-mul_left}
use cluster_mesh.Prelude.{
  ℕ, ◌+◌, ◌≤◌, ◌<◌, String, ◌≡◌, ◌∙◌, refl, ◌≢◌, true, false, List, [], ◌∷◌, ◌==◌, arith, eq_refl,
  All,
}
use cluster_mesh.Prelude.Dict.{get, member, get-put, member-add, member-discard, dict_laws}
use cluster_mesh.Models.{healthy, dead, preempted}
use cluster_mesh.Health.Tracker
use cluster_mesh.Health.Tracker.{
  HeartbeatTracker, classify, missed_count, time_to_suspected, time_to_dead,
}
use cluster_mesh.Health.Deadlines.{IsConfigured, evaluate-eq-state_at}

pub data Call : Type 0 where
  register record_heartbeat evaluate : (now : ℕ) (id : String) → Call
  mark_dead mark_preempted : (id : String) → Call

abbrev pub step : Call → HeartbeatTracker → HeartbeatTracker
step (Call.register now id) t = Tracker.register now id t
step (Call.record_heartbeat now id) t = (Tracker.record_heartbeat now id t).1
step (Call.evaluate now id) t = (Tracker.evaluate now id t).1
step (Call.mark_dead id) t = Tracker.mark_dead id t
step (Call.mark_preempted id) t = Tracker.mark_preempted id t

unfoldable pub run : List Call → HeartbeatTracker → HeartbeatTracker
run [] t = t
run (call ∷ calls) t = run calls (step call t)

-- The call does not report the node alive.
abbrev pub NoSign : String → Call → Type 0
NoSign id (Call.register now j) = (j == id) ≡ false
NoSign id (Call.record_heartbeat now j) = (j == id) ≡ false
NoSign id _ = Unit

step-marked :
    (id : String) (call : Call) (t : HeartbeatTracker)
    → NoSign id call
    → member id t.explicit_dead ≡ true
    → member id (step call t).explicit_dead ≡ true
unfolding Tracker.register Tracker.record_heartbeat Tracker.evaluate Tracker.mark_dead
    Tracker.mark_preempted
step-marked id (Call.register now j) t q m = rw (member-discard j id t.explicit_dead, q) m
step-marked id (Call.record_heartbeat now j) t q m = rw (member-discard j id t.explicit_dead, q) m
step-marked id (Call.evaluate now j) t q m = ground arith
step-marked id (Call.mark_dead j) t q m = ground (arith, member-add j id t.explicit_dead)
step-marked id (Call.mark_preempted j) t q m = m

run-marked :
    (id : String) (calls : List Call) (t : HeartbeatTracker)
    → All (NoSign id) calls
    → member id t.explicit_dead ≡ true
    → member id (run calls t).explicit_dead ≡ true
unfolding run
run-marked id [] t q m = m
run-marked id (call ∷ calls) t q m =
    run-marked id calls (step call t) q.1 (step-marked id call t q.0 m)

-- A node that was marked dead evaluates to DEAD, at any time and whatever was called since, as
-- long as no call registered it or recorded its heartbeat.
mark_dead_sticks :
    (id : String) (calls : List Call) (t : HeartbeatTracker) (now : ℕ)
    → All (NoSign id) calls
    → (Tracker.evaluate now id (run calls (Tracker.mark_dead id t))).0 ≡ dead
mark_dead_sticks id calls t now q =
    unfold Tracker.evaluate in rw (run-marked id calls (Tracker.mark_dead id t) q (marked id t))
  where
    marked :
        (id : String) (t : HeartbeatTracker)
        → member id (Tracker.mark_dead id t).explicit_dead ≡ true
    marked id t = unfold Tracker.mark_dead in rw (member-add, eq_refl)

-- The call is about another node.
abbrev pub Elsewhere : String → Call → Type 0
Elsewhere id (Call.register now j) = (j == id) ≡ false
Elsewhere id (Call.record_heartbeat now j) = (j == id) ≡ false
Elsewhere id (Call.evaluate now j) = (j == id) ≡ false
Elsewhere id (Call.mark_dead j) = (j == id) ≡ false
Elsewhere id (Call.mark_preempted j) = (j == id) ≡ false

-- What the verdict on `id` reads of a tracker.
pub record Agree (id : String) (t u : HeartbeatTracker) : Type 0 where
  pub interval : t.interval_seconds ≡ u.interval_seconds
  pub suspected_at : t.suspected_threshold ≡ u.suspected_threshold
  pub dead_at : t.dead_threshold ≡ u.dead_threshold
  pub marked : member id t.explicit_dead ≡ member id u.explicit_dead
  pub heard : get id t.last_heartbeat ≡ get id u.last_heartbeat

pub evaluate_agrees :
    (id : String) (t u : HeartbeatTracker) (now : ℕ)
    → Agree id t u
    → (Tracker.evaluate now id t).0 ≡ (Tracker.evaluate now id u).0
unfolding Tracker.evaluate missed_count classify
evaluate_agrees id t u now a = ground arith

step-Agree :
    (id : String) (call : Call) (t : HeartbeatTracker)
    → Elsewhere id call
    → Agree id (step call t) t
unfolding Tracker.register Tracker.record_heartbeat Tracker.evaluate Tracker.mark_dead
    Tracker.mark_preempted
step-Agree id (Call.register at j) t q =
    ground (arith, member-discard j id t.explicit_dead, get-put j id at t.last_heartbeat)
step-Agree id (Call.record_heartbeat at j) t q =
    ground (arith, member-discard j id t.explicit_dead, get-put j id at t.last_heartbeat)
step-Agree id (Call.evaluate at j) t q = ground arith
step-Agree id (Call.mark_dead j) t q = ground (arith, member-add j id t.explicit_dead)
step-Agree id (Call.mark_preempted j) t q = ground arith

-- No sequence of calls about other nodes changes the verdict on a node.
run-Elsewhere :
    (id : String) (calls : List Call) (t : HeartbeatTracker) (now : ℕ)
    → All (Elsewhere id) calls
    → (Tracker.evaluate now id (run calls t)).0 ≡ (Tracker.evaluate now id t).0
unfolding run
run-Elsewhere id [] t now q = refl
run-Elsewhere id (call ∷ calls) t now q =
    run-Elsewhere id calls (step call t) now q.1
    ∙ evaluate_agrees id (step call t) t now (step-Agree id call t q.0)

-- With a positive interval and positive thresholds in order: a heartbeat revives a node, marked
-- dead or not. Until `time_to_suspected()` has passed, it evaluates to HEALTHY.
record_heartbeat_revives :
    (id : String) (t : HeartbeatTracker) (last now : ℕ)
    → IsConfigured t
    → last ≤ now
    → now < last + time_to_suspected t
    → (Tracker.evaluate now id (Tracker.record_heartbeat last id t).1).0 ≡ healthy
unfolding Tracker.record_heartbeat time_to_suspected time_to_dead
record_heartbeat_revives id t last now c h fresh =
    let t' : HeartbeatTracker = (Tracker.record_heartbeat last id t).1 in
    rw
      (evaluate-eq-state_at t' id last now
        (record { interval = c.interval; suspected_first = c.suspected_first; ordered = c.ordered })
        (simp (dict_laws, eq_refl)) (simp (dict_laws, eq_refl)))
      (ground (arith, mul-le-mul_left t.interval_seconds c.ordered))

-- `evaluate` never reports PREEMPTED, and marking a node as PREEMPTED does not change its verdict.
evaluate_forgets_preempted :
    (id : String) (t : HeartbeatTracker) (now : ℕ)
    → ((Tracker.evaluate now id (Tracker.mark_preempted id t)).0 ≡ (Tracker.evaluate now id t).0)
      × ((Tracker.evaluate now id t).0 ≢ preempted)
unfolding Tracker.evaluate Tracker.mark_preempted missed_count classify
evaluate_forgets_preempted id t now =
    (evaluate_agrees id (Tracker.mark_preempted id t) t now (ground arith), ground arith)
