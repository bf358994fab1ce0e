-- ===== src/Tests/Health.antt =====
-- Heartbeats every 2 s, SUSPECTED after 3 missed and DEAD after 5.
use cluster_mesh.Prelude.{◌≡◌, refl, arith, List, [], ◌∷◌, select}
use cluster_mesh.Prelude.Dict.{get, keys, member}
use cluster_mesh.Models.{healthy, suspected, dead}
use cluster_mesh.Health.Tracker
use cluster_mesh.Health.Tracker.{HeartbeatTracker}
use cluster_mesh.Health.Registry.{Env, evaluate_all}
use cluster_mesh.Health.Deadlines.{IsConfigured, evaluate-eq-state_at}
use cluster_mesh.Health.History.{Call, run}
use cluster_mesh.Health.PerNode.{view, reacts, run-view}
use cluster_mesh.Health.Sweep.{Change, recorder, changes, evaluate_all-notifies}

abbrev tracker : HeartbeatTracker
tracker = record {
  interval_seconds = 2_000;
  suspected_threshold = 3;
  dead_threshold = 5;
  last_heartbeat = ("a", 1_000) ∷ ("b", 9_000) ∷ [];
  states = ("a", healthy) ∷ ("b", healthy) ∷ [];
  explicit_dead = [];
}

configured : IsConfigured tracker
configured = record { interval = omega arith; suspected_first = omega arith; ordered = omega arith }

evaluate-eq-state_at_example : (Tracker.evaluate 8_000 "a" tracker).0 ≡ suspected
unfolding get member Tracker.time_to_dead Tracker.time_to_suspected
evaluate-eq-state_at_example = evaluate-eq-state_at tracker "a" 1_000 8_000 configured refl refl

abbrev calls : List Call
calls = Call.evaluate 2_000 "a" ∷ Call.record_heartbeat 2_500 "b" ∷ Call.mark_preempted "b" ∷ []

abbrev unnotified : Env (List Change)
unnotified = record { tracker = tracker; world = [] }

evaluate_all-notifies_example :
    (evaluate_all (recorder ∷ []) 12_000 unnotified).1.world
    ≡ changes 12_000 ("a" ∷ "b" ∷ []) tracker
unfolding keys member
evaluate_all-notifies_example = evaluate_all-notifies 12_000 unnotified (refl, (refl, tt))

-- Node "a" is reported as DEAD, and "b", whose state did not change, is not reported.
changes_of_tracker :
    changes 12_000 ("a" ∷ "b" ∷ []) tracker ≡ record { node = "a"; old = healthy; new = dead } ∷ []
unfolding changes Tracker.evaluate Tracker.get_state Tracker.classify Tracker.missed_count get
    member
changes_of_tracker = refl

-- What node "b" goes through is its heartbeat and its preemption.
run-view_example :
    view "b" (run calls tracker)
    ≡ reacts tracker
        (Call.record_heartbeat 2_500 "b" ∷ Call.mark_preempted "b" ∷ [])
        (view "b" tracker)
unfolding select
run-view_example = run-view tracker calls "b" configured
