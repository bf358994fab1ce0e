-- ===== src/Health/PerNode.antt =====
-- A tracker of many nodes as independent machines, one for each node.
use cluster_mesh.Prelude.{
  ℕ, String, Bool, true, false, Option, none, some, List, [], ◌∷◌, ◌==◌, ◌≡◌, refl, ◌∙◌, arith,
  select, eq_iff, Bool-cases, Option-cases, inl, inr, if◌then◌else◌,
}
use cluster_mesh.Prelude.Dict.{get, put, member, get-put, member-add, member-discard}
use cluster_mesh.Models.{NodeState, healthy, dead, preempted}
use cluster_mesh.Health.Tracker
use cluster_mesh.Health.Tracker.{HeartbeatTracker, time_to_suspected, time_to_dead}
use cluster_mesh.Health.Deadlines.{IsConfigured, state_at, evaluate-eq-state_at}
use cluster_mesh.Health.History.{Call, step, run}

-- What the tracker holds of one node.
pub record NodeView : Type 0 where
  pub last : Option ℕ
  pub state : Option NodeState
  pub marked : Bool

abbrev pub view : String → HeartbeatTracker → NodeView
view id t = record {
  last = get id t.last_heartbeat;
  state = get id t.states;
  marked = member id t.explicit_dead;
}

abbrev alive : ℕ → NodeView
alive now = record { last = some now; state = some healthy; marked = false }

-- The verdict of a look is stored; it is read off the deadlines. A node that was never heard of keeps
-- its state.
abbrev looked_at : HeartbeatTracker → ℕ → NodeView → NodeView
looked_at t₀ now v =
    if v.marked
    then record v { state = some dead }
    else elim v.last [ none ↦ v | some last ↦ record v { state = some (state_at t₀ last now) } ]

-- A node's machine, under the settings of `t₀`.
pub react : HeartbeatTracker → Call → NodeView → NodeView
react t₀ (Call.register now id) v = alive now
react t₀ (Call.record_heartbeat now id) v = alive now
react t₀ (Call.evaluate now id) v = looked_at t₀ now v
react t₀ (Call.mark_dead id) v = record v { state = some dead; marked = true }
react t₀ (Call.mark_preempted id) v = record v { state = some preempted }

pub reacts : HeartbeatTracker → List Call → NodeView → NodeView
reacts t₀ [] v = v
reacts t₀ (call ∷ calls) v = reacts t₀ calls (react t₀ call v)

-- The node that a call is about.
abbrev pub node_of : Call → String
node_of (Call.register now id) = id
node_of (Call.record_heartbeat now id) = id
node_of (Call.evaluate now id) = id
node_of (Call.mark_dead id) = id
node_of (Call.mark_preempted id) = id

abbrev pub about : String → Call → Bool
about id call = node_of call == id

pub record SameSettings (t u : HeartbeatTracker) : Type 0 where
  pub interval : t.interval_seconds ≡ u.interval_seconds
  pub suspected_at : t.suspected_threshold ≡ u.suspected_threshold
  pub dead_at : t.dead_threshold ≡ u.dead_threshold

pub step-SameSettings :
    (call : Call) (t u : HeartbeatTracker) → SameSettings t u → SameSettings (step call t) u
unfolding Tracker.register Tracker.record_heartbeat Tracker.evaluate Tracker.mark_dead
    Tracker.mark_preempted
step-SameSettings (Call.register now id) t u s = ground arith
step-SameSettings (Call.record_heartbeat now id) t u s = ground arith
step-SameSettings (Call.evaluate now id) t u s = ground arith
step-SameSettings (Call.mark_dead id) t u s = ground arith
step-SameSettings (Call.mark_preempted id) t u s = ground arith

-- A new state for one node.
states-view :
    (t : HeartbeatTracker) (j id : String) (state : NodeState)
    → view id (record t { states = put j state t.states })
      ≡ (if j == id then record (view id t) { state = some state } else view id t)
states-view t j id state = ground (arith, get-put j id state t.states)

configured_too : (t₀ t : HeartbeatTracker) → IsConfigured t₀ → SameSettings t t₀ → IsConfigured t
configured_too t₀ t c s = ground arith

state_at-settings :
    (t₀ t : HeartbeatTracker) (last now : ℕ)
    → SameSettings t t₀
    → state_at t last now ≡ state_at t₀ last now
unfolding time_to_suspected time_to_dead
state_at-settings t₀ t last now s = rw (s.interval, s.suspected_at, s.dead_at)

-- What a look stores.
evaluate_marked :
    (t : HeartbeatTracker) (now : ℕ) (j : String)
    → member j t.explicit_dead ≡ true
    → (Tracker.evaluate now j t).1 ≡ record t { states = put j dead t.states }
unfolding Tracker.evaluate
evaluate_marked t now j m = rw m

evaluate_unknown :
    (t : HeartbeatTracker) (now : ℕ) (j : String)
    → member j t.explicit_dead ≡ false
    → get j t.last_heartbeat ≡ none
    → (Tracker.evaluate now j t).1 ≡ t
unfolding Tracker.evaluate
evaluate_unknown t now j m e = rw (m, e)

evaluate_stored :
    (t : HeartbeatTracker) (now last : ℕ) (j : String)
    → member j t.explicit_dead ≡ false
    → get j t.last_heartbeat ≡ some last
    → (Tracker.evaluate now j t).1
      ≡ record t { states = put j (Tracker.evaluate now j t).0 t.states }
unfolding Tracker.evaluate
evaluate_stored t now last j m e = rw (m, e)

evaluate-view :
    (t₀ t : HeartbeatTracker) (now : ℕ) (j id : String)
    → IsConfigured t₀
    → SameSettings t t₀
    → view id (Tracker.evaluate now j t).1
      ≡ (if j == id then looked_at t₀ now (view id t) else view id t)
evaluate-view t₀ t now j id c s = elim (Bool-cases (member j t.explicit_dead)) [
  | inl m ↦ rw (evaluate_marked t now j m, states-view t j id dead) (ground (arith, eq_iff j id))
  | inr m ↦ elim (Option-cases (get j t.last_heartbeat)) [
    | inl e ↦ rw (evaluate_unknown t now j m e) (ground (arith, eq_iff j id))
    | inr (last, e) ↦
        let verdict : (Tracker.evaluate now j t).0 ≡ state_at t₀ last now =
          evaluate-eq-state_at t j last now (configured_too t₀ t c s) m e
          ∙ state_at-settings t₀ t last now s in
        rw
          (
            evaluate_stored t now last j m e,
            states-view t j id (Tracker.evaluate now j t).0,
            verdict,
          )
          (ground (arith, eq_iff j id))
  ]
]

step-view :
    (t₀ t : HeartbeatTracker) (call : Call) (id : String)
    → IsConfigured t₀
    → SameSettings t t₀
    → view id (step call t) ≡ (if about id call then react t₀ call (view id t) else view id t)
unfolding react Tracker.register Tracker.record_heartbeat Tracker.mark_dead Tracker.mark_preempted
step-view t₀ t (Call.register now j) id c s = ground (
  arith,
  eq_iff j id,
  get-put j id now t.last_heartbeat,
  get-put j id healthy t.states,
  member-discard j id t.explicit_dead,
)
step-view t₀ t (Call.record_heartbeat now j) id c s = ground (
  arith,
  eq_iff j id,
  get-put j id now t.last_heartbeat,
  get-put j id healthy t.states,
  member-discard j id t.explicit_dead,
)
step-view t₀ t (Call.evaluate now j) id c s = evaluate-view t₀ t now j id c s
step-view t₀ t (Call.mark_dead j) id c s =
    ground (arith, eq_iff j id, get-put j id dead t.states, member-add j id t.explicit_dead)
step-view t₀ t (Call.mark_preempted j) id c s =
    ground (arith, eq_iff j id, get-put j id preempted t.states)

run_settled :
    (calls : List Call) (t₀ t : HeartbeatTracker) (id : String)
    → IsConfigured t₀
    → SameSettings t t₀
    → view id (run calls t) ≡ reacts t₀ (select (about id) calls) (view id t)
unfolding run reacts select
run_settled [] t₀ t id c s = refl
run_settled (call ∷ calls) t₀ t id c s =
    let onward = run_settled calls t₀ (step call t) id c (step-SameSettings call t t₀ s) in
    elim (Bool-cases (about id call)) [
      | inl mine ↦ onward ∙ rw (step-view t₀ t call id c s, mine) refl
      | inr other ↦ onward ∙ rw (step-view t₀ t call id c s, other) refl
    ]

-- After any calls the tracker holds of each node what that node's own machine reaches by the calls
-- about it, whatever calls about other nodes came in between, under positive settings in order.
pub run-view :
    (t : HeartbeatTracker) (calls : List Call) (id : String)
    → IsConfigured t
    → view id (run calls t) ≡ reacts t (select (about id) calls) (view id t)
run-view t calls id c =
    run_settled calls t t id c (record { interval = refl; suspected_at = refl; dead_at = refl })
