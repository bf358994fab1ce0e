-- ===== src/Driver/Servicer/Alive.antt =====
-- The agent's loop over the driver's handlers: an agent that goes on calling stays HEALTHY.
use cluster_mesh.Prelude.{
  ℕ, ◌+◌, ◌≤◌, ◌<◌, String, ◌≡◌, refl, ap, ◌∙◌, true, false, Option, none, some, List, ◌∷◌, arith,
  All, eq_refl, eq_iff, Bool, if◌then◌else◌, Bool-cases, inl, inr,
}
use cluster_mesh.Prelude.Dict.{get, member, get-put, member-discard}
use Prim.Native.Nat.{◌*◌}
use cluster_mesh.Models.{NodeState, healthy, preempted, same_state}
use cluster_mesh.Health.Tracker
use cluster_mesh.Health.Tracker.{HeartbeatTracker, time_to_suspected, time_to_dead}
use cluster_mesh.Health.Registry
use cluster_mesh.Health.Deadlines.{IsConfigured, state_at, evaluate-eq-state_at}
use cluster_mesh.Agent.Client.{ResourceReport, resource_msg}
use cluster_mesh.Agent.Daemon.{
  AgentConfig, DriverStub, LoopState, Flow, goes_on, breaks, Pass, loop,
}
use cluster_mesh.Agent.Daemon.Punctual.{IsReliable, IsCalm, GoesOn, last_now, loop-HeardLately}
use cluster_mesh.Driver.Cluster.{
  Cluster, on_state_change, register_node, update_node_resources, update_node_state,
}
use cluster_mesh.Driver.Servicer.{
  RegisterRequest, node_of, register_node_handler, heartbeat, report_resources, preemption_warning,
}

-- The tracker's settings.
pub record Settings : Type 0 where
  pub interval_seconds : ℕ
  pub suspected_threshold : ℕ
  pub dead_threshold : ℕ

abbrev pub settings : HeartbeatTracker → Settings
settings t = record {
  interval_seconds = t.interval_seconds;
  suspected_threshold = t.suspected_threshold;
  dead_threshold = t.dead_threshold;
}

-- What decides on an agent: its last heartbeat, unless it is marked dead, and the settings.
abbrev pub seen : String → Cluster → Option ℕ × Settings
seen id env = (
  (if member id env.tracker.explicit_dead then none else get id env.tracker.last_heartbeat),
  settings env.tracker,
)

-- The job manager's part of a preemption leaves what decides on the agent as it is.
abbrev pub KeepsSeen : (String → Cluster → Cluster) → String → Type 0
KeepsSeen handle_preemption node_id =
    (env : Cluster) → seen node_id (handle_preemption node_id env) ≡ seen node_id env

module _ (handle_node_death handle_preemption : String → Cluster → Cluster) (node_id : String) where
  -- The stub of an agent whose calls reach the handlers.
  abbrev pub stub : DriverStub Cluster
  stub = record {
    report_resources = λ snapshot env.
        some (
          report_resources (resource_msg node_id snapshot.resources snapshot.host_metrics_json)
            env);
    heartbeat = λ now env. some (heartbeat handle_node_death now node_id env).1;
    preemption_warning = λ cpu reasons env. some (preemption_warning handle_preemption node_id env);
  }

  record_heartbeat-seen :
      (now : ℕ) (env : Cluster)
      → seen node_id (record env { tracker = (Tracker.record_heartbeat now node_id env.tracker).1 })
        ≡ (some now, settings env.tracker)
  unfolding Tracker.record_heartbeat
  record_heartbeat-seen now env = ground (
    arith,
    eq_refl node_id,
    get-put node_id node_id now env.tracker.last_heartbeat,
    member-discard node_id node_id env.tracker.explicit_dead,
  )

  heartbeat-seen :
      (now : ℕ) (env : Cluster)
      → seen node_id (heartbeat handle_node_death now node_id env).1
        ≡ (some now, settings env.tracker)
  unfolding heartbeat on_state_change Registry.record_heartbeat Registry.notify
  heartbeat-seen now env =
      elim (Bool-cases (same_state (Tracker.get_state node_id env.tracker) healthy)) [
        | inl e ↦ rw e (record_heartbeat-seen now env)
        | inr e ↦ rw e (record_heartbeat-seen now env)
      ]

  report-seen :
      (request : ResourceReport) (env : Cluster)
      → seen node_id (report_resources request env) ≡ seen node_id env
  unfolding report_resources update_node_resources
  report-seen request env = ground arith

  state-seen :
      (state : NodeState) (env : Cluster)
      → seen node_id (update_node_state node_id state env) ≡ seen node_id env
  unfolding update_node_state
  state-seen state env = ground arith

  stub-IsReliable : KeepsSeen handle_preemption node_id → IsReliable stub (seen node_id)
  unfolding preemption_warning
  stub-IsReliable keeps = record {
    beats = λ now env. (_, refl, heartbeat-seen now env);
    reports = λ snapshot env. (_, refl, report-seen _ env);
    warns = λ cpu reasons env.
        (_, refl, keeps (update_node_state node_id preempted env) ∙ state-seen preempted env);
  }

  register-seen :
      (request : RegisterRequest) (now : ℕ) (env : Cluster)
      → request.node_id ≡ node_id
      → seen node_id (register_node_handler now request env) ≡ (some now, settings env.tracker)
  unfolding register_node_handler register_node node_of Registry.register Tracker.register
  register-seen request now env own = ground (
    arith,
    eq_refl node_id,
    get-put request.node_id node_id now env.tracker.last_heartbeat,
    member-discard request.node_id node_id env.tracker.explicit_dead,
    eq_iff request.node_id node_id,
  )

unmarked_of :
    {h : ℕ} (marked : Bool) (last : Option ℕ)
    → (if marked then none else last) ≡ some h
    → (marked ≡ false) × (last ≡ some h)
unmarked_of true last e = absurd (cc e)
unmarked_of false last e = (refl, e)

thresholds_ordered : (a b c : ℕ) → b ≤ c → a * b ≤ a * c
thresholds_ordered a b c h = grind arith

state_at_early :
    (t : HeartbeatTracker) (last now : ℕ)
    → IsConfigured t
    → now < last + time_to_suspected t
    → state_at t last now ≡ healthy
unfolding time_to_suspected time_to_dead
state_at_early t last now c early =
    ground (
      arith,
      thresholds_ordered t.interval_seconds t.suspected_threshold t.dead_threshold c.ordered,
    )

-- A node that was seen less than the time to SUSPECTED ago is HEALTHY.
seen_healthy :
    (id : String) (env : Cluster) (t₀ : HeartbeatTracker) (h t : ℕ)
    → IsConfigured t₀
    → seen id env ≡ (some h, settings t₀)
    → t < h + time_to_suspected t₀
    → (Tracker.evaluate t id env.tracker).0 ≡ healthy
unfolding time_to_suspected
seen_healthy id env t₀ h t c s early =
    let (unmarked, known) =
      unmarked_of (member id env.tracker.explicit_dead) (get id env.tracker.last_heartbeat)
        (ap (λ w. w.0) s) in
    let interval = ap (λ w. w.1.interval_seconds) s in
    let first = ap (λ w. w.1.suspected_threshold) s in
    let last = ap (λ w. w.1.dead_threshold) s in
    let configured : IsConfigured env.tracker = record {
      interval = rw interval c.interval;
      suspected_first = rw first c.suspected_first;
      ordered = rw (first, last) c.ordered;
    } in
    evaluate-eq-state_at env.tracker id h t configured unmarked known
    ∙ state_at_early env.tracker h t configured (rw (interval, first) early)

GoesOn-weaken :
    {S : Type 0} (P Q : LoopState → S → Type 0) (m : Flow S)
    → GoesOn P m
    → ((st : LoopState) (s : S) → P st s → Q st s)
    → GoesOn Q m
GoesOn-weaken P Q (goes_on st s) p imply = imply st s p
GoesOn-weaken P Q (breaks s) p imply = p

-- An agent registers, and its loop then runs any number of passes, each with a snapshot, while nothing
-- else marks it dead or changes the tracker's settings. If the tracker is configured in order and its
-- time to SUSPECTED is no shorter than the agent's heartbeat interval with some delay, then the loop has
-- not broken off, and the driver holds the agent for HEALTHY from the last pass until that delay after it.
pub agent_stays_healthy :
    (handle_node_death handle_preemption : String → Cluster → Cluster) (request : RegisterRequest)
    (registered : ℕ) (env : Cluster) (config : AgentConfig) (st : LoopState) (p : Pass Cluster)
    (ps : List (Pass Cluster)) (delay : ℕ)
    → KeepsSeen handle_preemption request.node_id
    → IsConfigured env.tracker
    → 0 < config.heartbeat_interval
    → config.heartbeat_interval + delay ≤ time_to_suspected env.tracker
    → st.last_heartbeat ≡ 0
    → All (IsCalm (seen request.node_id)) (p ∷ ps)
    → GoesOn
        (λ st' env'.
          (t : ℕ)
          → t ≤ last_now p ps + delay
          → (Tracker.evaluate t request.node_id env'.tracker).0 ≡ healthy)
        (loop
          (stub handle_node_death handle_preemption request.node_id)
          config
          (p ∷ ps)
          st
          (register_node_handler registered request env))
agent_stays_healthy handle_node_death handle_preemption request registered env config st p ps delay
      keeps configured positive fits fresh calm =
    let id = request.node_id in
    let agent = stub handle_node_death handle_preemption id in
    let reliable = stub-IsReliable handle_node_death handle_preemption id keeps in
    let start = register_node_handler registered request env in
    let heard = register-seen handle_node_death handle_preemption id request registered env refl in
    GoesOn-weaken _ _ (loop agent config (p ∷ ps) st start)
      (loop-HeardLately agent config (seen id) reliable (settings env.tracker) p ps st start
        positive calm (registered, heard, omega (arith, fresh)))
      (λ st' env' lately t soon.
        seen_healthy id env' env.tracker lately.0 t configured lately.1 (omega (arith, lately.3)))
