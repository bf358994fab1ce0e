-- ===== src/Agent/Daemon.antt =====
-- The loop of `AgentDaemon` of mesh/agent/daemon.py, as mesh-agent starts it: without the state that
-- the worker's page shows. The driver's stub is an interface over the driver's state `S`; a call
-- that raises is none.
pub mod Punctual
use cluster_mesh.Prelude.{
  ℕ, ◌-◌, String, Bool, ◌&&◌, Option, none, some, List, [], ◌∷◌, leb, if◌then◌else◌,
}
use cluster_mesh.Models.{NodeResources}
use cluster_mesh.Agent.Preemption.{ResourceSnapshot, Reason, PreemptionDetector, check, reset}

pub record AgentConfig : Type 0 where
  pub preemptible : Bool
  pub heartbeat_interval : ℕ
  pub resource_interval : ℕ

-- What the monitor reads of the host.
pub record Snapshot : Type 0 where
  pub resources : NodeResources
  pub host_metrics_json : String

-- The calls of `DriverClient` that the loop makes, at a time.
pub record DriverStub (S : Type 0) : Type 0 where
  pub report_resources : Snapshot → S → Option S
  pub heartbeat : ℕ → S → Option S
  pub preemption_warning : ℕ → List Reason → S → Option S

-- The variables of the loop, and the detector.
pub record LoopState : Type 0 where
  pub last_heartbeat : ℕ
  pub last_resource : ℕ
  pub preemption : PreemptionDetector

-- A part of the body ends normally, or an exception leaves the loop.
pub data Flow (S : Type 0) : Type 0 where
  goes_on : LoopState → S → Flow S
  breaks : S → Flow S

-- One pass: when it starts, what the monitor gives, if it does not raise, and what else has happened
-- at the driver since the pass before.
pub record Pass (S : Type 0) : Type 0 where
  pub now : ℕ
  pub snapshot : Option Snapshot
  pub meanwhile : S → S

abbrev pub watched : Snapshot → ResourceSnapshot
watched snapshot = record {
  user_active = snapshot.resources.user_active;
  cpu_utilization = snapshot.resources.cpu_utilization;
}

module _ {S : Type 0} where
  infixl 5 ◌then_do◌
  abbrev pub ◌then_do◌ : Flow S → (LoopState → S → Flow S) → Flow S
  goes_on st s then_do f = f st s
  breaks s then_do f = breaks s

  -- After a call: the loop goes on in a new state, or breaks off.
  abbrev pub called : Option S → LoopState → S → Flow S
  called none st s = breaks s
  called (some s') st s = goes_on st s'

module _ {S : Type 0} (stub : DriverStub S) (config : AgentConfig) where
  unfoldable pub send_resources : ℕ → Snapshot → LoopState → S → Flow S
  send_resources now snapshot st s =
      if leb config.resource_interval (now - st.last_resource)
      then called (stub.report_resources snapshot s) (record st { last_resource = now }) s
      else goes_on st s

  unfoldable pub send_heartbeat : ℕ → LoopState → S → Flow S
  send_heartbeat now st s =
      if leb config.heartbeat_interval (now - st.last_heartbeat)
      then called (stub.heartbeat now s) (record st { last_heartbeat = now }) s
      else goes_on st s

  unfoldable pub send_warning : Snapshot → LoopState → S → Flow S
  send_warning snapshot st s =
      let ((triggered, reasons), preemption) = check (watched snapshot) st.preemption in
      if triggered && config.preemptible
      then called (stub.preemption_warning snapshot.resources.cpu_utilization reasons s)
          (record st { preemption = reset preemption }) s
      else goes_on (record st { preemption = preemption }) s

  -- The body of the loop, up to its sleep.
  unfoldable pub pass : Pass S → LoopState → S → Flow S
  pass p st s = elim p.snapshot [
    | none ↦ breaks (p.meanwhile s)
    | some snapshot ↦
        send_resources p.now snapshot st (p.meanwhile s)
        then_do send_heartbeat p.now
        then_do send_warning snapshot
  ]

  unfoldable pub loop : List (Pass S) → LoopState → S → Flow S
  loop [] st s = goes_on st s
  loop (p ∷ ps) st s = pass p st s then_do loop ps
