-- ===== src/Agent/Daemon/Punctual.antt =====
-- How regularly the driver hears of an agent whose loop runs.
use cluster_mesh.Prelude.{
  ℕ, ◌+◌, ◌-◌, ◌≤◌, ◌<◌, ◌&&◌, Option, some, List, [], ◌∷◌, ◌≡◌, ap, ◌∙◌, arith, All, Bool-cases,
  inl, inr, leb,
}
use cluster_mesh.Agent.Preemption.{Reason, check}
use cluster_mesh.Agent.Daemon.{
  AgentConfig, Snapshot, DriverStub, LoopState, Flow, goes_on, breaks, Pass, ◌then_do◌, called,
  send_resources, send_heartbeat, send_warning, pass, loop, watched,
}

-- No call raises. What the driver has `seen` is the time at which it last heard of the agent, which
-- is that of the last heartbeat, with a part that no call changes.
pub record IsReliable {S V : Type 0} (stub : DriverStub S) (seen : S → Option ℕ × V) : Type 0 where
  pub beats :
      (now : ℕ) (s : S)
      → (s' : S) × (stub.heartbeat now s ≡ some s') × (seen s' ≡ (some now, (seen s).1))
  pub reports :
      (snapshot : Snapshot) (s : S)
      → (s' : S) × (stub.report_resources snapshot s ≡ some s') × (seen s' ≡ seen s)
  pub warns :
      (cpu : ℕ) (reasons : List Reason) (s : S)
      → (s' : S) × (stub.preemption_warning cpu reasons s ≡ some s') × (seen s' ≡ seen s)

-- The flow goes on, in a state with the property.
abbrev pub GoesOn : {S : Type 0} → (LoopState → S → Type 0) → Flow S → Type 0
GoesOn P (goes_on st s) = P st s
GoesOn P (breaks s) = ⊥

module _ {S : Type 0} where
  GoesOn-then_do :
      (P Q : LoopState → S → Type 0) (m : Flow S) (f : LoopState → S → Flow S)
      → GoesOn P m
      → ((st : LoopState) (s : S) → P st s → GoesOn Q (f st s))
      → GoesOn Q (m then_do f)
  GoesOn-then_do P Q (goes_on st s) f p next = next st s p
  GoesOn-then_do P Q (breaks s) f p next = p

  GoesOn-called :
      (P : LoopState → S → Type 0) (o : Option S) (st : LoopState) (s s' : S)
      → o ≡ some s'
      → P st s'
      → GoesOn P (called o st s)
  GoesOn-called P o st s s' e p = rw e p

-- The time of the last pass.
abbrev pub last_now : {S : Type 0} → Pass S → List (Pass S) → ℕ
last_now p [] = p.now
last_now p (q ∷ ps) = last_now q ps

-- The monitor gives a snapshot, and the driver hears of the agent from the loop only.
abbrev pub IsCalm : {S V : Type 0} → (S → Option ℕ × V) → Pass S → Type 0
IsCalm {S} seen p =
    ((snapshot : Snapshot) × (p.snapshot ≡ some snapshot))
    × ((s : S) → seen (p.meanwhile s) ≡ seen s)

module _ {S V : Type 0} (stub : DriverStub S) (config : AgentConfig) (seen : S → Option ℕ × V)
    (reliable : IsReliable stub seen) (fixed : V) where
  -- The driver heard of the agent at some time that is not before the last heartbeat sent.
  abbrev pub Heard : LoopState → S → Type 0
  Heard st s = (h : ℕ) × (seen s ≡ (some h, fixed)) × (st.last_heartbeat ≤ h)

  -- It heard of it less than a heartbeat interval ago.
  abbrev pub HeardLately : ℕ → LoopState → S → Type 0
  HeardLately now st s =
      (h : ℕ) × (seen s ≡ (some h, fixed))
      × (st.last_heartbeat ≤ h)
      × (now < h + config.heartbeat_interval)

  send_resources-Heard :
      (now : ℕ) (snapshot : Snapshot) (st : LoopState) (s : S)
      → Heard st s
      → GoesOn Heard (send_resources stub config now snapshot st s)
  unfolding send_resources
  send_resources-Heard now snapshot st s (h, heard, sent) =
      let (s', e, silent) = reliable.reports snapshot s in
      elim (Bool-cases (leb config.resource_interval (now - st.last_resource))) [
        | inl due ↦ rw due (GoesOn-called Heard _ _ s s' e (h, silent ∙ heard, sent))
        | inr early ↦ rw early (h, heard, sent)
      ]

  send_heartbeat-HeardLately :
      (now : ℕ) (st : LoopState) (s : S)
      → 0 < config.heartbeat_interval
      → Heard st s
      → GoesOn (HeardLately now) (send_heartbeat stub config now st s)
  unfolding send_heartbeat
  send_heartbeat-HeardLately now st s positive (h, heard, sent) =
      let (s', e, told) = reliable.beats now s in
      elim (Bool-cases (leb config.heartbeat_interval (now - st.last_heartbeat))) [
        | inl due ↦ rw due (
            GoesOn-called (HeardLately now) _ _ s s' e
              (now, told ∙ ap (λ w. (some now, w.1)) heard, omega arith, omega arith))
        | inr early ↦ rw early (h, heard, sent, ground arith)
      ]

  send_warning-HeardLately :
      (now : ℕ) (snapshot : Snapshot) (st : LoopState) (s : S)
      → HeardLately now st s
      → GoesOn (HeardLately now) (send_warning stub config snapshot st s)
  unfolding send_warning
  send_warning-HeardLately now snapshot st s (h, heard, sent, lately) =
      let answer = check (watched snapshot) st.preemption in
      let (s', e, silent) = reliable.warns snapshot.resources.cpu_utilization answer.0.1 s in
      elim (Bool-cases (answer.0.0 && config.preemptible)) [
        | inl raised ↦
            rw raised (GoesOn-called (HeardLately now) _ _ s s' e (h, silent ∙ heard, sent, lately))
        | inr calm ↦ rw calm (h, heard, sent, lately)
      ]

  pass-HeardLately :
      (p : Pass S) (st : LoopState) (s : S)
      → 0 < config.heartbeat_interval
      → IsCalm seen p
      → Heard st s
      → GoesOn (HeardLately p.now) (pass stub config p st s)
  unfolding pass
  pass-HeardLately p st s positive ((snapshot, taken), still) (h, heard, sent) = rw taken (
      GoesOn-then_do (HeardLately p.now) (HeardLately p.now) _ _
        (GoesOn-then_do Heard (HeardLately p.now) _ _
          (send_resources-Heard p.now snapshot st (p.meanwhile s) (h, still s ∙ heard, sent))
          (λ st' s' k. send_heartbeat-HeardLately p.now st' s' positive k))
        (λ st' s' k. send_warning-HeardLately p.now snapshot st' s' k))

  pub loop-HeardLately :
      (p : Pass S) (ps : List (Pass S)) (st : LoopState) (s : S)
      → 0 < config.heartbeat_interval
      → All (IsCalm seen) (p ∷ ps)
      → Heard st s
      → GoesOn (HeardLately (last_now p ps)) (loop stub config (p ∷ ps) st s)
  unfolding loop
  loop-HeardLately p [] st s positive calm heard =
      GoesOn-then_do (HeardLately p.now) (HeardLately p.now) (pass stub config p st s) _
        (pass-HeardLately p st s positive calm.0 heard) (λ st' s' k. k)
  loop-HeardLately p (q ∷ ps) st s positive calm heard =
      GoesOn-then_do (HeardLately p.now) (HeardLately (last_now q ps)) (pass stub config p st s) _
        (pass-HeardLately p st s positive calm.0 heard)
        (λ st' s' k. loop-HeardLately q ps st' s' positive calm.1 (k.0, k.1, k.2))
