-- ===== src/Health/Sweep.antt =====
-- What `evaluate_all` reports and whom it notifies.
use mathlib.Core.List.{append-nil, append_assoc}
use cluster_mesh.Prelude.{
  ℕ, String, ◌≡◌, refl, sym, ap, ◌∙◌, false, some, none, List, [], ◌∷◌, ◌++◌, arith, eq_iff, All,
  if◌then◌else◌, Bool-cases, inl, inr,
}
use cluster_mesh.Prelude.Dict.{Dict, get, put, keys, member, get-put, Distinct}
use cluster_mesh.Models.{NodeState, dead, same_state}
use cluster_mesh.Health.Tracker
use cluster_mesh.Health.Tracker.{HeartbeatTracker, classify, missed_count, get_state}
use cluster_mesh.Health.Registry.{Env, Callback, notify, notify_change, evaluate_from, evaluate_all}

-- Two trackers that may differ in the stored states only.
pub record SameInputs (t u : HeartbeatTracker) : Type 0 where
  pub interval : t.interval_seconds ≡ u.interval_seconds
  pub suspected_at : t.suspected_threshold ≡ u.suspected_threshold
  pub dead_at : t.dead_threshold ≡ u.dead_threshold
  pub marked : t.explicit_dead ≡ u.explicit_dead
  pub heard : t.last_heartbeat ≡ u.last_heartbeat

pub SameInputs-refl : (t : HeartbeatTracker) → SameInputs t t
SameInputs-refl t = record {
  interval = refl;
  suspected_at = refl;
  dead_at = refl;
  marked = refl;
  heard = refl;
}

pub evaluate-SameInputs :
    (t u : HeartbeatTracker) (now : ℕ) (id : String)
    → SameInputs t u
    → SameInputs (Tracker.evaluate now id t).1 u
unfolding Tracker.evaluate
evaluate-SameInputs t u now id s = ground arith

pub verdict_same :
    (t u : HeartbeatTracker) (now : ℕ) (id : String)
    → SameInputs t u
    → (Tracker.evaluate now id t).0 ≡ (Tracker.evaluate now id u).0
unfolding Tracker.evaluate missed_count classify
verdict_same t u now id s = ground arith

module _ {W : Type 0} where
  -- The callback leaves the tracker as it finds it.
  abbrev pub IsQuiet : Callback W → Type 0
  IsQuiet cb =
      (id : String) (old new : NodeState) (env : Env W) → (cb id old new env).tracker ≡ env.tracker

  notify-tracker :
      (cbs : List (Callback W)) (id : String) (old new : NodeState) (env : Env W)
      → All IsQuiet cbs
      → (notify cbs id old new env).tracker ≡ env.tracker
  unfolding notify
  notify-tracker [] id old new env q = refl
  notify-tracker (cb ∷ cbs) id old new env q =
      notify-tracker cbs id old new (cb id old new env) q.1 ∙ q.0 id old new env

  notify_change-SameInputs :
      (cbs : List (Callback W)) (id : String) (old new : NodeState) (env : Env W)
      (t : HeartbeatTracker)
      → All IsQuiet cbs
      → SameInputs env.tracker t
      → SameInputs (notify_change cbs id old new env).tracker t
  notify_change-SameInputs cbs id old new env t q s = elim (Bool-cases (same_state old new)) [
    | inl same ↦ rw same s
    | inr changed ↦ rw (changed, notify-tracker cbs id old new env q) s
  ]

  evaluate_from-results :
      (cbs : List (Callback W)) (t : HeartbeatTracker) (now : ℕ) (id : String) (ids : List String)
      (results : Dict NodeState) (env : Env W)
      → All IsQuiet cbs
      → SameInputs env.tracker t
      → get id (evaluate_from cbs now ids results env).0
        ≡ (if member id ids then some (Tracker.evaluate now id t).0 else get id results)
  unfolding evaluate_from member
  evaluate_from-results cbs t now id [] results env q s = refl
  evaluate_from-results cbs t now id (j ∷ ids) results env q s =
      let old = get_state j env.tracker in
      let (new, tracker) = Tracker.evaluate now j env.tracker in
      let env' : Env W = record env { tracker = tracker } in
      let s' =
        notify_change-SameInputs cbs j old new env' t q
          (evaluate-SameInputs env.tracker t now j s) in
      evaluate_from-results cbs t now id ids (put j new results) (notify_change cbs j old new env')
        q s'
      ∙ ground (arith, get-put j id new results, eq_iff j id, verdict_same env.tracker t now j s)

  -- When no callback changes the tracker, `evaluate_all` reports for each node with a heartbeat the
  -- state that `evaluate` alone gives for it, and nothing for any other node.
  evaluate_all-results :
      (cbs : List (Callback W)) (now : ℕ) (id : String) (env : Env W)
      → All IsQuiet cbs
      → get id (evaluate_all cbs now env).0 ≡ (
          if member id (keys env.tracker.last_heartbeat)
          then some (Tracker.evaluate now id env.tracker).0
          else none)
  unfolding evaluate_all get
  evaluate_all-results cbs now id env q =
      evaluate_from-results cbs env.tracker now id (keys env.tracker.last_heartbeat) [] env q
        (SameInputs-refl env.tracker)

-- A notification, as a callback receives it.
pub record Change : Type 0 where
  pub node : String
  pub old : NodeState
  pub new : NodeState

-- The callback that writes down what it receives.
pub recorder : Callback (List Change)
recorder id old new env = record env {
  world = env.world ++ record { node = id; old = old; new = new } ∷ [];
}

-- Of the listed nodes those whose verdict differs from the stored state, with both.
unfoldable pub changes : ℕ → List String → HeartbeatTracker → List Change
changes now [] t = []
changes now (id ∷ ids) t =
    let old = get_state id t in
    let new = (Tracker.evaluate now id t).0 in
    if same_state old new
    then changes now ids t
    else record { node = id; old = old; new = new } ∷ changes now ids t

-- The stored states of the listed nodes are the same in both trackers.
SameStates : HeartbeatTracker → HeartbeatTracker → List String → Type 0
SameStates t u = All (λ id. get_state id t ≡ get_state id u)

SameStates-refl : (t : HeartbeatTracker) (ids : List String) → SameStates t t ids
unfolding SameStates
SameStates-refl t [] = tt
SameStates-refl t (id ∷ ids) = (refl, SameStates-refl t ids)

SameStates-evaluate :
    (t u : HeartbeatTracker) (now : ℕ) (j : String) (ids : List String)
    → member j ids ≡ false
    → SameStates t u ids
    → SameStates (Tracker.evaluate now j t).1 u ids
unfolding SameStates member get_state Tracker.evaluate
SameStates-evaluate t u now j [] fresh s = tt
SameStates-evaluate t u now j (id ∷ ids) fresh s = (
  ground (
    arith,
    eq_iff j id,
    eq_iff id j,
    get-put j id dead t.states,
    get-put j id (classify t (missed_count now j t)) t.states,
  ),
  SameStates-evaluate t u now j ids (ground arith) s.1,
)

changes_same :
    (t u : HeartbeatTracker) (now : ℕ) (ids : List String)
    → SameInputs t u
    → SameStates t u ids
    → changes now ids t ≡ changes now ids u
unfolding changes SameStates
changes_same t u now [] s h = refl
changes_same t u now (id ∷ ids) s h =
    ground (arith, h.0, verdict_same t u now id s, changes_same t u now ids s h.1)

recorder_tracker :
    (id : String) (old new : NodeState) (env : Env (List Change))
    → (notify_change (recorder ∷ []) id old new env).tracker ≡ env.tracker
unfolding notify recorder
recorder_tracker id old new env = ground arith

recorder_world :
    (id : String) (old new : NodeState) (env : Env (List Change)) (rest : List Change)
    → (notify_change (recorder ∷ []) id old new env).world ++ rest
      ≡ env.world
        ++ (if same_state old new then rest else record { node = id; old = old; new = new } ∷ rest)
unfolding notify recorder
recorder_world id old new env rest = elim (Bool-cases (same_state old new)) [
  | inl same ↦ rw same
  | inr changed ↦
      rw changed (append_assoc env.world (record { node = id; old = old; new = new } ∷ []) rest)
]

recorder_run :
    (now : ℕ) (ids : List String) (results : Dict NodeState) (env : Env (List Change))
    → Distinct ids
    → (evaluate_from (recorder ∷ []) now ids results env).1.world
      ≡ env.world ++ changes now ids env.tracker
unfolding evaluate_from changes
recorder_run now [] results env d = sym (append-nil env.world)
recorder_run now (id ∷ ids) results env d =
    let t = env.tracker in
    let old = get_state id t in
    let (new, t') = Tracker.evaluate now id t in
    let later : changes now ids t' ≡ changes now ids t =
      changes_same t' t now ids (evaluate-SameInputs t t now id (SameInputs-refl t))
        (SameStates-evaluate t t now id ids d.0 (SameStates-refl t ids)) in
    let env' : Env (List Change) = record env { tracker = t' } in
    let next = notify_change (recorder ∷ []) id old new env' in
    recorder_run now ids (put id new results) next d.1
    ∙ ap (λ u. next.world ++ changes now ids u) (recorder_tracker id old new env')
    ∙ ap (λ rest. next.world ++ rest) later
    ∙ recorder_world id old new env' (changes now ids t)

-- `evaluate_all` notifies a callback of exactly the nodes whose state differs from the stored one,
-- once each, with the old and the new state, in the order of the registry.
pub evaluate_all-notifies :
    (now : ℕ) (env : Env (List Change))
    → Distinct (keys env.tracker.last_heartbeat)
    → (evaluate_all (recorder ∷ []) now env).1.world
      ≡ env.world ++ changes now (keys env.tracker.last_heartbeat) env.tracker
unfolding evaluate_all
evaluate_all-notifies now env d = recorder_run now (keys env.tracker.last_heartbeat) [] env d
