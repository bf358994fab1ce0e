-- ===== src/Health/Registry.antt =====
-- `NodeHealthRegistry` of mesh/health/heartbeat.py. A callback may change the tracker and the world
-- outside, so the two are one state. The clock keeps its reading, `now`, within one method.
use cluster_mesh.Prelude.{ℕ, String, List, [], ◌∷◌, if◌then◌else◌}
use cluster_mesh.Prelude.Dict.{Dict, keys, put, discard}
use cluster_mesh.Models.{NodeState, healthy, dead, same_state}
use cluster_mesh.Health.Tracker
use cluster_mesh.Health.Tracker.{HeartbeatTracker}

pub record Env (W : Type 0) : Type 0 where
  pub tracker : HeartbeatTracker
  pub world : W

abbrev pub Callback : Type 0 → Type 0
Callback W = String → NodeState → NodeState → Env W → Env W

-- The comprehension of `get_dead_nodes`: each evaluation stores its result before the next.
unfoldable pub dead_among : ℕ → List String → HeartbeatTracker → List String × HeartbeatTracker
dead_among now [] t = ([], t)
dead_among now (id ∷ ids) t =
    let (state, t') = Tracker.evaluate now id t in
    let (rest, t'') = dead_among now ids t' in
    (if same_state state dead then id ∷ rest else rest, t'')

-- The tracker's part of `force_state`.
abbrev pub forced : String → NodeState → HeartbeatTracker → HeartbeatTracker
forced id new t =
    if same_state new dead
    then Tracker.mark_dead id t
    else record t { states = put id new t.states; explicit_dead = discard id t.explicit_dead }

module _ {W : Type 0} where
  -- `_notify`: every callback, in the order of registration.
  unfoldable pub notify : List (Callback W) → String → NodeState → NodeState → Env W → Env W
  notify [] id old new env = env
  notify (cb ∷ cbs) id old new env = notify cbs id old new (cb id old new env)

  -- `if old != new: self._notify(...)`
  abbrev pub notify_change : List (Callback W) → String → NodeState → NodeState → Env W → Env W
  notify_change cbs id old new env = if same_state old new then env else notify cbs id old new env

  unfoldable pub register : ℕ → String → Env W → Env W
  register now id env = record env { tracker = Tracker.register now id env.tracker }

  unfoldable pub record_heartbeat : List (Callback W) → ℕ → String → Env W → NodeState × Env W
  record_heartbeat cbs now id env =
      let old = Tracker.get_state id env.tracker in
      let (_, tracker) = Tracker.record_heartbeat now id env.tracker in
      (healthy, notify_change cbs id old healthy (record env { tracker = tracker }))

  -- The loop of `evaluate_all` over the keys that were there when it began.
  unfoldable pub evaluate_from :
      List (Callback W) → ℕ → List String → Dict NodeState → Env W → Dict NodeState × Env W
  evaluate_from cbs now [] results env = (results, env)
  evaluate_from cbs now (id ∷ ids) results env =
      let old = Tracker.get_state id env.tracker in
      let (new, tracker) = Tracker.evaluate now id env.tracker in
      evaluate_from cbs now ids (put id new results)
        (notify_change cbs id old new (record env { tracker = tracker }))

  unfoldable pub evaluate_all : List (Callback W) → ℕ → Env W → Dict NodeState × Env W
  unfolding evaluate_from
  evaluate_all cbs now env = evaluate_from cbs now (keys env.tracker.last_heartbeat) [] env

  unfoldable pub get_state : ℕ → String → Env W → NodeState × Env W
  get_state now id env =
      let (state, tracker) = Tracker.evaluate now id env.tracker in
      (state, record env { tracker = tracker })

  unfoldable pub get_dead_nodes : ℕ → Env W → List String × Env W
  unfolding dead_among
  get_dead_nodes now env =
      let (ids, tracker) = dead_among now (keys env.tracker.last_heartbeat) env.tracker in
      (ids, record env { tracker = tracker })

  unfoldable pub force_state : List (Callback W) → String → NodeState → Env W → Env W
  force_state cbs id new env =
      let old = Tracker.get_state id env.tracker in
      notify_change cbs id old new (record env { tracker = forced id new env.tracker })
