-- ===== src/Health/Still.antt =====
-- What the registry's callbacks leave alone, the registry leaves alone.
use cluster_mesh.Prelude.{ℕ, String, ◌≡◌, refl, ◌∙◌, List, [], ◌∷◌, All, Bool-cases, inl, inr}
use cluster_mesh.Prelude.Dict.{Dict, keys}
use cluster_mesh.Models.{NodeState, healthy, same_state}
use cluster_mesh.Health.Tracker
use cluster_mesh.Health.Registry.{
  Env, Callback, notify, notify_change, evaluate_from, evaluate_all, record_heartbeat, force_state,
  forced,
}

module _ {W C : Type 0} (view : W → C) where
  -- The callback leaves this view of the world as it finds it.
  abbrev pub IsStill : Callback W → Type 0
  IsStill cb =
      (id : String) (old new : NodeState) (env : Env W)
      → view (cb id old new env).world ≡ view env.world

  pub notify-still :
      (cbs : List (Callback W)) (id : String) (old new : NodeState) (env : Env W)
      → All IsStill cbs
      → view (notify cbs id old new env).world ≡ view env.world
  unfolding notify
  notify-still [] id old new env s = refl
  notify-still (cb ∷ cbs) id old new env s =
      notify-still cbs id old new (cb id old new env) s.1 ∙ s.0 id old new env

  pub notify_change-still :
      (cbs : List (Callback W)) (id : String) (old new : NodeState) (env : Env W)
      → All IsStill cbs
      → view (notify_change cbs id old new env).world ≡ view env.world
  notify_change-still cbs id old new env s = elim (Bool-cases (same_state old new)) [
    | inl e ↦ rw e
    | inr e ↦ rw e (notify-still cbs id old new env s)
  ]

  evaluate_from-still :
      (cbs : List (Callback W)) (now : ℕ) (ids : List String) (results : Dict NodeState)
      (env : Env W)
      → All IsStill cbs
      → view (evaluate_from cbs now ids results env).1.world ≡ view env.world
  unfolding evaluate_from
  evaluate_from-still cbs now [] results env s = refl
  evaluate_from-still cbs now (id ∷ ids) results env s =
      evaluate_from-still cbs now ids _ _ s ∙ notify_change-still cbs id _ _ _ s

  pub evaluate_all-still :
      (cbs : List (Callback W)) (now : ℕ) (env : Env W)
      → All IsStill cbs
      → view (evaluate_all cbs now env).1.world ≡ view env.world
  unfolding evaluate_all
  evaluate_all-still cbs now env s =
      evaluate_from-still cbs now (keys env.tracker.last_heartbeat) [] env s

  pub record_heartbeat-still :
      (cbs : List (Callback W)) (now : ℕ) (id : String) (env : Env W)
      → All IsStill cbs
      → view (record_heartbeat cbs now id env).1.world ≡ view env.world
  unfolding record_heartbeat
  record_heartbeat-still cbs now id env s =
      notify_change-still cbs id (Tracker.get_state id env.tracker) healthy
        (record env { tracker = (Tracker.record_heartbeat now id env.tracker).1 }) s

  pub force_state-still :
      (cbs : List (Callback W)) (id : String) (new : NodeState) (env : Env W)
      → All IsStill cbs
      → view (force_state cbs id new env).world ≡ view env.world
  unfolding force_state
  force_state-still cbs id new env s =
      notify_change-still cbs id (Tracker.get_state id env.tracker) new
        (record env { tracker = forced id new env.tracker }) s
