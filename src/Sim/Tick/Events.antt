-- ===== src/Sim/Tick/Events.antt =====
-- The queue of events: it is sorted, and a tick takes just what is due.
use cluster_mesh.Prelude.{
  ℕ, String, ◌≡◌, refl, sym, ap, ◌∙◌, ◌↔◌, ◌⊎◌, Bool, true, false, Option, List, [], ◌∷◌, ◌++◌, All,
  arith, ltb, leb, select, Bool-cases, inl, inr,
}
use cluster_mesh.Prelude.Sort.{Has, Has-sort_by_iff, IsOrder}
use cluster_mesh.Prelude.Sorted.{Sorted, sort_by-Sorted, select_everything, All-map, Has-append_iff}
use cluster_mesh.Scheduler.Scoring.{Float}
use cluster_mesh.Sim.Cluster.{SimCluster, Sim, SimEvent, Action, schedule_event}
use cluster_mesh.Sim.Tick.{perform, perform_due, tick, left}
use cluster_mesh.Sim.Tick.Ends.{LeavesFrame, perform-frame, tick-frame}

abbrev earlier : SimEvent → SimEvent → Bool
earlier x y = leb x.at y.at

earlier-IsOrder : IsOrder earlier
earlier-IsOrder = record { total = λ x y h. ground arith; trans = λ x y z h k. ground arith }

-- The first event is due first.
abbrev pub InOrder : List SimEvent → Type 0
InOrder = Sorted earlier

-- Scheduling an event adds it to the queue, forgets none, and leaves the queue sorted by time,
-- whatever its order was.
pub schedule_event-InOrder :
    (at : ℕ) (action : Action) (w : SimCluster)
    → InOrder (schedule_event at action w).events
      × ((e : SimEvent)
          → Has e (schedule_event at action w).events
            ↔ (Has e w.events ⊎ (record { at = at; action = action } ≡ e)))
unfolding schedule_event
schedule_event-InOrder at action w = (
  sort_by-Sorted earlier-IsOrder (w.events ++ record { at = at; action = action } ∷ []),
  λ e. ground (
    arith,
    Has-sort_by_iff earlier e (w.events ++ record { at = at; action = action } ∷ []),
    Has-append_iff e w.events (record { at = at; action = action } ∷ []),
  ),
)

-- Not due yet.
abbrev pub is_later : ℕ → SimEvent → Bool
is_later now e = ltb now e.at

module _ (f : Float) (hour : ℕ) (manager : Option (String → Sim → Sim))
    (still : LeavesFrame manager) where
  perform_due_due :
      (event : SimEvent) (events : List SimEvent) (env : Sim)
      → leb event.at env.world.time ≡ true
      → perform_due f hour manager (event ∷ events) env
        ≡ perform_due f hour manager events (perform f hour manager event.action (left events env))
  unfolding perform_due
  perform_due_due event events env due = rw (due, perform_due)

  perform_due_later :
      (event : SimEvent) (events : List SimEvent) (env : Sim)
      → leb event.at env.world.time ≡ false
      → perform_due f hour manager (event ∷ events) env ≡ env
  unfolding perform_due
  perform_due_later event events env later = rw (later, perform_due)

  select_due :
      (event : SimEvent) (events : List SimEvent) (now : ℕ)
      → leb event.at now ≡ true
      → select (is_later now) (event ∷ events) ≡ select (is_later now) events
  unfolding select
  select_due event events now due = ground arith

  select_later :
      (event : SimEvent) (events : List SimEvent) (now : ℕ)
      → leb event.at now ≡ false
      → All (λ e. earlier event e ≡ true) events
      → select (is_later now) (event ∷ events) ≡ event ∷ events
  select_later event events now later s =
      select_everything (is_later now) (event ∷ events)
        (ground arith, All-map events (λ e h. ground arith) s)

  perform_due-events :
      (queue : List SimEvent) (env : Sim)
      → env.world.events ≡ queue
      → InOrder queue
      → (perform_due f hour manager queue env).world.events ≡ select (is_later env.world.time) queue
  unfolding perform_due select
  perform_due-events [] env e s = e
  perform_due-events (event ∷ events) env e s = elim (Bool-cases (leb event.at env.world.time)) [
    | inl due ↦
        (let next = perform f hour manager event.action (left events env) in
          let same = perform-frame f hour manager still event.action (left events env) in
          let rest = perform_due-events events next (ap (λ c. c.2) same) s.1 in
          ap (λ (s : Sim). s.world.events) (perform_due_due event events env due)
          ∙ rest
          ∙ ap (λ c. select (is_later c.0) events) same
          ∙ sym (select_due event events env.world.time due))
    | inr later ↦
        ap (λ (s : Sim). s.world.events) (perform_due_later event events env later)
        ∙ e
        ∙ sym (select_later event events env.world.time later s.0)
  ]

  -- A tick takes from a sorted queue just the events that are due by the clock, and leaves the others
  -- in their order.
  pub tick-events :
      (env : Sim)
      → InOrder env.world.events
      → (tick f hour manager env).world.events ≡ select (is_later env.world.time) env.world.events
  tick-events env s =
      ap (λ c. c.2) (tick-frame f hour manager still env)
      ∙ perform_due-events env.world.events env refl s
