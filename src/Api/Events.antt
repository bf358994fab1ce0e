-- ===== src/Api/Events.antt =====
-- `EventBus` of mesh/api/events.py. Ids and times of events are given; a subscriber is its name, and
-- each call of one is written down in `delivered`. Python's `lower` and `in` on texts are parameters.
pub mod History
use cluster_mesh.Prelude.{
  ℕ, ◌-◌, ◌≤◌, zero, suc, String, Bool, Option, none, some, List, [], ◌∷◌, ◌++◌, select, length,
  ◌≡◌, arith, ◌==◌, if◌then◌else◌, eqb,
}
use cluster_mesh.Prelude.Dict.{Dict}

pub data LogLevel : Type 0 where
  debug info warn error : LogLevel

pub record LogEvent : Type 0 where
  pub id : String
  pub timestamp : String
  pub level : LogLevel
  pub source : String
  pub message : String
  pub metadata : Dict String

pub record EventBus : Type 0 where
  pub max_events : ℕ
  pub events : List LogEvent
  pub subscribers : List String
  pub delivered : List (String × LogEvent)

-- `l[n:]`
unfoldable pub drop_first : ℕ → List LogEvent → List LogEvent
drop_first zero l = l
drop_first (suc n) [] = []
drop_first (suc n) (x ∷ l) = drop_first n l

-- The last `n` of a list, all where there are no more.
abbrev pub last_of : ℕ → List LogEvent → List LogEvent
last_of n l = drop_first (length l - n) l

-- What the subscribers of the moment receive; an exception of theirs changes nothing.
unfoldable pub deliver : List String → LogEvent → List (String × LogEvent)
deliver [] event = []
deliver (name ∷ names) event = (name, event) ∷ deliver names event

-- The deque with `maxlen` drops its oldest events.
unfoldable pub emit : LogEvent → EventBus → EventBus
unfolding drop_first deliver
emit event bus = record bus {
  events = last_of bus.max_events (bus.events ++ event ∷ []);
  delivered = bus.delivered ++ deliver bus.subscribers event;
}

unfoldable pub subscribe : String → EventBus → EventBus
subscribe name bus = record bus { subscribers = bus.subscribers ++ name ∷ [] }

-- `list.remove`: the first occurrence.
unfoldable pub remove_first : String → List String → List String
remove_first name [] = []
remove_first name (x ∷ l) = let rest = remove_first name l in if x == name then l else x ∷ rest

unfoldable pub unsubscribe : String → EventBus → EventBus
unfolding remove_first
unsubscribe name bus = record bus { subscribers = remove_first name bus.subscribers }

-- The text of a level.
abbrev value : LogLevel → String
value debug = "DEBUG"
value info = "INFO"
value warn = "WARN"
value error = "ERROR"

module _ (lower upper : String → String) (contains : String → String → Bool) where
  -- An absent filter, or an empty one, lets all events pass.
  abbrev filtered : Option String → (String → LogEvent → Bool) → List LogEvent → List LogEvent
  filtered none test l = l
  filtered (some text) test l = if text == "" then l else select (test text) l

  -- `events[-limit:]` is all events at a limit of zero.
  unfoldable pub get_logs :
      ℕ → Option String → Option String → Option String → EventBus → List LogEvent
  unfolding drop_first
  get_logs limit level source search bus =
      let l₁ = filtered level (λ text e. value e.level == upper text) bus.events in
      let l₂ = filtered source (λ text e. contains (lower text) (lower e.source)) l₁ in
      let l₃ = filtered search (λ text e. contains (lower text) (lower e.message)) l₂ in
      if eqb limit 0 then l₃ else last_of limit l₃

unfoldable pub count : EventBus → ℕ
count bus = length bus.events

pub length-drop_first : (n : ℕ) (l : List LogEvent) → length (drop_first n l) ≡ length l - n
unfolding drop_first
length-drop_first zero l = omega arith
length-drop_first (suc n) [] = omega arith
length-drop_first (suc n) (x ∷ l) = omega (arith, length-drop_first n l)

-- After an event is emitted the log holds no more than `max_events` events.
count-emit_le : (event : LogEvent) (bus : EventBus) → count (emit event bus) ≤ bus.max_events
unfolding count emit
count-emit_le event bus =
    let all = bus.events ++ event ∷ [] in
    omega (arith, length-drop_first (length all - bus.max_events) all)
