-- ===== src/Api/Events/History.antt =====
-- What the bounded log and the subscribers' list of `EventBus` stand for: the whole history of calls.
use mathlib.Core.List.{append_assoc, append-nil}
use cluster_mesh.Prelude.{
  ℕ, zero, suc, ◌+◌, ◌-◌, ◌≤◌, ◌<◌, String, Bool, none, List, [], ◌∷◌, ◌++◌, length, ◌≡◌, refl, sym,
  ap, ◌∙◌, arith, ◌==◌, eq_iff, if◌then◌else◌,
}
use cluster_mesh.Api.Events.{
  LogEvent, EventBus, drop_first, last_of, deliver, emit, subscribe, remove_first, unsubscribe,
  get_logs, length-drop_first,
}

-- A call that changes the bus.
pub data Call : Type 0 where
  emitting : LogEvent → Call
  subscribing unsubscribing : String → Call

abbrev pub new_bus : ℕ → EventBus
new_bus max_events = record {
  max_events = max_events;
  events = [];
  subscribers = [];
  delivered = [];
}

unfoldable pub after : List Call → EventBus → EventBus
after [] bus = bus
after (emitting event ∷ calls) bus = after calls (emit event bus)
after (subscribing name ∷ calls) bus = after calls (subscribe name bus)
after (unsubscribing name ∷ calls) bus = after calls (unsubscribe name bus)

-- All events, from the first one.
unfoldable pub emitted : List Call → List LogEvent
emitted [] = []
emitted (emitting event ∷ calls) = event ∷ emitted calls
emitted (_ ∷ calls) = emitted calls

unfoldable pub times : ℕ → LogEvent → List LogEvent
times zero event = []
times (suc n) event = event ∷ times n event

-- What a subscriber should hear that stands `n` times in the list: each event `n` times.
unfoldable pub heard : String → ℕ → List Call → List LogEvent
heard name n [] = []
heard name n (emitting event ∷ calls) = times n event ++ heard name n calls
heard name n (subscribing other ∷ calls) = heard name (if other == name then n + 1 else n) calls
heard name n (unsubscribing other ∷ calls) = heard name (if other == name then n - 1 else n) calls

-- What a subscriber was sent.
unfoldable pub sent_to : String → List (String × LogEvent) → List LogEvent
sent_to name [] = []
sent_to name ((other, event) ∷ l) = if other == name then event ∷ sent_to name l else sent_to name l

abbrev occurrences : String → List String → ℕ
occurrences name [] = 0
occurrences name (other ∷ l) = (if other == name then 1 else 0) + occurrences name l

length-append : (l m : List LogEvent) → length (l ++ m) ≡ length l + length m
length-append [] m = omega arith
length-append (x ∷ l) m = omega (arith, length-append l m)

drop_first-append :
    (n : ℕ) (l m : List LogEvent) → n ≤ length l → drop_first n (l ++ m) ≡ drop_first n l ++ m
unfolding drop_first
drop_first-append zero l m h = refl
drop_first-append (suc n) [] m h = absurd (omega arith)
drop_first-append (suc n) (x ∷ l) m h = drop_first-append n l m (omega arith)

suc_add : (k n : ℕ) → suc (k + n) ≡ suc k + n
suc_add k n = omega arith

drop_first-nil : (n : ℕ) → drop_first n [] ≡ []
unfolding drop_first
drop_first-nil zero = refl
drop_first-nil (suc n) = refl

drop_first-drop_first :
    (n k : ℕ) (l : List LogEvent) → drop_first n (drop_first k l) ≡ drop_first (k + n) l
unfolding drop_first
drop_first-drop_first n zero l = ap (λ k. drop_first k l) (omega arith)
drop_first-drop_first n (suc k) [] = drop_first-nil n ∙ sym (drop_first-nil (suc k + n))
drop_first-drop_first n (suc k) (x ∷ l) =
    drop_first-drop_first n k l ∙ ap (λ j. drop_first j (x ∷ l)) (suc_add k n)

-- Dropping early loses nothing that is kept later.
last_of-last_of : (n : ℕ) (l m : List LogEvent) → last_of n (last_of n l ++ m) ≡ last_of n (l ++ m)
last_of-last_of n l m =
    let k = length l - n in
    let all = l ++ m in
    let kept : last_of n l ++ m ≡ drop_first k all = sym (drop_first-append k l m (omega arith)) in
    let left : k + (length (drop_first k all) - n) ≡ length all - n =
      omega (arith, length-drop_first k all, length-append l m) in
    ap (last_of n) kept
    ∙ drop_first-drop_first (length (drop_first k all) - n) k all
    ∙ ap (λ j. drop_first j all) left

after-events :
    (calls : List Call) (past : List LogEvent) (bus : EventBus)
    → bus.events ≡ last_of bus.max_events past
    → (after calls bus).events ≡ last_of bus.max_events (past ++ emitted calls)
unfolding after emitted emit subscribe unsubscribe
after-events [] past bus h = h ∙ ap (last_of bus.max_events) (sym (append-nil past))
after-events (emitting event ∷ calls) past bus h =
    let n = bus.max_events in
    let kept : (emit event bus).events ≡ last_of n (past ++ event ∷ []) =
      ap (λ l. last_of n (l ++ event ∷ [])) h ∙ last_of-last_of n past (event ∷ []) in
    after-events calls (past ++ event ∷ []) (emit event bus) kept
    ∙ ap (last_of n) (append_assoc past (event ∷ []) (emitted calls))
after-events (subscribing name ∷ calls) past bus h = after-events calls past (subscribe name bus) h
after-events (unsubscribing name ∷ calls) past bus h =
    after-events calls past (unsubscribe name bus) h

times_suc : (n : ℕ) (event : LogEvent) → times (1 + n) event ≡ event ∷ times n event
unfolding times
times_suc n event = let e : 1 + n ≡ suc n = omega arith in ap (λ k. times k event) e

-- Each call is delivered to a subscriber as often as it stands in the list.
sent_to-deliver :
    (name : String) (names : List String) (event : LogEvent)
    → sent_to name (deliver names event) ≡ times (occurrences name names) event
unfolding sent_to deliver times
sent_to-deliver name [] event = refl
sent_to-deliver name (other ∷ names) event =
    ground (arith, sent_to-deliver name names event, times_suc (occurrences name names) event)

sent_to-append :
    (name : String) (l m : List (String × LogEvent))
    → sent_to name (l ++ m) ≡ sent_to name l ++ sent_to name m
unfolding sent_to
sent_to-append name [] m = refl
sent_to-append name ((other, event) ∷ l) m = ground (arith, sent_to-append name l m)

occurrences-append :
    (name : String) (l m : List String)
    → occurrences name (l ++ m) ≡ occurrences name l + occurrences name m
occurrences-append name [] m = omega arith
occurrences-append name (other ∷ l) m = omega (arith, occurrences-append name l m)

occurrences-remove_first :
    (name other : String) (l : List String)
    → occurrences name (remove_first other l)
      ≡ (if other == name then occurrences name l - 1 else occurrences name l)
unfolding remove_first
occurrences-remove_first name other [] = ground arith
occurrences-remove_first name other (x ∷ l) =
    ground (
      arith,
      eq_iff other name,
      eq_iff x name,
      eq_iff x other,
      occurrences-remove_first name other l,
    )

after-sent_to :
    (name : String) (calls : List Call) (bus : EventBus)
    → sent_to name (after calls bus).delivered
      ≡ sent_to name bus.delivered ++ heard name (occurrences name bus.subscribers) calls
unfolding after heard emit subscribe unsubscribe
after-sent_to name [] bus = sym (append-nil (sent_to name bus.delivered))
after-sent_to name (emitting event ∷ calls) bus =
    let n = occurrences name bus.subscribers in
    let now_sent : sent_to name (emit event bus).delivered
        ≡ sent_to name bus.delivered ++ times n event =
      sent_to-append name bus.delivered (deliver bus.subscribers event)
      ∙ ap (λ l. sent_to name bus.delivered ++ l) (sent_to-deliver name bus.subscribers event) in
    after-sent_to name calls (emit event bus)
    ∙ ap (λ l. l ++ heard name n calls) now_sent
    ∙ append_assoc (sent_to name bus.delivered) (times n event) (heard name n calls)
after-sent_to name (subscribing other ∷ calls) bus =
    let n = occurrences name bus.subscribers in
    let more : occurrences name (subscribe other bus).subscribers
        ≡ (if other == name then n + 1 else n) =
      ground (arith, occurrences-append name bus.subscribers (other ∷ [])) in
    after-sent_to name calls (subscribe other bus)
    ∙ ap (λ k. sent_to name bus.delivered ++ heard name k calls) more
after-sent_to name (unsubscribing other ∷ calls) bus =
    after-sent_to name calls (unsubscribe other bus)
    ∙ ap (λ k. sent_to name bus.delivered ++ heard name k calls)
        (occurrences-remove_first name other bus.subscribers)

-- The last few of the last few.
last_of-shorter :
    (limit n : ℕ) (l : List LogEvent) → limit ≤ n → last_of limit (last_of n l) ≡ last_of limit l
last_of-shorter limit n l h =
    let k = length l - n in
    let left : k + (length (drop_first k l) - limit) ≡ length l - limit =
      omega (arith, length-drop_first k l) in
    drop_first-drop_first (length (drop_first k l) - limit) k l ∙ ap (λ j. drop_first j l) left

-- After any calls on a new bus the log is the last `max_events` of all events emitted, so get_logs
-- without filters answers the last `limit` of all, for a limit above zero and up to `max_events`; and
-- every subscriber was sent, in order, each event emitted while it stood in the list, as often as it
-- stood there.
pub after_refines :
    (lower upper : String → String) (contains : String → String → Bool) (max_events limit : ℕ)
    (calls : List Call)
    → 0 < limit
    → limit ≤ max_events
    → ((after calls (new_bus max_events)).events ≡ last_of max_events (emitted calls))
      × (get_logs lower upper contains limit none none none (after calls (new_bus max_events))
          ≡ last_of limit (emitted calls))
      × ((name : String)
          → sent_to name (after calls (new_bus max_events)).delivered ≡ heard name 0 calls)
unfolding sent_to get_logs
after_refines lower upper contains max_events limit calls some_asked within =
    let log = after-events calls [] (new_bus max_events) (sym (drop_first-nil (0 - max_events))) in
    let shown = ap (last_of limit) log ∙ last_of-shorter limit max_events (emitted calls) within in
    (log, ground arith, λ name. after-sent_to name calls (new_bus max_events))
