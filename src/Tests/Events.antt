-- ===== src/Tests/Events.antt =====
-- The event log: three events in a log of two, and a subscriber that comes and goes.
use cluster_mesh.Prelude.{String, ◌≡◌, refl, true, none, List, [], ◌∷◌, arith}
use cluster_mesh.Api.Events.{
  LogEvent, LogLevel, last_of, get_logs, emit, subscribe, unsubscribe, remove_first, deliver,
  drop_first,
}
use cluster_mesh.Api.Events.History.{
  Call, emitting, subscribing, unsubscribing, new_bus, after, emitted, heard, times, sent_to,
  after_refines,
}

abbrev event : String → LogEvent
event id = record {
  id = id;
  timestamp = "";
  level = LogLevel.info;
  source = "jobs";
  message = "";
  metadata = [];
}

abbrev calls : List Call
calls =
    emitting (event "1")
    ∷ subscribing "page"
    ∷ emitting (event "2")
    ∷ unsubscribing "page"
    ∷ emitting (event "3")
    ∷ []

page_heard : heard "page" 0 calls ≡ event "2" ∷ []
unfolding heard times
page_heard = refl

log_kept : (after calls (new_bus 2)).events ≡ event "2" ∷ event "3" ∷ []
unfolding after emit subscribe unsubscribe deliver remove_first drop_first
log_kept = refl

after_refines_example :
    ((after calls (new_bus 2)).events ≡ last_of 2 (emitted calls))
    × (get_logs (λ s. s) (λ s. s) (λ s t. true) 1 none none none (after calls (new_bus 2))
        ≡ last_of 1 (emitted calls))
    × ((name : String) → sent_to name (after calls (new_bus 2)).delivered ≡ heard name 0 calls)
after_refines_example =
    after_refines (λ s. s) (λ s. s) (λ s t. true) 2 1 calls (omega arith) (omega arith)
