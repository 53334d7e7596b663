-- ===== src/Control/Events/Tests.antt =====
-- Runs of the event store, and the concrete inputs of its theorems.
use llamarig.Common.{◌≤◌, ◌≡◌, true, List, [], ◌∷◌, length, arith}
use llamarig.Common.Text.{Text, codes}
use llamarig.Common.Int.{pos}
use llamarig.Control.Events.{
  AuditEvent, Subscriber, new_event_store, record_all, log, list_events, subscribe_and_list,
  reversed,
}
use llamarig.Control.Events.Recent.{recent, list_events-recent}
use llamarig.Control.Events.Delivery.{subscriber_misses_nothing}

abbrev put_call : Text × AuditEvent
put_call = (
  codes "2026-01-01T00:00:00Z",
  record {
    protocol = [];
    action = codes "put_preset";
    success = true;
    error_kind = [];
    duration = codes "1ms";
  },
)

abbrev calls : List (Text × AuditEvent)
calls = put_call ∷ put_call ∷ put_call ∷ []

list_events-recent_example :
    (list_events (record_all calls (new_event_store (pos 2)))
      ≡ reversed (recent 2 (log calls (new_event_store (pos 2)))))
    × (length (record_all calls (new_event_store (pos 2))).events ≤ 2)
list_events-recent_example = list_events-recent (pos 2) calls

subscriber_misses_nothing_example :
    ((subscribe_and_list 7 (new_event_store (pos 2))).0 ≡ (new_event_store (pos 2)).events)
    × ((rest : List Subscriber) × ((record_all calls
            (subscribe_and_list 7 (new_event_store (pos 2))).1).subs
          ≡ record {
            channel = 7;
            pending = log calls (subscribe_and_list 7 (new_event_store (pos 2))).1;
          }
            ∷ rest))
subscriber_misses_nothing_example =
    subscriber_misses_nothing 7 (new_event_store (pos 2)) calls (omega arith)
