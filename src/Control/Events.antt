-- ===== src/Control/Events.antt =====
-- core/control/events.go: the bounded store of audit events and its subscribers.
pub mod Recent
pub mod Delivery
mod Tests
use llamarig.Common.{
  ℕ, suc, ◌+◌, ◌%◌, ◌^◌, ◌≡◌, Bool, true, false, not, List, [], ◌∷◌, ◌++◌, map, if◌then◌else◌,
  length, ltb, leb, ◌==◌,
}
use llamarig.Common.Text.{Text, decimal}
use llamarig.Common.Int.{ℤ, pos, negsuc}

pub record AuditEvent : Type 0 where
  pub protocol : Text
  pub action : Text
  pub success : Bool
  pub error_kind : Text
  pub duration : Text

pub record Event : Type 0 where
  pub id : Text
  pub time : Text
  pub action : Text
  pub success : Bool
  pub error_kind : Text
  pub duration : Text

-- A subscriber's channel, named by a number, with what waits in it.
pub record Subscriber : Type 0 where
  pub channel : ℕ
  pub pending : List Event

pub record EventStore : Type 0 where
  pub events : List Event
  pub limit : ℕ
  pub subs : List Subscriber
  pub next_id : ℕ

abbrev pub limit_or_default : ℤ → ℕ
limit_or_default (pos n) = if leb n 0 then 200 else n
limit_or_default (negsuc n) = 200

-- `NewEventStore`; a limit below one is the default of 200.
unfoldable pub new_event_store : ℤ → EventStore
new_event_store limit = record {
  events = [];
  limit = limit_or_default limit;
  subs = [];
  next_id = 0;
}

-- The capacity of a subscriber's channel.
abbrev pub capacity : ℕ
capacity = 100

-- `select { case ch <- recorded: default: }`
unfoldable pub offer : Event → Subscriber → Subscriber
offer e s =
    if ltb (length s.pending) capacity then record s { pending = s.pending ++ e ∷ [] } else s

-- `s.events[1:]` past the limit.
unfoldable pub bounded : ℕ → List Event → List Event
bounded limit [] = []
bounded limit (e ∷ es) = if ltb limit (length (e ∷ es)) then es else e ∷ es

-- The event that `Record` makes.
abbrev pub recorded : Text → AuditEvent → EventStore → Event
recorded now a s = record {
  id = decimal (suc s.next_id % 2 ^ 64);
  time = now;
  action = a.action;
  success = a.success;
  error_kind = a.error_kind;
  duration = a.duration;
}

-- `Record`
unfoldable pub record_event : Text → AuditEvent → EventStore → EventStore
unfolding bounded offer
record_event now a s =
    let e = recorded now a s in
    record s {
      events = bounded s.limit (s.events ++ e ∷ []);
      subs = map (offer e) s.subs;
      next_id = suc s.next_id % 2 ^ 64;
    }

unfoldable pub reversed : List Event → List Event
reversed [] = []
reversed (e ∷ es) = reversed es ++ e ∷ []

-- `List`
unfoldable pub list_events : EventStore → List Event
unfolding reversed
list_events s = reversed s.events

-- `SubscribeAndList`, with the number of the new channel.
unfoldable pub subscribe_and_list : ℕ → EventStore → List Event × EventStore
subscribe_and_list channel s =
    (s.events, record s { subs = record { channel = channel; pending = [] } ∷ s.subs })

-- The function that `SubscribeAndList` returns.
unfoldable pub unsubscribe : ℕ → List Subscriber → List Subscriber
unsubscribe channel [] = []
unsubscribe channel (s ∷ ss) =
    if s.channel == channel then unsubscribe channel ss else s ∷ unsubscribe channel ss

-- Calls of `Record`, one after the other.
unfoldable pub record_all : List (Text × AuditEvent) → EventStore → EventStore
record_all [] s = s
record_all ((now, a) ∷ calls) s = record_all calls (record_event now a s)

-- The events that they make.
unfoldable pub log : List (Text × AuditEvent) → EventStore → List Event
log [] s = []
log ((now, a) ∷ calls) s = recorded now a s ∷ log calls (record_event now a s)
