-- ===== src/Control/Events/Delivery.antt =====
-- core/control/events.go: what waits in the channel of a subscriber.
use llamarig.Common.{
  ℕ, suc, ◌+◌, ◌≤◌, ◌≡◌, refl, sym, ◌∙◌, ap, true, List, [], ◌∷◌, ◌++◌, map, append_assoc,
  append-nil, arith, length, length-append, ltb,
}
use llamarig.Common.Text.{Text}
use llamarig.Control.Events.{
  AuditEvent, Event, Subscriber, EventStore, capacity, offer, recorded, record_event, record_all,
  log, subscribe_and_list,
}

offer_room :
    (e : Event) (s : Subscriber)
    → suc (length s.pending) ≤ capacity
    → offer e s ≡ record s { pending = s.pending ++ e ∷ [] }
unfolding offer
offer_room e s h = let room : ltb (length s.pending) capacity ≡ true = ground arith in rw room

record_event-subs :
    (now : Text) (a : AuditEvent) (s : EventStore)
    → (record_event now a s).subs ≡ map (offer (recorded now a s)) s.subs
unfolding record_event
record_event-subs now a s = refl

waits :
    (calls : List (Text × AuditEvent)) (s : EventStore) (sub : Subscriber)
    (others : List Subscriber)
    → s.subs ≡ sub ∷ others
    → length sub.pending + length calls ≤ capacity
    → (rest : List Subscriber) × ((record_all calls s).subs
        ≡ record sub { pending = sub.pending ++ log calls s } ∷ rest)
unfolding record_all log
waits [] s sub others h room =
    (others, h ∙ ap (λ p. record sub { pending = p } ∷ others) (sym (append-nil sub.pending)))
waits ((now, a) ∷ calls) s sub others h room =
    let sub' : Subscriber = record sub { pending = sub.pending ++ recorded now a s ∷ [] } in
    let step : (record_event now a s).subs ≡ sub' ∷ map (offer (recorded now a s)) others =
      record_event-subs now a s
      ∙ ap (map (offer (recorded now a s))) h
      ∙ ap (λ x. x ∷ map (offer (recorded now a s)) others)
          (offer_room (recorded now a s) sub (omega arith)) in
    let (rest, done) =
      waits calls (record_event now a s) sub' (map (offer (recorded now a s)) others) step
        (omega (arith, length-append sub.pending (recorded now a s ∷ []))) in
    (
      rest,
      done
          ∙ ap (λ p. record sub { pending = p } ∷ rest)
              (append_assoc sub.pending (recorded now a s ∷ []) (log calls (record_event now a s))),
    )

-- A subscriber that has taken nothing yet finds, behind `SubscribeAndList` and at most as many
-- calls of `Record` as its channel holds, exactly their events in its channel, in order; and what it
-- was listed at first is what the store held then. So it misses no event and gets none twice.
pub subscriber_misses_nothing :
    (channel : ℕ) (s : EventStore) (calls : List (Text × AuditEvent))
    → length calls ≤ capacity
    → ((subscribe_and_list channel s).0 ≡ s.events)
      × ((rest : List Subscriber) × ((record_all calls (subscribe_and_list channel s).1).subs
            ≡ record { channel = channel; pending = log calls (subscribe_and_list channel s).1 }
              ∷ rest))
unfolding subscribe_and_list
subscriber_misses_nothing channel s calls h = (
  refl,
  waits calls (subscribe_and_list channel s).1 (record { channel = channel; pending = [] }) s.subs
      refl (omega arith),
)
