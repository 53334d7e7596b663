-- ===== src/Control/Events/Recent.antt =====
-- core/control/events.go: the events that the store holds, against all that were recorded.
use llamarig.Common.{
  ℕ, suc, ◌+◌, ◌-◌, ◌≤◌, ◌≡◌, refl, sym, ◌∙◌, ap, inl, inr, List, [], ◌∷◌, ◌++◌, append_assoc,
  append-nil, arith, Bool-cases, length, length-append, drop, ltb,
}
use llamarig.Common.Text.{Text}
use llamarig.Common.Int.{ℤ}
use llamarig.Control.Events.{
  AuditEvent, Event, EventStore, bounded, recorded, record_event, new_event_store, record_all, log,
  list_events, reversed, limit_or_default,
}

-- The last `n` elements.
unfoldable pub recent : ℕ → List Event → List Event
recent n es = drop (length es - n) es

length-drop : (k : ℕ) (es : List Event) → length (drop k es) ≡ length es - k
length-drop Prim.Native.Nat.zero es = omega arith
length-drop (suc k) [] = omega arith
length-drop (suc k) (e ∷ es) = omega (arith, length-drop k es)

drop-append : (k : ℕ) (es fs : List Event) → k ≤ length es → drop k (es ++ fs) ≡ drop k es ++ fs
drop-append Prim.Native.Nat.zero es fs h = refl
drop-append (suc k) [] fs h = absurd (omega arith)
drop-append (suc k) (e ∷ es) fs h = drop-append k es fs (omega arith)

drop_nil : (k : ℕ) → drop {A = Event} k [] ≡ []
drop_nil Prim.Native.Nat.zero = refl
drop_nil (suc k) = refl

drop-drop : (m k : ℕ) (es : List Event) → drop m (drop k es) ≡ drop (k + m) es
drop-drop m Prim.Native.Nat.zero es = ap (λ j. drop j es) (omega arith)
drop-drop m (suc k) [] = drop_nil m ∙ sym (drop_nil (suc k + m))
drop-drop m (suc k) (e ∷ es) =
    let same : suc (k + m) ≡ suc k + m = omega arith in
    drop-drop m k es ∙ ap (λ j. drop j (e ∷ es)) same

-- What is forgotten early is forgotten late.
recent-append : (n : ℕ) (es fs : List Event) → recent n (recent n es ++ fs) ≡ recent n (es ++ fs)
unfolding recent
recent-append n es fs =
    ap (λ (xs : List Event). drop (length xs - n) xs)
      (sym (drop-append (length es - n) es fs (omega arith)))
    ∙ drop-drop (length (drop (length es - n) (es ++ fs)) - n) (length es - n) (es ++ fs)
    ∙ ap (λ k. drop k (es ++ fs))
        (omega (arith, length-drop (length es - n) (es ++ fs), length-append es fs))

bounded-recent : (n : ℕ) (es : List Event) → length es ≤ suc n → bounded n es ≡ recent n es
unfolding bounded recent
bounded-recent n [] h = sym (drop_nil (0 - n))
bounded-recent n (e ∷ es) h = elim (Bool-cases (ltb n (length (e ∷ es)))) [
  | inl over ↦ let one : length (e ∷ es) - n ≡ 1 = ground arith in rw (over, one)
  | inr within ↦ let none_over : length (e ∷ es) - n ≡ 0 = ground arith in rw (within, none_over)
]

length-recent : (n : ℕ) (es : List Event) → length (recent n es) ≤ n
unfolding recent
length-recent n es = omega (arith, length-drop (length es - n) es)

-- A store in order.
pub record IsBounded (s : EventStore) : Type 0 where
  pub bound : length s.events ≤ s.limit

pub record_event-IsBounded :
    (now : Text) (a : AuditEvent) (s : EventStore)
    → IsBounded s
    → IsBounded (record_event now a s)
      × ((record_event now a s).events ≡ recent s.limit (s.events ++ recorded now a s ∷ []))
unfolding record_event
record_event-IsBounded now a s b =
    let more : List Event = s.events ++ recorded now a s ∷ [] in
    let same : bounded s.limit more ≡ recent s.limit more =
      bounded-recent s.limit more
        (omega (arith, b.bound, length-append s.events (recorded now a s ∷ []))) in
    (record { bound = rw same (length-recent s.limit more) }, same)

record_event-limit :
    (now : Text) (a : AuditEvent) (s : EventStore) → (record_event now a s).limit ≡ s.limit
unfolding record_event
record_event-limit now a s = refl

recent_short : (n : ℕ) (es : List Event) → length es ≤ n → recent n es ≡ es
unfolding recent
recent_short n es h = let none_over : length es - n ≡ 0 = omega arith in rw none_over

record_all-recent :
    (calls : List (Text × AuditEvent)) (s : EventStore)
    → IsBounded s
    → (record_all calls s).events ≡ recent s.limit (s.events ++ log calls s)
unfolding record_all log
record_all-recent [] s b =
    sym (
      recent_short s.limit (s.events ++ []) (rw (append-nil s.events) b.bound)
      ∙ append-nil s.events)
record_all-recent ((now, a) ∷ calls) s b =
    let (b', same) = record_event-IsBounded now a s b in
    let later : List Event = log calls (record_event now a s) in
    record_all-recent calls (record_event now a s) b'
    ∙ ap (λ n. recent n ((record_event now a s).events ++ later)) (record_event-limit now a s)
    ∙ ap (λ (xs : List Event). recent s.limit (xs ++ later)) same
    ∙ recent-append s.limit (s.events ++ recorded now a s ∷ []) later
    ∙ ap (recent s.limit) (append_assoc s.events (recorded now a s ∷ []) later)

record_all-limit :
    (calls : List (Text × AuditEvent)) (s : EventStore) → (record_all calls s).limit ≡ s.limit
unfolding record_all
record_all-limit [] s = refl
record_all-limit ((now, a) ∷ calls) s =
    record_all-limit calls (record_event now a s) ∙ record_event-limit now a s

-- Behind any calls of `Record` on a new store, `List` gives the latest of the recorded events, as
-- many as the limit allows, the latest first.
pub list_events-recent :
    (limit : ℤ) (calls : List (Text × AuditEvent))
    → (list_events (record_all calls (new_event_store limit))
        ≡ reversed (recent (limit_or_default limit) (log calls (new_event_store limit))))
      × (length (record_all calls (new_event_store limit)).events ≤ limit_or_default limit)
unfolding list_events new_event_store
list_events-recent limit calls =
    let same = record_all-recent calls (new_event_store limit) (record { bound = omega arith }) in
    (
      ap reversed same,
      rw same (length-recent (limit_or_default limit) (log calls (new_event_store limit))),
    )
