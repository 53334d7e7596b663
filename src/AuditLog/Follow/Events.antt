-- ===== src/AuditLog/Follow/Events.antt =====
-- What FollowLog writes while anything happens to the log between its ticks.
use llamarig.Common.{
  ◌≡◌, refl, sym, ap, ◌∙◌, none, some, List, [], ◌∷◌, ◌++◌, append_assoc, append-nil, subst, ℕ,
}
use llamarig.Common.Text.{Text}
use llamarig.Common.Results.{ok}
use llamarig.AuditLog.Follow.{Written, Seen, follow_update, follow_next, follow_ticks}
use llamarig.AuditLog.Follow.Changes.{
  LogState, Change, grown, replaced, truncated, removed, IsPossible, after, news, seen_of,
  cursor_of, follow_update-news,
}

-- What can happen to the log: bytes are appended to its file, another file takes its place, its file
-- is cut and written anew, or it is removed.
pub data Event : Type 0 where
  appended : Text → Event
  replaced_by : ℕ → Text → Event
  cut_to : Text → Event
  taken_away : Event

-- A file that is appended to or cut is there.
abbrev pub CanHappen : Event → LogState → Type 0
CanHappen (appended t) none = ⊥
CanHappen (cut_to t) none = ⊥
CanHappen (appended t) (some f) = Unit
CanHappen (cut_to t) (some f) = Unit
CanHappen (replaced_by j t) s = Unit
CanHappen taken_away s = Unit

abbrev pub happen : Event → LogState → LogState
happen (appended t) none = none
happen (appended t) (some (i, old)) = some (i, old ++ t)
happen (replaced_by j t) s = some (j, t)
happen (cut_to t) none = none
happen (cut_to t) (some (i, old)) = some (i, t)
happen taken_away s = none

abbrev pub run_events : List Event → LogState → LogState
run_events [] s = s
run_events (e ∷ es) s = run_events es (happen e s)

abbrev pub AllHappen : List Event → LogState → Type 0
AllHappen [] s = Unit
AllHappen (e ∷ es) s = CanHappen e s × AllHappen es (happen e s)

-- What the log's file holds of which nothing was shown. What was appended to a file that is then
-- replaced, cut or removed is lost.
abbrev pub unshown_after : Event → Text → Text
unshown_after (appended t) p = p ++ t
unshown_after (replaced_by j t) p = t
unshown_after (cut_to t) p = t
unshown_after taken_away p = []

abbrev pub unshown : List Event → Text → Text
unshown [] p = p
unshown (e ∷ es) p = unshown es (unshown_after e p)

-- A change and one more event as one change.
abbrev pub with_event : Change → Event → Change
with_event (grown m) (appended t) = grown (m ++ t)
with_event (replaced j f) (appended t) = replaced j (f ++ t)
with_event (truncated f) (appended t) = truncated (f ++ t)
with_event removed (appended t) = removed
with_event c (replaced_by j t) = replaced j t
with_event (grown m) (cut_to t) = truncated t
with_event (truncated f) (cut_to t) = truncated t
with_event (replaced j f) (cut_to t) = replaced j t
with_event removed (cut_to t) = removed
with_event c taken_away = removed

abbrev pub with_events : Change → List Event → Change
with_events c [] = c
with_events c (e ∷ es) = with_events (with_event c e) es

-- Nothing has happened yet.
abbrev pub no_change : LogState → Change
no_change none = removed
no_change (some f) = grown []

abbrev pub net : List Event → LogState → Change
net es s = with_events (no_change s) es

after-with_event :
    (c : Change) (e : Event) (s : LogState) → after (with_event c e) s ≡ happen e (after c s)
after-with_event (grown m) (appended t) none = refl
after-with_event (grown m) (appended t) (some (i, old)) =
    ap (λ (f : Text). some (i, f)) (sym (append_assoc old m t))
after-with_event (replaced j f) (appended t) s = refl
after-with_event (truncated f) (appended t) none = refl
after-with_event (truncated f) (appended t) (some x) = refl
after-with_event removed (appended t) s = refl
after-with_event (grown m) (replaced_by j t) s = refl
after-with_event (replaced i f) (replaced_by j t) s = refl
after-with_event (truncated f) (replaced_by j t) s = refl
after-with_event removed (replaced_by j t) s = refl
after-with_event (grown m) (cut_to t) none = refl
after-with_event (grown m) (cut_to t) (some x) = refl
after-with_event (truncated f) (cut_to t) none = refl
after-with_event (truncated f) (cut_to t) (some x) = refl
after-with_event (replaced j f) (cut_to t) s = refl
after-with_event removed (cut_to t) s = refl
after-with_event (grown m) taken_away s = refl
after-with_event (replaced j f) taken_away s = refl
after-with_event (truncated f) taken_away s = refl
after-with_event removed taken_away s = refl

news-with_event :
    (c : Change) (e : Event) (s : LogState)
    → CanHappen e (after c s)
    → news (with_event c e) ≡ unshown_after e (news c)
news-with_event (grown m) (appended t) s h = refl
news-with_event (replaced j f) (appended t) s h = refl
news-with_event (truncated f) (appended t) s h = refl
news-with_event removed (appended t) s h = absurd h
news-with_event (grown m) (replaced_by j t) s h = refl
news-with_event (replaced i f) (replaced_by j t) s h = refl
news-with_event (truncated f) (replaced_by j t) s h = refl
news-with_event removed (replaced_by j t) s h = refl
news-with_event (grown m) (cut_to t) s h = refl
news-with_event (replaced j f) (cut_to t) s h = refl
news-with_event (truncated f) (cut_to t) s h = refl
news-with_event removed (cut_to t) s h = absurd h
news-with_event (grown m) taken_away s h = refl
news-with_event (replaced j f) taken_away s h = refl
news-with_event (truncated f) taken_away s h = refl
news-with_event removed taken_away s h = refl

-- The events as one change: it leaves the same log and shows what is unshown.
with_events_lem :
    (es : List Event) (c : Change) (s : LogState)
    → AllHappen es (after c s)
    → (after (with_events c es) s ≡ run_events es (after c s))
      × (news (with_events c es) ≡ unshown es (news c))
with_events_lem [] c s h = (refl, refl)
with_events_lem (e ∷ es) c s (here, h) =
    let step = after-with_event c e s in
    let (state, shown) =
      with_events_lem es (with_event c e) s (subst (AllHappen es) (sym step) h) in
    (state ∙ ap (run_events es) step, shown ∙ ap (unshown es) (news-with_event c e s here))

after-no_change : (s : LogState) → after (no_change s) s ≡ s
after-no_change none = refl
after-no_change (some (i, old)) = ap (λ (f : Text). some (i, f)) (append-nil old)

news-no_change : (s : LogState) → news (no_change s) ≡ []
news-no_change none = refl
news-no_change (some f) = refl

net_lem :
    (es : List Event) (s : LogState)
    → AllHappen es s
    → (after (net es s) s ≡ run_events es s) × (news (net es s) ≡ unshown es [])
net_lem es s h =
    let start = after-no_change s in
    let (state, shown) = with_events_lem es (no_change s) s (subst (AllHappen es) (sym start) h) in
    (state ∙ ap (run_events es) start, shown ∙ ap (unshown es) (news-no_change s))

-- What happens up to each tick, and what is appended between its two looks at the file.
abbrev pub Intervals : Type 0
Intervals = List (List Event × Text)

-- A file in the log's place has another inode than the one of the last tick; a file that was cut is
-- shorter than it was then.
abbrev pub IsHistory : LogState → Intervals → Type 0
IsHistory s [] = Unit
IsHistory s ((es, later) ∷ rest) =
    AllHappen es s × IsPossible (net es s) s × IsHistory (run_events es s) rest

abbrev pub ticks_of : LogState → Intervals → List Seen
ticks_of s [] = []
ticks_of s ((es, later) ∷ rest) = seen_of (run_events es s) later ∷ ticks_of (run_events es s) rest

abbrev pub all_news : Intervals → Text
all_news [] = []
all_news ((es, later) ∷ rest) = unshown es [] ++ all_news rest

follow_update-unshown :
    (es : List Event) (s : LogState) (later : Text)
    → AllHappen es s
    → IsPossible (net es s) s
    → follow_update (seen_of (run_events es s) later) (cursor_of s)
      ≡ (unshown es [], ok (cursor_of (run_events es s)))
follow_update-unshown es s later h possible =
    let (state, shown) = net_lem es s h in
    subst
      (λ (u : LogState).
        follow_update (seen_of u later) (cursor_of s) ≡ (unshown es [], ok (cursor_of u)))
      state
      (subst
        (λ (t : Text).
          follow_update (seen_of (after (net es s) s) later) (cursor_of s)
          ≡ (t, ok (cursor_of (after (net es s) s))))
        shown (follow_update-news (net es s) s later possible))

pub follow_ticks-news :
    (s : LogState) (intervals : Intervals)
    → IsHistory s intervals
    → follow_ticks (ticks_of s intervals) (cursor_of s) ≡ (all_news intervals, ok tt)
unfolding follow_ticks
follow_ticks-news s [] h = refl
follow_ticks-news s ((es, later) ∷ rest) (happens, possible, h) =
    ap (follow_next (follow_ticks (ticks_of (run_events es s) rest)))
      (follow_update-unshown es s later happens possible)
    ∙ ap (λ (w : Written (Unit {0})). (unshown es [] ++ w.0, w.1))
        (follow_ticks-news (run_events es s) rest h)
