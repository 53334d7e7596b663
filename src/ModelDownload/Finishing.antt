-- ===== src/ModelDownload/Finishing.antt =====
-- core/modeldownload/manager.go `run`: a goroutine comes to its end by its own steps.
use llamarig.Common.{
  ◌≡◌, refl, true, false, Option, none, some, arith, if◌then◌else◌, ap, subst, inl, inr, Bool-cases,
}
use llamarig.Common.Text.{Text, =ₜ_refl}
use llamarig.Common.Int.{ℤ}
use llamarig.Common.Dict.{lookup, erase, lookup-insert, lookup-erase, lookup-adjust}
use llamarig.ModelDownload.{
  Float64, State, completed, failed, cancelled, Job, Dependencies, Failure,
}
use llamarig.ModelDownload.Operations.{
  is_cancellable, is_cancelled, begin_job, set_total, add_progress, conclude, settle_job,
  clear_active, update,
}
use llamarig.ModelDownload.System.{
  Phase, spawned, downloading, settled, Sys, advance, Step, worker_begin, worker_total,
  worker_progress, worker_settle, worker_clear, Reach,
}
use llamarig.ModelDownload.Invariant.{IsValid, settled_not-cancellable}
use llamarig.ModelDownload.Safety.{Step-IsValid, Reach-IsValid}
use llamarig.ModelDownload.Diagram.{Step-Moved}
use llamarig.ModelDownload.Lifecycle.{clear_active-cleared}

-- The state that a download ends in that nobody cancels, by its result.
abbrev pub end_state : Option Failure → State
end_state none = completed
end_state (some f) = if f.is_canceled then cancelled else failed

settled_state :
    {F : Type 0} (fl : Float64 F) (why : Option Failure) (now : Text) (j : Job F)
    → is_cancelled j.state ≡ false
    → (settle_job fl now why j).state ≡ end_state why
unfolding settle_job conclude
settled_state fl none now j live = rw live
settled_state fl (some f) now j live = elim (Bool-cases f.is_canceled) [
  | inl is_so ↦ rw (live, is_so)
  | inr other ↦ rw (live, other)
]

begun :
    {F : Type 0} (now : Text) (j : Job F)
    → is_cancelled j.state ≡ false
    → is_cancelled (begin_job now j).state ≡ false
unfolding begin_job is_cancelled
begun now j live = rw (begin_job, live)

cancellable_live : (st : State) → is_cancellable st ≡ true → is_cancelled st ≡ false
unfolding is_cancellable is_cancelled
cancellable_live cancelled c = cc
cancellable_live _ c = refl

module _ {F : Type 0} (fl : Float64 F) (deps : Dependencies) (i : Text) (why : Option Failure) where
  -- A step of the goroutine of job `i`, whose download has the result `why`.
  pub data OwnStep : Sys F → Sys F → Type 0 where
    own_begin :
        (s : Sys F) (now : Text)
        → lookup i s.workers ≡ some spawned
        → OwnStep s (advance i (begin_job now) downloading s)
    own_total :
        (s : Sys F) (total : ℤ)
        → lookup i s.workers ≡ some downloading
        → OwnStep s (advance i (set_total total) downloading s)
    own_progress :
        (s : Sys F) (n : ℤ)
        → lookup i s.workers ≡ some downloading
        → OwnStep s (advance i (add_progress fl n) downloading s)
    own_settle :
        (s : Sys F) (now : Text)
        → lookup i s.workers ≡ some downloading
        → OwnStep s (advance i (settle_job fl now why) settled s)
    own_clear :
        (s : Sys F)
        → lookup i s.workers ≡ some settled
        → OwnStep s (record { manager = clear_active i s.manager; workers = erase i s.workers })

  pub data OwnSteps : Sys F → Sys F → Type 0 where
    stop : {s : Sys F} → OwnSteps s s
    own : {s t u : Sys F} → OwnStep s t → OwnSteps t u → OwnSteps s u

  -- They are steps of the system.
  OwnStep-Step : {s t : Sys F} → OwnStep s t → Step fl deps s t
  OwnStep-Step (own_begin s now at) = worker_begin s now i at
  OwnStep-Step (own_total s total at) = worker_total s i total at
  OwnStep-Step (own_progress s n at) = worker_progress s i n at
  OwnStep-Step (own_settle s now at) = worker_settle s now i why at
  OwnStep-Step (own_clear s at) = worker_clear s i at

  -- The end of the goroutine: its job is in the state `st`, nothing owns the job's path, and it is
  -- gone.
  pub record IsFinished (path : Text) (st : State) (t : Sys F) : Type 0 where
    pub job : Job F
    pub known : lookup i t.manager.jobs ≡ some job
    pub ended : job.state ≡ st
    pub free : lookup path t.manager.active ≡ none
    pub gone : lookup i t.workers ≡ none

  abbrev pub CanEnd : Text → State → Sys F → Type 0
  CanEnd path st s = (t : Sys F) × OwnSteps s t × IsFinished path st t

  finish_settled :
      (s : Sys F) (j : Job F)
      → IsValid s
      → lookup i s.manager.jobs ≡ some j
      → lookup i s.workers ≡ some settled
      → CanEnd j.target_path j.state s
  finish_settled s j v known at =
      let l = v.live i settled at in
      let j_is : l.job ≡ j = ground (arith, l.known) in
      let e = clear_active-cleared s v i l in
      (
        _,
        own (own_clear s at) stop,
        record {
          job = l.job;
          known = rw e l.known;
          ended = ap (λ (k : Job F). k.state) j_is;
          free = rw (e, ← j_is, lookup-erase, =ₜ_refl);
          gone = rw (lookup-erase, =ₜ_refl);
        },
      )

  advance_after :
      (s : Sys F) (j : Job F) (f : Job F → Job F) (ph : Phase)
      → lookup i s.manager.jobs ≡ some j
      → (lookup i (advance i f ph s).manager.jobs ≡ some (f j))
        × (lookup i (advance i f ph s).workers ≡ some ph)
  unfolding update
  advance_after s j f ph known =
      (ground (arith, lookup-adjust i i f s.manager.jobs, =ₜ_refl i), rw (lookup-insert, =ₜ_refl))

  -- One update by the goroutine, then the rest of its way.
  finish_after :
      (s : Sys F) (path : Text) (st : State) (f : Job F → Job F) (ph : Phase)
      → OwnStep s (advance i f ph s)
      → CanEnd path st (advance i f ph s)
      → CanEnd path st s
  finish_after s path st f ph step (t, steps, done) = (t, own step steps, done)

  OwnStep-path :
      (s : Sys F) (j : Job F) (f : Job F → Job F) (ph : Phase)
      → IsValid s
      → lookup i s.manager.jobs ≡ some j
      → OwnStep s (advance i f ph s)
      → (f j).target_path ≡ j.target_path
  OwnStep-path s j f ph v known step =
      let m = Step-Moved fl deps i j (OwnStep-Step step) v known in
      let (k, w) = advance_after s j f ph known in ground (arith, m.known, m.path, k)

  finish_downloading :
      (now : Text) (s : Sys F) (j : Job F)
      → IsValid s
      → lookup i s.manager.jobs ≡ some j
      → lookup i s.workers ≡ some downloading
      → is_cancelled j.state ≡ false
      → CanEnd j.target_path (end_state why) s
  finish_downloading now s j v known at live =
      let step = own_settle s now at in
      let f = settle_job fl now why in
      let (k, w) = advance_after s j f settled known in
      let valid = Step-IsValid fl deps (OwnStep-Step step) v in
      finish_after s j.target_path (end_state why) f settled step (
        subst (λ (path : Text). CanEnd path (end_state why) (advance i f settled s))
          (OwnStep-path s j f settled v known step)
          (subst (λ (st : State). CanEnd (f j).target_path st (advance i f settled s))
            (settled_state fl why now j live)
            (finish_settled (advance i f settled s) (f j) valid k w)))

  finish_spawned :
      (now : Text) (s : Sys F) (j : Job F)
      → IsValid s
      → lookup i s.manager.jobs ≡ some j
      → lookup i s.workers ≡ some spawned
      → is_cancelled j.state ≡ false
      → CanEnd j.target_path (end_state why) s
  finish_spawned now s j v known at live =
      let step = own_begin s now at in
      let f = begin_job now in
      let (k, w) = advance_after s j f downloading known in
      let valid = Step-IsValid fl deps (OwnStep-Step step) v in
      finish_after s j.target_path (end_state why) f downloading step (
        subst (λ (path : Text). CanEnd path (end_state why) (advance i f downloading s))
          (OwnStep-path s j f downloading v known step)
          (finish_downloading now (advance i f downloading s) (f j) valid k w (begun now j live)))

  finish_from :
      (ph : Phase) (now : Text) (s : Sys F) (j : Job F)
      → IsValid s
      → lookup i s.manager.jobs ≡ some j
      → lookup i s.workers ≡ some ph
      → is_cancellable j.state ≡ true
      → CanEnd j.target_path (end_state why) s
  finish_from settled now s j v known at c =
      let l = v.live i settled at in
      let same : l.job ≡ j = ground (arith, l.known) in
      absurd (settled_not-cancellable j.state (rw same at l.fits) c)
  finish_from downloading now s j v known at c =
      finish_downloading now s j v known at (cancellable_live j.state c)
  finish_from spawned now s j v known at c =
      finish_spawned now s j v known at (cancellable_live j.state c)

  -- From every reached state, the goroutine of a queued or running job can by its own steps alone
  -- come to its end, whatever result its download gives: the job is then completed where the
  -- download gave no error, cancelled where its error is that of a cancelled context, and failed
  -- where it is another; its path is free for the next `Start`, and the goroutine is gone.
  pub finishes_somehow :
      {s : Sys F} (now : Text) (j : Job F)
      → Reach fl deps s
      → lookup i s.manager.jobs ≡ some j
      → is_cancellable j.state ≡ true
      → CanEnd j.target_path (end_state why) s
  finishes_somehow {s} now j r known c =
      let v = Reach-IsValid fl deps r in
      let (ph, w) = v.served i j known c in finish_from ph now s j v known w c
