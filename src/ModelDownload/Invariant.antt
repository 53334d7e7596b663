-- ===== src/ModelDownload/Invariant.antt =====
-- What holds of the download manager and its goroutines at every moment.
use llamarig.Common.{
  ◌≡◌, ◌≢◌, ◌∙◌, subst, inl, inr, Bool, true, some, [], arith, Bool-cases, Option-cases,
}
use llamarig.Common.Text.{Text, ◌=ₜ◌, =ₜ_iff}
use llamarig.Common.Dict.{lookup, insert, adjust, lookup-insert, lookup-adjust}
use llamarig.ModelDownload.{State, queued, running, completed, failed, cancelled, Job}
use llamarig.ModelDownload.Operations.{is_cancellable, update}
use llamarig.ModelDownload.System.{Phase, spawned, downloading, settled, Sys, advance}

-- The states that a job can have while its goroutine stands at a phase.
abbrev pub Fits : Phase → State → Type 0
Fits spawned queued = Unit {0}
Fits spawned cancelled = Unit {0}
Fits downloading running = Unit {0}
Fits downloading cancelled = Unit {0}
Fits settled completed = Unit {0}
Fits settled failed = Unit {0}
Fits settled cancelled = Unit {0}
Fits _ _ = ⊥

Fits-cancelled : (ph : Phase) → Fits ph cancelled
Fits-cancelled spawned = tt
Fits-cancelled downloading = tt
Fits-cancelled settled = tt

pub settled_not-cancellable : (st : State) → Fits settled st → is_cancellable st ≡ true → ⊥
unfolding is_cancellable
settled_not-cancellable queued h c = h
settled_not-cancellable running h c = h
settled_not-cancellable _ h c = cc

module _ {F : Type 0} where
  -- A live goroutine has a job in a state that fits, owns the job's path, and has a context that
  -- `Cancel` can reach.
  pub record IsLive (s : Sys F) (i : Text) (ph : Phase) : Type 0 where
    pub job : Job F
    pub flag : Bool
    pub known : lookup i s.manager.jobs ≡ some job
    pub owner : lookup job.target_path s.manager.active ≡ some i
    pub context : lookup i s.manager.cancel ≡ some flag
    pub fits : Fits ph job.state

  pub record IsValid (s : Sys F) : Type 0 where
    -- Every live goroutine is in order.
    pub live : (i : Text) (ph : Phase) → lookup i s.workers ≡ some ph → IsLive s i ph
    -- A path is owned only by the goroutine of a job for that path.
    pub owned :
        (p i : Text)
        → lookup p s.manager.active ≡ some i
        → (i ≢ []) × ((ph : Phase) × (lookup i s.workers ≡ some ph))
    pub path :
        (p i : Text) (j : Job F)
        → lookup p s.manager.active ≡ some i
        → lookup i s.manager.jobs ≡ some j
        → j.target_path ≡ p
    -- A job that is queued or running has a goroutine.
    pub served :
        (i : Text) (j : Job F)
        → lookup i s.manager.jobs ≡ some j
        → is_cancellable j.state ≡ true
        → (ph : Phase) × (lookup i s.workers ≡ some ph)

  module _ (i : Text) (f : Job F → Job F) (ph ph' : Phase) (s : Sys F) (v : IsValid s)
      (at : lookup i s.workers ≡ some ph)
      (same_path : (j : Job F) → (f j).target_path ≡ j.target_path)
      (fits : (j : Job F) → Fits ph j.state → Fits ph' (f j).state) where
    advance-IsLive :
        (k : Text) (q : Phase)
        → lookup k (insert i ph' s.workers) ≡ some q
        → IsLive (advance i f ph' s) k q
    unfolding update
    advance-IsLive k q h = elim (Bool-cases (i =ₜ k)) [
      | inl same ↦
          let l = v.live i ph at in
          let e : i ≡ k = (=ₜ_iff i k).0 same in
          let q_is : ph' ≡ q = ground (arith, lookup-insert i k ph' s.workers) in
          record {
            job = f l.job;
            flag = l.flag;
            known = ground (arith, lookup-adjust i k f s.manager.jobs, l.known);
            owner = ground (arith, same_path l.job, l.owner);
            context = ground (arith, l.context);
            fits = subst (λ r. Fits r (f l.job).state) q_is (fits l.job l.fits);
          }
      | inr other ↦
          let l = v.live k q (ground (arith, lookup-insert i k ph' s.workers)) in
          record {
            job = l.job;
            flag = l.flag;
            known = ground (arith, lookup-adjust i k f s.manager.jobs, l.known);
            owner = l.owner;
            context = l.context;
            fits = l.fits;
          }
    ]

    advance-path :
        (p k : Text) (j : Job F)
        → lookup p s.manager.active ≡ some k
        → lookup k (adjust i f s.manager.jobs) ≡ some j
        → j.target_path ≡ p
    advance-path p k j a h = elim (Bool-cases (i =ₜ k)) [
      | inl same ↦
          let l = v.live i ph at in
          let e : i ≡ k = (=ₜ_iff i k).0 same in
          let known : lookup k s.manager.jobs ≡ some l.job = ground (arith, l.known) in
          let j_is : f l.job ≡ j = ground (arith, lookup-adjust i k f s.manager.jobs) in
          rw (← j_is) (same_path l.job ∙ v.path p k l.job a known)
      | inr other ↦ v.path p k j a (ground (arith, lookup-adjust i k f s.manager.jobs))
    ]

    advance_served :
        (k : Text) (j : Job F)
        → lookup k (adjust i f s.manager.jobs) ≡ some j
        → is_cancellable j.state ≡ true
        → (q : Phase) × (lookup k (insert i ph' s.workers) ≡ some q)
    advance_served k j h c = elim (Bool-cases (i =ₜ k)) [
      | inl same ↦ (ph', rw (lookup-insert, same))
      | inr other ↦
          let (q, e) = v.served k j (ground (arith, lookup-adjust i k f s.manager.jobs)) c in
          (q, rw (lookup-insert, other) e)
    ]

    -- One update by a goroutine keeps everything in order, if it leaves the path alone.
    pub advance-IsValid : IsValid (advance i f ph' s)
    unfolding update
    advance-IsValid = record {
      live = advance-IsLive;
      owned = λ p k h. (
        (v.owned p k h).0,
        elim (Bool-cases (i =ₜ k)) [
          | inl same ↦ (ph', rw (lookup-insert, same))
          | inr other ↦ let (q, e) = (v.owned p k h).1 in (q, rw (lookup-insert, other) e)
        ],
      );
      path = advance-path;
      served = advance_served;
    }

  -- `Cancel` leaves the same goroutines alive.
  abbrev pub cancel_step : Text → (Job F → Job F) → Sys F → Sys F
  cancel_step i f s = record s {
    manager = update i f (record s.manager { cancel = adjust i (λ _. true) s.manager.cancel });
  }

  module _ (i : Text) (f : Job F → Job F) (s : Sys F) (v : IsValid s)
      (same_path : (j : Job F) → (f j).target_path ≡ j.target_path)
      (ends : (j : Job F) → (f j).state ≡ cancelled) where
    cancel-IsLive :
        (k : Text) (q : Phase) → lookup k s.workers ≡ some q → IsLive (cancel_step i f s) k q
    unfolding update
    cancel-IsLive k q h =
        let l = v.live k q h in
        elim (Bool-cases (i =ₜ k)) [
          | inl same ↦ record {
            job = f l.job;
            flag = true;
            known = ground (arith, lookup-adjust i k f s.manager.jobs, l.known);
            owner = ground (arith, same_path l.job, l.owner);
            context =
                ground (arith, lookup-adjust i k (λ (b : Bool). true) s.manager.cancel, l.context);
            fits = rw (ends l.job) (Fits-cancelled q);
          }
          | inr other ↦ record {
            job = l.job;
            flag = l.flag;
            known = ground (arith, lookup-adjust i k f s.manager.jobs, l.known);
            owner = l.owner;
            context =
                ground (arith, lookup-adjust i k (λ (b : Bool). true) s.manager.cancel, l.context);
            fits = l.fits;
          }
        ]

    cancel_path :
        (p k : Text) (j : Job F)
        → lookup p s.manager.active ≡ some k
        → lookup k (adjust i f s.manager.jobs) ≡ some j
        → j.target_path ≡ p
    cancel_path p k j a h = elim (Option-cases (lookup k s.manager.jobs)) [
      | inl gone ↦ absurd (ground (arith, lookup-adjust i k f s.manager.jobs))
      | inr (l, known) ↦ elim (Bool-cases (i =ₜ k)) [
        | inl same ↦
            let j_is : f l ≡ j = ground (arith, lookup-adjust i k f s.manager.jobs) in
            rw (← j_is) (same_path l ∙ v.path p k l a known)
        | inr other ↦ v.path p k j a (ground (arith, lookup-adjust i k f s.manager.jobs))
      ]
    ]

    cancel_served :
        (k : Text) (j : Job F)
        → lookup k (adjust i f s.manager.jobs) ≡ some j
        → is_cancellable j.state ≡ true
        → (q : Phase) × (lookup k s.workers ≡ some q)
    unfolding is_cancellable
    cancel_served k j h c = elim (Option-cases (lookup k s.manager.jobs)) [
      | inl gone ↦ absurd (ground (arith, lookup-adjust i k f s.manager.jobs))
      | inr (l, known) ↦ v.served k j (ground (arith, ends l, lookup-adjust i k f s.manager.jobs)) c
    ]

    pub cancel-IsValid : IsValid (cancel_step i f s)
    unfolding update
    cancel-IsValid = record {
      live = cancel-IsLive;
      owned = v.owned;
      path = cancel_path;
      served = cancel_served;
    }
