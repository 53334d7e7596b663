-- ===== src/ModelDownload/Safety.antt =====
-- core/modeldownload/manager.go: the steps of the system against the invariant.
use llamarig.Common.{
  ◌≡◌, ◌≢◌, refl, inl, inr, false, not, ◌&&◌, ◌||◌, Option, none, some, [], arith, Bool-cases,
  Option-cases,
}
use llamarig.Common.Text.{Text, =ₜ_iff}
use llamarig.Common.Int.{ℤ}
use llamarig.Common.Dict.{lookup}
use llamarig.Common.Results.{Result, Result-cases}
use llamarig.ModelDownload.{
  Float64, Request, Job, File, Error, Source, Dependencies, Manager, Failure,
}
use llamarig.ModelDownload.Operations.{
  Outcome, panics, is_cancellable, is_empty, enqueue, start_file, start, find_file, cancel,
  cancel_job, begin_job, set_total, add_progress, settle_job, queued_job, already_downloaded_job,
}
use llamarig.ModelDownload.System.{
  Phase, spawned, downloading, settled, Sys, spawn, initial, Step, client_start, client_cancel,
  worker_begin, worker_total, worker_progress, worker_settle, worker_clear, Reach, here, next,
}
use llamarig.ModelDownload.Invariant.{Fits, IsValid, advance-IsValid, cancel-IsValid}
use llamarig.ModelDownload.Lifecycle.{
  store-IsValid, spawn-IsValid, clear-IsValid, clear_active-cleared,
}

module _ {F : Type 0} where
  -- The system once a call of `Start` has returned.
  abbrev pub started : Text → Outcome F × Manager F → Sys F → Sys F
  started new_id r s = record { manager = r.1; workers = spawn new_id r.0 s.workers }

  -- The call did not end in a nil dereference.
  abbrev pub NoPanic : Outcome F → Type 0
  NoPanic o = o ≢ panics

  abbrev pub StartsWell : Text → Outcome F × Manager F → Sys F → Type 0
  StartsWell new_id r s = IsValid (started new_id r s) × NoPanic r.0

module _ {F : Type 0} (fl : Float64 F) (s : Sys F) (v : IsValid s) (new_id now : Text)
    (fresh : lookup new_id s.manager.jobs ≡ none) (named : new_id ≢ []) where
  enqueue-StartsWell :
      (req : Request) (f : File) (url : Text)
      → StartsWell new_id (enqueue fl new_id req f url s.manager) s
  unfolding enqueue spawn
  enqueue-StartsWell req f url = elim (Option-cases (lookup f.local_path s.manager.active)) [
    | inl free ↦
        rw (free, enqueue)
          (spawn-IsValid s v new_id (queued_job fl new_id req f) fresh refl named free, λ e. cc)
    | inr (owner, owned) ↦
        let (n, (ph, w)) = v.owned f.local_path owner owned in
        let l = v.live owner ph w in
        let busy : is_empty owner ≡ false = ground (arith, =ₜ_iff owner [], n) in
        rw (owned, enqueue, busy, l.known) (v, λ e. cc)
  ]

  start_file-StartsWell :
      (req : Request) (url_of : Source → Text → Result Error Text) (src : Source) (f : Option File)
      → StartsWell new_id (start_file fl new_id now req url_of src f s.manager) s
  unfolding start_file spawn is_cancellable
  start_file-StartsWell req url_of src none = (v, λ e. cc)
  start_file-StartsWell req url_of src (some f) = elim (Bool-cases (f.exists && not req.force)) [
    | inl old ↦
        rw old (
          store-IsValid s v new_id (already_downloaded_job fl new_id now req f) fresh refl,
          λ e. cc,
        )
    | inr fetch ↦ elim (Result-cases (url_of src req.filename)) [
      | inl (url, e) ↦ rw (fetch, e, start_file) (enqueue-StartsWell req f url)
      | inr (why, e) ↦ rw (fetch, e, start_file) (v, λ e. cc)
    ]
  ]

  pub start-StartsWell :
      (deps : Dependencies) (req : Request)
      → StartsWell new_id (start fl deps new_id now req s.manager) s
  unfolding start spawn
  start-StartsWell deps req = elim (Bool-cases (is_empty req.url || is_empty req.filename)) [
    | inl empty ↦ rw empty (v, λ e. cc)
    | inr full ↦ rw full (elim (Option-cases deps.catalog) [
      | inl nil ↦ rw (nil, start) (v, λ e. cc)
      | inr (resolve, c) ↦ elim (Option-cases deps.download_url) [
        | inl nil ↦ rw (c, nil, start) (v, λ e. cc)
        | inr (url_of, u) ↦ elim (Result-cases (resolve req.url)) [
          | inl ((files, source), e) ↦
              rw (c, u, e, start)
                (start_file-StartsWell req url_of source (find_file files req.filename))
          | inr (why, e) ↦ rw (c, u, e, start) (v, λ e. cc)
        ]
      ]
    ])
  ]

begin_job-Fits :
    {F : Type 0} (now : Text) (j : Job F)
    → Fits spawned j.state
    → Fits downloading (begin_job now j).state
unfolding begin_job
begin_job-Fits now j h = ground arith

settle_job-Fits :
    {F : Type 0} (fl : Float64 F) (now : Text) (why : Option Failure) (j : Job F)
    → Fits downloading j.state
    → Fits settled (settle_job fl now why j).state
unfolding settle_job
settle_job-Fits fl now why j h = ground arith

begin_job_path :
    {F : Type 0} (now : Text) (j : Job F) → (begin_job now j).target_path ≡ j.target_path
unfolding begin_job
begin_job_path now j = ground arith

settle_job_path :
    {F : Type 0} (fl : Float64 F) (now : Text) (why : Option Failure) (j : Job F)
    → (settle_job fl now why j).target_path ≡ j.target_path
unfolding settle_job
settle_job_path fl now why j = ground arith

pub set_total_kept :
    {F : Type 0} (n : ℤ) (j : Job F)
    → ((set_total n j).target_path ≡ j.target_path) × ((set_total n j).state ≡ j.state)
unfolding set_total
set_total_kept n j = ground arith

pub add_progress_kept :
    {F : Type 0} (fl : Float64 F) (n : ℤ) (j : Job F)
    → ((add_progress fl n j).target_path ≡ j.target_path) × ((add_progress fl n j).state ≡ j.state)
unfolding add_progress
add_progress_kept fl n j = ground arith

cancel_sys-IsValid :
    {F : Type 0} (s : Sys F) (v : IsValid s) (ctx : Option Text) (now id : Text)
    → IsValid (record s { manager = (cancel ctx now id s.manager).1 })
unfolding cancel
cancel_sys-IsValid s v (some e) now id = v
cancel_sys-IsValid s v none now id = elim (Option-cases (lookup id s.manager.jobs)) [
  | inl gone ↦ rw (gone, cancel) v
  | inr (j, known) ↦ elim (Bool-cases (is_cancellable j.state)) [
    | inl live ↦
        rw (known, cancel, live) (cancel-IsValid id (cancel_job now) s v (λ _. refl) (λ _. refl))
    | inr ended ↦ rw (known, cancel, ended) v
  ]
]

module _ {F : Type 0} (fl : Float64 F) (deps : Dependencies) where
  -- Whatever a client or a goroutine does next, the manager stays in order.
  pub Step-IsValid : {s t : Sys F} → Step fl deps s t → IsValid s → IsValid t
  Step-IsValid (client_start s new_id now req fresh named) v =
      (start-StartsWell fl s v new_id now fresh named deps req).0
  Step-IsValid (client_cancel s ctx now id) v = cancel_sys-IsValid s v ctx now id
  Step-IsValid (worker_begin s now id at) v =
      advance-IsValid id (begin_job now) spawned downloading s v at (begin_job_path now)
        (begin_job-Fits now)
  Step-IsValid (worker_total s id total at) v =
      advance-IsValid id (set_total total) downloading downloading s v at
        (λ j. (set_total_kept total j).0) (λ j h. rw ((set_total_kept total j).1) h)
  Step-IsValid (worker_progress s id n at) v =
      advance-IsValid id (add_progress fl n) downloading downloading s v at
        (λ j. (add_progress_kept fl n j).0) (λ j h. rw ((add_progress_kept fl n j).1) h)
  Step-IsValid (worker_settle s now id why at) v =
      advance-IsValid id (settle_job fl now why) downloading settled s v at
        (settle_job_path fl now why) (settle_job-Fits fl now why)
  Step-IsValid (worker_clear s id at) v =
      let l = v.live id settled at in rw (clear_active-cleared s v id l) (clear-IsValid s v id l)

  initial-IsValid : IsValid {F = F} initial
  unfolding lookup
  initial-IsValid = record {
    live = λ i ph h. absurd (cc);
    owned = λ p i h. absurd (cc);
    path = λ p i j h k. absurd (cc);
    served = λ i j h c. absurd (cc);
  }

  -- In every state that is reached, each live goroutine has a job that fits its phase and owns that
  -- job's path, a path is owned only by the goroutine of a job for it, and each queued or running
  -- job has a goroutine.
  pub Reach-IsValid : {s : Sys F} → Reach fl deps s → IsValid s
  Reach-IsValid here = initial-IsValid
  Reach-IsValid (next r st) = Step-IsValid st (Reach-IsValid r)

  -- In every reached state, `Start` with an id that no job has does not dereference nil.
  pub start_no_panic :
      {s : Sys F} (new_id now : Text) (req : Request)
      → Reach fl deps s
      → lookup new_id s.manager.jobs ≡ none
      → new_id ≢ []
      → (start fl deps new_id now req s.manager).0 ≢ panics
  start_no_panic {s} new_id now req r fresh named =
      (start-StartsWell fl s (Reach-IsValid r) new_id now fresh named deps req).1

  -- In every reached state, two goroutines that have not yet run `clearActive` and whose jobs have
  -- the same target path are the same goroutine: no two ever write one partial file.
  pub one_writer :
      {s : Sys F} (i k : Text) (p q : Phase) (a b : Job F)
      → Reach fl deps s
      → lookup i s.workers ≡ some p
      → lookup k s.workers ≡ some q
      → lookup i s.manager.jobs ≡ some a
      → lookup k s.manager.jobs ≡ some b
      → a.target_path ≡ b.target_path
      → i ≡ k
  one_writer i k p q a b r wi wk ja jb same =
      let v = Reach-IsValid r in
      let l = v.live i p wi in
      let m = v.live k q wk in ground (arith, l.known, m.known, l.owner, m.owner)
