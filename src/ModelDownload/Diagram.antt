-- ===== src/ModelDownload/Diagram.antt =====
-- The states of a job under the steps of the system, against the diagram that they are meant to
-- follow, and the ends that a job can come to.
use llamarig.Common.{
  ◌≡◌, refl, ◌⊎◌, inl, inr, true, not, Option, none, some, arith, Bool-cases, Option-cases, ◌&&◌,
  ◌||◌,
}
use llamarig.Common.Text.{Text, ◌=ₜ◌, =ₜ_iff}
use llamarig.Common.Dict.{lookup, insert, adjust, lookup-insert, lookup-adjust}
use llamarig.Common.Results.{Result, Result-cases}
use llamarig.ModelDownload.{
  Float64, State, queued, running, completed, failed, cancelled, Request, Job, File, Error, Source,
  Dependencies, Manager, Failure,
}
use llamarig.ModelDownload.Operations.{
  is_cancellable, is_empty, enqueue, start_file, start, find_file, cancel, cancel_job, begin_job,
  set_total, add_progress, settle_job, queued_job, already_downloaded_job, update,
}
use llamarig.ModelDownload.System.{
  Phase, spawned, downloading, settled, Sys, advance, Step, client_start, client_cancel,
  worker_begin, worker_total, worker_progress, worker_settle, worker_clear,
}
use llamarig.ModelDownload.Invariant.{Fits, IsValid}
use llamarig.ModelDownload.Safety.{set_total_kept, add_progress_kept}
use llamarig.ModelDownload.Lifecycle.{clear_active-cleared}

-- The diagram: an arrow of the state machine, or no change.
pub data Moves : State → State → Type 0 where
  stays : {st : State} → Moves st st
  begins : Moves queued running
  finishes : Moves running completed
  fails : Moves running failed
  gives_up : {st : State} → is_cancellable st ≡ true → Moves st cancelled

-- A job known by `i` in `s` is still known, for the same path, and its state has made a move.
pub record Moved {F : Type 0} (i : Text) (j : Job F) (t : Sys F) : Type 0 where
  pub after : Job F
  pub known : lookup i t.manager.jobs ≡ some after
  pub path : after.target_path ≡ j.target_path
  pub moves : Moves j.state after.state

module _ {F : Type 0} (i : Text) (j : Job F) where
  stays_put : (t : Sys F) → lookup i t.manager.jobs ≡ some j → Moved i j t
  stays_put t known = record { after = j; known = known; path = refl; moves = stays }

  -- An update of the job at `k`.
  adjust-Moved :
      (k : Text) (f : Job F → Job F) (s t : Sys F)
      → t.manager.jobs ≡ adjust k f s.manager.jobs
      → lookup i s.manager.jobs ≡ some j
      → ((k =ₜ i) ≡ true → ((f j).target_path ≡ j.target_path) × Moves j.state (f j).state)
      → Moved i j t
  adjust-Moved k f s t e known m = elim (Bool-cases (k =ₜ i)) [
    | inl same ↦ record {
      after = f j;
      known = rw e (ground (arith, lookup-adjust k i f s.manager.jobs));
      path = (m same).0;
      moves = (m same).1;
    }
    | inr other ↦ record {
      after = j;
      known = rw e (ground (arith, lookup-adjust k i f s.manager.jobs));
      path = refl;
      moves = stays;
    }
  ]

  -- A new job under another id.
  insert-Moved :
      (k : Text) (new : Job F) (s t : Sys F)
      → t.manager.jobs ≡ insert k new s.manager.jobs
      → lookup i s.manager.jobs ≡ some j
      → lookup k s.manager.jobs ≡ none
      → Moved i j t
  insert-Moved k new s t e known fresh =
      stays_put t (rw e (ground (arith, lookup-insert k i new s.manager.jobs, =ₜ_iff k i)))

abbrev MovesJob : {F : Type 0} → Job F → Job F → Type 0
MovesJob j j' = (j'.target_path ≡ j.target_path) × Moves j.state j'.state

begin_job-Moves :
    {F : Type 0} (now : Text) (j : Job F) (st : State)
    → j.state ≡ st
    → Fits spawned st
    → MovesJob j (begin_job now j)
unfolding begin_job
begin_job-Moves now j queued e h = rw (e, begin_job) (refl, begins)
begin_job-Moves now j cancelled e h = rw (e, begin_job) (refl, stays)
begin_job-Moves now j _ e h = absurd h

settle_job-Moves :
    {F : Type 0} (fl : Float64 F) (now : Text) (why : Option Failure) (j : Job F) (st : State)
    → j.state ≡ st
    → Fits downloading st
    → MovesJob j (settle_job fl now why j)
unfolding settle_job is_cancellable
settle_job-Moves fl now none j running e h = rw (e, settle_job) (refl, finishes)
settle_job-Moves fl now (some f) j running e h = elim (Bool-cases f.is_canceled) [
  | inl canceled ↦ rw (e, settle_job, canceled) (refl, gives_up refl)
  | inr broken ↦ rw (e, settle_job, broken) (refl, fails)
]
settle_job-Moves fl now why j cancelled e h = rw (e, settle_job) (refl, stays)
settle_job-Moves fl now why j _ e h = absurd h

-- The jobs that a call of `Start` leaves: those before, or one more under the new id.
abbrev Stores : {F : Type 0} → Text → Manager F → Manager F → Type 0
Stores {F} new_id m m' = (m'.jobs ≡ m.jobs) ⊎ ((new : Job F) × (m'.jobs ≡ insert new_id new m.jobs))

module _ {F : Type 0} (fl : Float64 F) (m : Manager F) (new_id now : Text) (req : Request) where
  enqueue-Stores : (f : File) (url : Text) → Stores new_id m (enqueue fl new_id req f url m).1
  unfolding enqueue
  enqueue-Stores f url = elim (Option-cases (lookup f.local_path m.active)) [
    | inl free ↦ rw (free, enqueue) (inr (queued_job fl new_id req f, refl))
    | inr (owner, owned) ↦ elim (Bool-cases (is_empty owner)) [
      | inl empty ↦ rw (owned, enqueue, empty) (inr (queued_job fl new_id req f, refl))
      | inr busy ↦ rw (owned, enqueue, busy) (inl refl)
    ]
  ]

  start_file-Stores :
      (url_of : Source → Text → Result Error Text) (src : Source) (f : Option File)
      → Stores new_id m (start_file fl new_id now req url_of src f m).1
  unfolding start_file
  start_file-Stores url_of src none = inl refl
  start_file-Stores url_of src (some f) = elim (Bool-cases (f.exists && not req.force)) [
    | inl old ↦ rw old (inr (already_downloaded_job fl new_id now req f, refl))
    | inr fetch ↦ elim (Result-cases (url_of src req.filename)) [
      | inl (url, e) ↦ rw (fetch, e, start_file) (enqueue-Stores f url)
      | inr (why, e) ↦ rw (fetch, e, start_file) (inl refl)
    ]
  ]

  start-Stores : (deps : Dependencies) → Stores new_id m (start fl deps new_id now req m).1
  unfolding start
  start-Stores deps = elim (Bool-cases (is_empty req.url || is_empty req.filename)) [
    | inl empty ↦ rw empty (inl refl)
    | inr full ↦ rw full (elim (Option-cases deps.catalog) [
      | inl nil ↦ rw (nil, start) (inl refl)
      | inr (resolve, c) ↦ elim (Option-cases deps.download_url) [
        | inl nil ↦ rw (c, nil, start) (inl refl)
        | inr (url_of, u) ↦ elim (Result-cases (resolve req.url)) [
          | inl ((files, source), e) ↦
              rw (c, u, e, start) (start_file-Stores url_of source (find_file files req.filename))
          | inr (why, e) ↦ rw (c, u, e, start) (inl refl)
        ]
      ]
    ])
  ]

cancel-Moved :
    {F : Type 0} (s : Sys F) (ctx : Option Text) (now id i : Text) (j : Job F)
    → lookup i s.manager.jobs ≡ some j
    → Moved i j (record s { manager = (cancel ctx now id s.manager).1 })
unfolding cancel
cancel-Moved s (some e) now id i j known = stays_put i j s known
cancel-Moved s none now id i j known = elim (Option-cases (lookup id s.manager.jobs)) [
  | inl gone ↦ rw (gone, cancel) (stays_put i j s known)
  | inr (k, e) ↦ elim (Bool-cases (is_cancellable k.state)) [
    | inl live ↦
        rw (e, cancel, live)
          (adjust-Moved i j id (cancel_job now) s _ refl known
            (λ same. (refl, gives_up (ground (arith, =ₜ_iff id i)))))
    | inr ended ↦ rw (e, cancel, ended) (stays_put i j s known)
  ]
]

module _ {F : Type 0} (fl : Float64 F) (deps : Dependencies) (i : Text) (j : Job F) where
  -- An update of the job at `id` by its goroutine.
  advance-Moved :
      (s : Sys F) (id : Text) (f : Job F → Job F) (ph ph' : Phase)
      → IsValid s
      → lookup id s.workers ≡ some ph
      → lookup i s.manager.jobs ≡ some j
      → (Fits ph j.state → MovesJob j (f j))
      → Moved i j (advance id f ph' s)
  unfolding update
  advance-Moved s id f ph ph' v at known m =
      let l = v.live id ph at in
      adjust-Moved i j id f s (advance id f ph' s) refl known (λ same.
        let e : id ≡ i = (=ₜ_iff id i).0 same in
        let j_is : l.job ≡ j = ground (arith, l.known) in m (rw (← j_is) l.fits))

  -- One step of the system, from a state in order, changes the state of a known job only along an
  -- arrow of the diagram, and never its target path.
  pub Step-Moved :
      {s t : Sys F} → Step fl deps s t → IsValid s → lookup i s.manager.jobs ≡ some j → Moved i j t
  Step-Moved (client_start s new_id now req fresh named) v known =
      elim (start-Stores fl s.manager new_id now req deps) [
        | inl same ↦ stays_put i j _ (rw same known)
        | inr (new, e) ↦ insert-Moved i j new_id new s _ e known fresh
      ]
  Step-Moved (client_cancel s ctx now id) v known = cancel-Moved s ctx now id i j known
  Step-Moved (worker_begin s now id at) v known =
      advance-Moved s id (begin_job now) spawned downloading v at known
        (begin_job-Moves now j j.state refl)
  Step-Moved (worker_total s id total at) v known =
      advance-Moved s id (set_total total) downloading downloading v at known
        (λ h. ((set_total_kept total j).0, rw ((set_total_kept total j).1) stays))
  Step-Moved (worker_progress s id n at) v known =
      advance-Moved s id (add_progress fl n) downloading downloading v at known
        (λ h. ((add_progress_kept fl n j).0, rw ((add_progress_kept fl n j).1) stays))
  Step-Moved (worker_settle s now id why at) v known =
      advance-Moved s id (settle_job fl now why) downloading settled v at known
        (settle_job-Moves fl now why j j.state refl)
  Step-Moved (worker_clear s id at) v known =
      stays_put i j _ (rw (clear_active-cleared s v id (v.live id settled at)) known)
