-- ===== src/ModelDownload/Endings.antt =====
-- core/modeldownload/manager.go: the ends of a download, and the answers of `Start` and `Cancel` on
-- the way.
use llamarig.Common.{
  ◌≡◌, refl, ◌∙◌, inl, inr, Bool, true, false, Option, none, some, [], arith, Bool-cases,
  Option-cases, if◌then◌else◌,
}
use llamarig.Common.Text.{Text, =ₜ_iff, =ₜ_refl}
use llamarig.Common.Dict.{lookup, lookup-adjust}
use llamarig.Common.Results.{Result, ok, err}
use llamarig.ModelDownload.{
  Float64, State, Request, Job, File, Error, not_found, conflict, Dependencies, Manager,
}
use llamarig.ModelDownload.Operations.{
  job, is_cancellable, is_empty, enqueue, cancel, cancel_job, update,
}
use llamarig.ModelDownload.System.{Sys, Step, Reach}
use llamarig.ModelDownload.Invariant.{IsValid}
use llamarig.ModelDownload.Safety.{Step-IsValid, Reach-IsValid}
use llamarig.ModelDownload.Diagram.{Moves, stays, begins, finishes, fails, gives_up, Step-Moved}

module _ {F : Type 0} (fl : Float64 F) (deps : Dependencies) where
  -- What can come to pass from `s`.
  pub data Later (s : Sys F) : Sys F → Type 0 where
    rest : Later s s
    more : {t u : Sys F} → Later s t → Step fl deps t u → Later s u

  Later-IsValid : {s t : Sys F} → Later s t → IsValid s → IsValid t
  Later-IsValid rest v = v
  Later-IsValid (more l st) v = Step-IsValid fl deps st (Later-IsValid l v)

  ended-stays : {a b : State} → Moves a b → is_cancellable a ≡ false → b ≡ a
  unfolding is_cancellable
  ended-stays stays e = refl
  ended-stays begins e = cc
  ended-stays finishes e = cc
  ended-stays fails e = cc
  ended-stays (gives_up h) e = cc

  -- From a reached state on, whatever clients and goroutines do, a job that is neither queued nor
  -- running keeps its state and its target path for ever.
  pub ended_for_ever :
      {s t : Sys F} (i : Text) (j : Job F)
      → Reach fl deps s
      → Later s t
      → lookup i s.manager.jobs ≡ some j
      → is_cancellable j.state ≡ false
      → (j' : Job F) × (lookup i t.manager.jobs ≡ some j')
        × (j'.state ≡ j.state)
        × (j'.target_path ≡ j.target_path)
  ended_for_ever i j r rest known ended = (j, known, refl, refl)
  ended_for_ever i j r (more l st) known ended =
      let (j', k, same, path) = ended_for_ever i j r l known ended in
      let m = Step-Moved fl deps i j' st (Later-IsValid l (Reach-IsValid fl deps r)) k in
      (m.after, m.known, ended-stays m.moves (rw same ended) ∙ same, m.path ∙ path)

module _ {F : Type 0} where
  -- What `Cancel` is to answer, by what the manager knows of the id.
  abbrev pub CancelAnswer :
      Text → Text → Manager F → Option (Job F) → Result Error (Job F) × Manager F → Type 0
  CancelAnswer now id m none r = r ≡ (err (not_found id), m)
  CancelAnswer now id m (some j) r =
      if is_cancellable j.state
      then (r.0 ≡ ok (cancel_job now j))
        × (lookup id r.1.jobs ≡ some (cancel_job now j))
        × (lookup id r.1.cancel ≡ some true)
      else r ≡ (err (conflict id j.state), m)

  -- In a state in order, `Cancel` refuses an unknown id and an ended job and changes nothing; a
  -- queued or running job it stores and returns as cancelled, and the context of its goroutine is
  -- cancelled.
  cancel_valid :
      (s : Sys F) (now id : Text)
      → IsValid s
      → CancelAnswer now id s.manager (lookup id s.manager.jobs) (cancel none now id s.manager)
  unfolding cancel update
  cancel_valid s now id v = elim (Option-cases (lookup id s.manager.jobs)) [
    | inl gone ↦ rw (gone, cancel)
    | inr (j, known) ↦ elim (Bool-cases (is_cancellable j.state)) [
      | inl live ↦
          let (ph, w) = v.served id j known live in
          let l = v.live id ph w in
          rw (known, cancel, live)
            (
              refl,
              ground
                  (arith, lookup-adjust id id (cancel_job now) s.manager.jobs, =ₜ_refl id, known),
              ground (
                arith,
                lookup-adjust id id (λ (b : Bool). true) s.manager.cancel,
                =ₜ_refl id,
                l.context,
              ),
            )
      | inr ended ↦ rw (known, cancel, ended)
    ]
  ]

module _ {F : Type 0} (fl : Float64 F) (deps : Dependencies) {s : Sys F} (r : Reach fl deps s) where
  -- In every reached state, `Cancel` refuses an unknown id and an ended job and changes nothing; a
  -- queued or running job it stores and returns as cancelled, and the context of its goroutine is
  -- cancelled.
  pub cancel_answers :
      (now id : Text)
      → CancelAnswer now id s.manager (lookup id s.manager.jobs) (cancel none now id s.manager)
  cancel_answers now id = cancel_valid s now id (Reach-IsValid fl deps r)

  -- In every reached state, a `Start` that comes to fetch a file whose path a goroutine owns changes
  -- nothing and returns the job of that goroutine, which is for that path.
  pub enqueue_owned :
      (new_id : Text) (req : Request) (f : File) (url owner : Text)
      → lookup f.local_path s.manager.active ≡ some owner
      → (j : Job F) × (enqueue fl new_id req f url s.manager ≡ (job j, s.manager))
        × (lookup owner s.manager.jobs ≡ some j)
        × (j.target_path ≡ f.local_path)
  unfolding enqueue
  enqueue_owned new_id req f url owner owned =
      let v = Reach-IsValid fl deps r in
      let (n, (ph, w)) = v.owned f.local_path owner owned in
      let l = v.live owner ph w in
      let busy : is_empty owner ≡ false = ground (arith, =ₜ_iff owner [], n) in
      (
        l.job,
        rw (owned, enqueue, busy, l.known),
        l.known,
        v.path f.local_path owner l.job owned l.known,
      )
