-- ===== src/Control/Operation/Targets.antt =====
-- What a start that succeeds has found and done.
use llamarig.Common.{
  ◌≡◌, refl, ap, sym, subst, true, some, Bool-cases, if◌then◌else◌, ◌⊎◌, inl, inr, arith,
}
use llamarig.Common.Text.{Text, codes, ◌=ₜ◌, =ₜ_iff}
use llamarig.Common.Results.{Result, ok, err, Result-cases}
use llamarig.Config.{RouterConfig}
use llamarig.ModelPresets.{Section}
use llamarig.ModelPresets.Store.{File, get}
use llamarig.ModelPresets.Source.{Paths, SourceStatus, ready, unavailable, inspect_source}
use llamarig.Control.{RuntimeFailure, Failure}
use llamarig.Control.Router.{Router}
use llamarig.Control.Operation.{
  OperationResult, get_preset, source_there, require_preset_source, is_start, require_source,
  ensure_router, acted, apply_router_action, succeeded, act_ensured, act_sourced, act_resolved,
  resolve_start_preset, perform_router_action,
}

-- The preset is there with its sources.
abbrev pub IsThere : Paths → File → Text → Type 0
IsThere paths f name = (s : Section) × (get name f ≡ ok s) × (inspect_source paths s ≡ ready)

source_there-ready :
    (name : Text) (status : SourceStatus) → source_there name status ≡ ok tt → status ≡ ready
source_there-ready name ready h = refl
source_there-ready name (unavailable e) h = cc

require_preset_source-IsThere :
    (paths : Paths) (name : Text) (f : File)
    → require_preset_source paths name f ≡ ok tt
    → IsThere paths f name
unfolding require_preset_source
require_preset_source-IsThere paths name f h = elim (Result-cases (get name f)) [
  | inl (s, found) ↦ (
    s,
    found,
    source_there-ready name (inspect_source paths s)
        (rw (require_preset_source, get_preset, found) at h),
  )
  | inr (e, missing) ↦ cc (rw (require_preset_source, get_preset, missing) at h)
]

-- The model was loaded in some state of the Router.
abbrev pub IsLoaded : {W : Type 0} → Router W → Text → W → Type 0
IsLoaded {W} router name w' = (w : W) × (router.load name w ≡ (ok tt, w'))

module _ {W : Type 0} (router : Router W) where
  acted-ok :
      (out : Result RuntimeFailure (Unit {0}) × W) (w' : W)
      → acted out ≡ (ok tt, w')
      → out ≡ (ok tt, w')
  acted-ok (err e, w) w' h = cc
  acted-ok (ok _, w) w' h = ground arith

  apply_start-IsLoaded :
      (name : Text) (w w' : W)
      → apply_router_action (some router) (codes "start") name w ≡ (ok tt, w')
      → IsLoaded router name w'
  unfolding apply_router_action ◌=ₜ◌
  apply_start-IsLoaded name w w' h = (w, acted-ok (router.load name w) w' h)

  apply_restart-IsLoaded :
      (name : Text) (w w' : W)
      → apply_router_action (some router) (codes "restart") name w ≡ (ok tt, w')
      → IsLoaded router name w'
  unfolding apply_router_action ◌=ₜ◌
  apply_restart-IsLoaded name w w' h =
      ((router.unload name w).1, acted-ok (router.load name (router.unload name w).1) w' h)

  is_start-cases :
      (action : Text)
      → is_start action ≡ true
      → (codes "start" ≡ action) ⊎ (codes "restart" ≡ action)
  is_start-cases action h = elim (Bool-cases (action =ₜ codes "start")) [
    | inl e ↦ inl (sym ((=ₜ_iff action (codes "start")).0 e))
    | inr e ↦ inr (sym ((=ₜ_iff action (codes "restart")).0 (rw e at h)))
  ]

  apply-IsLoaded :
      (action name : Text) (w w' : W)
      → is_start action ≡ true
      → apply_router_action (some router) action name w ≡ (ok tt, w')
      → IsLoaded router name w'
  apply-IsLoaded action name w w' starts h = elim (is_start-cases action starts) [
    | inl e ↦
        apply_start-IsLoaded name w w'
          (subst (λ a. apply_router_action (some router) a name w ≡ (ok tt, w')) (sym e) h)
    | inr e ↦
        apply_restart-IsLoaded name w w'
          (subst (λ a. apply_router_action (some router) a name w ≡ (ok tt, w')) (sym e) h)
  ]

  -- The target of a success, and what the action answered.
  succeeded-ok :
      (action name : Text) (out : Result Failure (Unit {0}) × W) (r : OperationResult) (w' : W)
      → succeeded action name out ≡ (ok r, w')
      → (r.target ≡ name) × (out ≡ (ok tt, w'))
  succeeded-ok action name (err e, w) r w' h = cc
  succeeded-ok action name (ok _, w) r w' h = ground arith

  act_ensured-ok :
      (action name : Text) (ensured : Result Failure (Unit {0}) × W) (r : OperationResult) (w' : W)
      → is_start action ≡ true
      → act_ensured (some router) action name ensured ≡ (ok r, w')
      → (r.target ≡ name) × IsLoaded router name w'
  act_ensured-ok action name (err e, w) r w' starts h = cc
  act_ensured-ok action name (ok _, w) r w' starts h =
      let (target, done) =
        succeeded-ok action name (apply_router_action (some router) action name w) r w' h in
      (target, apply-IsLoaded action name w w' starts done)

  act_sourced-ok :
      (action name : Text) (sourced : Result Failure (Unit {0})) (r : OperationResult) (w w' : W)
      → is_start action ≡ true
      → act_sourced (some router) action name sourced w ≡ (ok r, w')
      → (sourced ≡ ok tt) × (r.target ≡ name) × IsLoaded router name w'
  act_sourced-ok action name (err e) r w w' starts h = cc
  act_sourced-ok action name (ok _) r w w' starts h =
      let (target, loaded) =
        act_ensured-ok action name (ensure_router (some router) w) r w' starts h in
      (refl, target, loaded)

  act_resolved-ok :
      (paths : Paths) (action : Text) (f : File) (resolved : Result Failure Text)
      (r : OperationResult) (w w' : W)
      → is_start action ≡ true
      → act_resolved paths (some router) action f resolved w ≡ (ok r, w')
      → (resolved ≡ ok r.target) × IsThere paths f r.target × IsLoaded router r.target w'
  act_resolved-ok paths action f (err e) r w w' starts h = cc
  act_resolved-ok paths action f (ok name) r w w' starts h =
      let (sourced, target, loaded) =
        act_sourced-ok action name (require_source paths action name f) r w w' starts h in
      let there = require_preset_source-IsThere paths name f (
        subst (λ b. (if b then require_preset_source paths name f else ok tt) ≡ ok tt) starts
          sourced) in
      (
        ap ok (sym target),
        subst (IsThere paths f) (sym target) there,
        subst (λ n. IsLoaded router n w') (sym target) loaded,
      )

  -- A start or restart that succeeds has the preset that the request stands for as its target, which
  -- models.ini has with all its sources there, and has loaded it into the Router as its last step.
  pub perform_router_action-loads :
      (paths : Paths) (cfg : RouterConfig) (action requested : Text) (f : File)
      (r : OperationResult) (w w' : W)
      → is_start action ≡ true
      → perform_router_action paths (some router) cfg action requested f w ≡ (ok r, w')
      → (resolve_start_preset cfg requested f ≡ ok r.target)
        × IsThere paths f r.target
        × IsLoaded router r.target w'
  unfolding perform_router_action
  perform_router_action-loads paths cfg action requested f r w w' starts h =
      act_resolved-ok paths action f (resolve_start_preset cfg requested f) r w w' starts h
