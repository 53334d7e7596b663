-- ===== src/Control/Router.antt =====
-- core/control/router_refresh.go: reading the preset sources again while models are loaded.
use llamarig.Common.{Bool, true, false, ◌||◌, Option, none, some, List, [], ◌∷◌, if◌then◌else◌}
use llamarig.Common.Text.{Text, codes, ◌=ₜ◌, text_ltb}
use llamarig.Common.Dict.{Dict, lookup, insert}
use llamarig.Common.Results.{Result, ok, err}
use llamarig.Control.{runtime_error, RuntimeFailure, Failure, core_error, map_runtime_error}

-- router.Model
pub record Model : Type 0 where
  pub id : Text
  pub status : Text

-- What the Router's process is found to be.
pub data RunState : Type 0 where
  stopped starting running : RunState

-- The interfaces RouterRuntime and RouterClient, on the state of the Router and its models.
pub record Router (W : Type 0) : Type 0 where
  pub status : W → Result RuntimeFailure RunState × W
  pub stop : W → Result RuntimeFailure (Unit {0}) × W
  pub start : W → Result RuntimeFailure (Unit {0}) × W
  pub list : W → Result RuntimeFailure (List Model) × W
  pub reload : W → Result RuntimeFailure (List Model) × W
  pub load : Text → W → Result RuntimeFailure (Unit {0}) × W
  pub unload : Text → W → Result RuntimeFailure (Unit {0}) × W

-- `modelStateActive`
abbrev pub model_state_active : Text → Bool
model_state_active s =
    s =ₜ codes "loaded" || s =ₜ codes "loading" || s =ₜ codes "sleeping" || s =ₜ codes "downloading"

unfoldable pub insert_name : Text → List Text → List Text
insert_name n [] = n ∷ []
insert_name n (m ∷ ms) = if text_ltb m n then m ∷ insert_name n ms else n ∷ m ∷ ms

-- `activeModelNames`, sorted as it goes.
unfoldable pub active_model_names : List Model → List Text
unfolding insert_name
active_model_names [] = []
active_model_names (m ∷ ms) =
    if model_state_active m.status
    then insert_name m.id (active_model_names ms)
    else active_model_names ms

-- The map of states; a later model of the same id hides an earlier one.
unfoldable pub states_of : List Model → Dict Text → Dict Text
states_of [] states = states
states_of (m ∷ ms) states = states_of ms (insert m.id m.status states)

-- The errors that `restoreActiveModels` joins.
pub data RestoreError : Type 0 where
  unavailable : Text → RestoreError
  not_loaded : Text → RuntimeFailure → RestoreError

module _ {W : Type 0} (router : Router W) where
  -- The loop of `restoreActiveModels`, with the errors in order.
  unfoldable pub restore_each : List Text → Dict Text → W → List RestoreError × W
  restore_each [] states w = ([], w)
  restore_each (name ∷ names) states w = elim (lookup name states) [
    | none ↦ let (errors, w') = restore_each names states w in (unavailable name ∷ errors, w')
    | some state ↦
        if model_state_active state
        then restore_each names states w
        else (let (loaded, w') = router.load name w in
            let (errors, w'') = restore_each names states w' in
            elim loaded [ ok u ↦ (errors, w'') | err f ↦ (not_loaded name f ∷ errors, w'') ])
  ]

  -- `restoreActiveModels`: whether no error was joined.
  unfoldable pub restore_active_models : List Text → List Model → W → Bool × W
  unfolding restore_each states_of
  restore_active_models active models w =
      let (errors, w') = restore_each active (states_of models []) w in
      (elim errors [ [] ↦ true | e ∷ es ↦ false ], w')

  -- `restartRouterSources`
  unfoldable pub restart_router_sources : List Text → W → Result Failure (Unit {0}) × W
  unfolding restore_active_models
  restart_router_sources active w =
      let (stopped_now, w1) = router.stop w in
      elim stopped_now [
        | err f ↦ (err (map_runtime_error f), w1)
        | ok u ↦
            let (started, w2) = router.start w1 in
            elim started [
              | err f ↦ (err (map_runtime_error f), w2)
              | ok v ↦
                  let (listed, w3) = router.list w2 in
                  elim listed [
                    | err f ↦ (
                      err (
                          core_error runtime_error
                            (codes "list router sources after restart failed")),
                      w3,
                    )
                    | ok models ↦
                        let (restored, w4) = restore_active_models active models w3 in
                        if restored then (ok tt, w4) else (
                          err (
                              core_error runtime_error
                                (codes "router restarted; active Preset restore failed")),
                          w4,
                        )
                  ]
            ]
      ]

  -- `refreshRouterSources` behind the test of the status.
  unfoldable pub reload_sources : W → Result Failure (Unit {0}) × W
  unfolding active_model_names restart_router_sources
  reload_sources w =
      let (listed, w1) = router.list w in
      elim listed [
        | err f ↦ restart_router_sources [] w1
        | ok models ↦
            let active = active_model_names models in
            let (refreshed, w2) = router.reload w1 in
            elim refreshed [
              | err f ↦ restart_router_sources active w2
              | ok again ↦
                  let (restored, w3) = restore_active_models active again w2 in
                  if restored then (ok tt, w3) else (
                    err (
                        core_error runtime_error
                          (codes "router sources refreshed; active Preset restore failed")),
                    w3,
                  )
            ]
      ]

-- What `captureRouterState` keeps.
pub record RouterState : Type 0 where
  pub is_running : Bool
  pub active : List Text

abbrev pub no_router_state : RouterState
no_router_state = record { is_running = false; active = [] }

abbrev pub is_stopped : RunState → Bool
is_stopped stopped = true
is_stopped _ = false

module _ {W : Type 0} where
  -- `refreshRouterSources`; none where the runtime or the Router is not configured.
  unfoldable pub refresh_router_sources : Option (Router W) → W → Result Failure (Unit {0}) × W
  unfolding reload_sources
  refresh_router_sources none w = (ok tt, w)
  refresh_router_sources (some router) w =
      let (status, w1) = router.status w in
      elim status [
        | err f ↦ (err (map_runtime_error f), w1)
        | ok state ↦ if is_stopped state then (ok tt, w1) else reload_sources router w1
      ]

  -- `captureRouterState`
  unfoldable pub capture_router_state : Option (Router W) → W → RouterState × W
  unfolding active_model_names
  capture_router_state none w = (no_router_state, w)
  capture_router_state (some router) w =
      let (status, w1) = router.status w in
      elim status [
        | err f ↦ (no_router_state, w1)
        | ok state ↦
            if is_stopped state
            then (no_router_state, w1)
            else (let (listed, w2) = router.list w1 in
                elim listed [
                  | err f ↦ (record { is_running = true; active = [] }, w2)
                  | ok models ↦
                      (record { is_running = true; active = active_model_names models }, w2)
                ])
      ]
