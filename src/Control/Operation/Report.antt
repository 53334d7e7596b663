-- ===== src/Control/Operation/Report.antt =====
-- core/control/runtime_controller.go: the status of the Router (routerStatus, routerUnavailableStatus).
use llamarig.Common.{
  Bool, true, false, ◌||◌, Option, none, some, List, [], ◌∷◌, ◌++◌, if◌then◌else◌, length,
}
use llamarig.Common.Text.{Text, codes, ◌=ₜ◌, decimal}
use llamarig.Common.Results.{Result, ok, err}
use llamarig.Control.{RuntimeFailure, Failure, map_runtime_error}
use llamarig.Control.Router.{Model, RunState, stopped, starting, running, Router, is_stopped}

-- An active preset in the status.
pub record RuntimePreset : Type 0 where
  pub name : Text
  pub state : RunState
  pub ready : Bool

pub record RuntimeStatus : Type 0 where
  pub state : RunState
  pub detail : Text
  pub presets : List RuntimePreset

-- The state of a model.
unfoldable pub preset_state : Text → RunState
unfolding ◌=ₜ◌
preset_state value =
    if value =ₜ codes "loaded" || value =ₜ codes "sleeping"
    then running
    else if value =ₜ codes "loading" || value =ₜ codes "downloading"
    then starting
    else stopped

abbrev pub is_ready_state : RunState → Bool
is_ready_state running = true
is_ready_state _ = false

abbrev pub is_starting : RunState → Bool
is_starting starting = true
is_starting _ = false

-- The loop of routerStatus.
unfoldable pub status_loop :
    List Model → RunState × List RuntimePreset → RunState × List RuntimePreset
unfolding preset_state
status_loop [] (total, presets) = (total, presets)
status_loop (m ∷ models) (total, presets) =
    let state = preset_state m.status in
    status_loop models (
      if is_stopped state then (total, presets) else (
        if is_starting state || is_stopped total then state else total,
        presets ++ record { name = m.id; state = state; ready = is_ready_state state } ∷ [],
      ))

abbrev pub detail_of : List RuntimePreset → Text
detail_of [] = codes "no presets loaded"
detail_of (p ∷ presets) = decimal (length (p ∷ presets)) ++ codes " preset(s) active"

unfoldable pub status_of_models : List Model → RuntimeStatus
unfolding status_loop decimal
status_of_models models =
    let (state, presets) = status_loop models (stopped, []) in
    record { state = state; detail = detail_of presets; presets = presets }

abbrev pub state_name : RunState → Text
state_name stopped = codes "stopped"
state_name starting = codes "starting"
state_name running = codes "running"

-- `routerUnavailableStatus`
abbrev pub process_status :
    {W : Type 0} → Result RuntimeFailure RunState × W → Result Failure RuntimeStatus × W
process_status (err e, w) = (err (map_runtime_error e), w)
process_status (ok state, w) = (
  ok (record {
    state = state;
    detail =
        if is_stopped state
        then codes "router stopped"
        else codes "router process " ++ state_name state ++ codes "; model list unavailable";
    presets = [];
  }),
  w,
)

abbrev pub status_listed :
    {W : Type 0}
    → Router W
    → Result RuntimeFailure (List Model) × W
    → Result Failure RuntimeStatus × W
status_listed router (err e, w) = process_status (router.status w)
status_listed router (ok models, w) = (ok (status_of_models models), w)

-- `routerStatus`
unfoldable pub router_status :
    {W : Type 0} → Option (Router W) → W → Result Failure RuntimeStatus × W
unfolding status_of_models map_runtime_error
router_status none w = (
  ok (record { state = stopped; detail = codes "router runtime is not configured"; presets = [] }),
  w,
)
router_status (some router) w = status_listed router (router.list w)
