-- ===== src/Control/Operation.antt =====
-- core/control/runtime_controller.go and operation.go: starting, stopping and restarting a preset.
-- The Router's process and client are configured together; the status is in Report.
pub mod Report
pub mod Targets
pub mod Overview
mod Tests
use llamarig.Common.{
  ℕ, zero, suc, Bool, true, false, not, ◌&&◌, ◌||◌, Option, none, some, List, [], ◌∷◌, ◌++◌, map,
  ltb, ◌==◌, if◌then◌else◌, length,
}
use llamarig.Common.Text.{Text, codes, ◌=ₜ◌, decimal}
use llamarig.Common.Results.{Result, ok, err}
use llamarig.Config.{RouterConfig}
use llamarig.ModelPresets.{Section}
use llamarig.ModelPresets.Store.{File, get, list}
use llamarig.ModelPresets.Source.{Paths, SourceStatus, ready, unavailable, inspect_source}
use llamarig.Control.{
  invalid_input, conflict, RuntimeFailure, Failure, core_error, map_server_config_error,
  map_runtime_error,
}
use llamarig.Control.Mutation.{Shared, with_mutation_result}
use llamarig.Control.Router.{Model, RunState, stopped, starting, running, Router, is_stopped}

-- The duration is left out.
pub record OperationResult : Type 0 where
  pub action : Text
  pub target : Text
  pub status : Text
  pub message : Text

-- `GetPreset`, `ListPresets`.
abbrev pub get_preset : Text → File → Result Failure Section
get_preset name f = elim (get name f) [ err e ↦ err (map_server_config_error e) | ok s ↦ ok s ]

abbrev pub list_presets : File → Result Failure (List Section)
list_presets f = elim (list f) [ err e ↦ err (map_server_config_error e) | ok ss ↦ ok ss ]

-- `%v` of names.
abbrev pub show_names : List Section → Text
show_names [] = []
show_names (s ∷ []) = s.name
show_names (s ∷ t ∷ ss) = s.name ++ b' ' ∷ show_names (t ∷ ss)

abbrev pub only_preset : List Section → Result Failure Text
only_preset (s ∷ []) = ok s.name
only_preset presets = err (
    core_error invalid_input
      (codes "server is required; available servers: [" ++ show_names presets ++ codes "]"))

abbrev pub requested_name : RouterConfig → Text → Text
requested_name cfg requested =
    if requested =ₜ [] && not (cfg.default_preset =ₜ []) then cfg.default_preset else requested

abbrev pub known_name : Text → Result Failure Section → Result Failure Text
known_name name (err e) = err e
known_name name (ok s) = ok name

abbrev pub listed_name : Result Failure (List Section) → Result Failure Text
listed_name (err e) = err e
listed_name (ok presets) = only_preset presets

-- `resolveStartPreset`
unfoldable pub resolve_start_preset : RouterConfig → Text → File → Result Failure Text
unfolding ◌=ₜ◌
resolve_start_preset cfg requested f =
    let name = requested_name cfg requested in
    if name =ₜ [] then listed_name (list_presets f) else known_name name (get_preset name f)

abbrev pub source_there : Text → SourceStatus → Result Failure (Unit {0})
source_there name ready = ok tt
source_there name (unavailable e) =
    err (core_error conflict (codes "Preset " ++ b'"' ∷ name ++ codes "\" is unavailable: " ++ e))

abbrev pub source_of : Paths → Text → Result Failure Section → Result Failure (Unit {0})
source_of paths name (err e) = err e
source_of paths name (ok s) = source_there name (inspect_source paths s)

-- `requirePresetSource`
unfoldable pub require_preset_source : Paths → Text → File → Result Failure (Unit {0})
unfolding inspect_source
require_preset_source paths name f = source_of paths name (get_preset name f)

abbrev pub is_start : Text → Bool
is_start action = action =ₜ codes "start" || action =ₜ codes "restart"

-- The test of the sources, of an action that starts.
abbrev pub require_source : Paths → Text → Text → File → Result Failure (Unit {0})
require_source paths action name f =
    if is_start action then require_preset_source paths name f else ok tt

module _ {W : Type 0} where
  -- `ensureRouter`
  abbrev pub ensure_started : Result RuntimeFailure (Unit {0}) × W → Result Failure (Unit {0}) × W
  ensure_started (err e, w) = (err (map_runtime_error e), w)
  ensure_started (ok _, w) = (ok tt, w)

  abbrev pub ensure_status :
      Router W → Result RuntimeFailure RunState × W → Result Failure (Unit {0}) × W
  ensure_status router (err e, w) = (err (map_runtime_error e), w)
  ensure_status router (ok state, w) =
      if is_stopped state then ensure_started (router.start w) else (ok tt, w)

  unfoldable pub ensure_router : Option (Router W) → W → Result Failure (Unit {0}) × W
  unfolding map_runtime_error
  ensure_router none w =
      (err (core_error invalid_input (codes "router runtime is not configured")), w)
  ensure_router (some router) w = ensure_status router (router.status w)

  abbrev pub acted : Result RuntimeFailure (Unit {0}) × W → Result Failure (Unit {0}) × W
  acted (err e, w) = (err (map_runtime_error e), w)
  acted (ok _, w) = (ok tt, w)

  -- `applyRouterAction`, with the mapping of its error.
  unfoldable pub apply_router_action :
      Option (Router W) → Text → Text → W → Result Failure (Unit {0}) × W
  unfolding map_runtime_error
  apply_router_action none action name w =
      (err (core_error invalid_input (codes "router client is not configured")), w)
  apply_router_action (some router) action name w =
      if action =ₜ codes "start"
      then acted (router.load name w)
      else if action =ₜ codes "stop"
      then acted (router.unload name w)
      else if action =ₜ codes "restart"
      then acted (router.load name (router.unload name w).1)
      else (err (core_error invalid_input (codes "unknown router action")), w)

  abbrev pub succeeded :
      Text → Text → Result Failure (Unit {0}) × W → Result Failure OperationResult × W
  succeeded action name (err e, w) = (err e, w)
  succeeded action name (ok _, w) = (
    ok (record {
      action = action;
      target = name;
      status = codes "succeeded";
      message = action ++ codes " completed";
    }),
    w,
  )

  abbrev pub act_ensured :
      Option (Router W)
      → Text
      → Text
      → Result Failure (Unit {0}) × W
      → Result Failure OperationResult × W
  act_ensured router action name (err e, w) = (err e, w)
  act_ensured router action name (ok _, w) =
      succeeded action name (apply_router_action router action name w)

  abbrev pub act_sourced :
      Option (Router W)
      → Text
      → Text
      → Result Failure (Unit {0})
      → W
      → Result Failure OperationResult × W
  act_sourced router action name (err e) w = (err e, w)
  act_sourced router action name (ok _) w = act_ensured router action name (ensure_router router w)

  abbrev pub act_resolved :
      Paths
      → Option (Router W)
      → Text
      → File
      → Result Failure Text
      → W
      → Result Failure OperationResult × W
  act_resolved paths router action f (err e) w = (err e, w)
  act_resolved paths router action f (ok name) w =
      act_sourced router action name (require_source paths action name f) w

  -- The function that `routerOperation` runs.
  unfoldable pub perform_router_action :
      Paths
      → Option (Router W)
      → RouterConfig
      → Text
      → Text
      → File
      → W
      → Result Failure OperationResult × W
  unfolding resolve_start_preset require_preset_source ensure_router apply_router_action
  perform_router_action paths router cfg action requested f w =
      act_resolved paths router action f (resolve_start_preset cfg requested f) w

  -- `routerOperation`: StartOperation, RestartOperation, and StopOperation of a preset.
  unfoldable pub router_operation :
      Paths
      → Option (Router W)
      → RouterConfig
      → Text
      → Text
      → File
      → Shared W
      → Result Failure OperationResult × Shared W
  unfolding with_mutation_result perform_router_action
  router_operation paths router cfg action requested f = with_mutation_result action (λ s.
      let (result, w) = perform_router_action paths router cfg action requested f s.inside in
      (result, record s { inside = w }))
