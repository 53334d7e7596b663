-- ===== src/Control/Presets.antt =====
-- core/control/presets.go: creating and deleting a preset together with the Router's view of it.
-- The functions that `withMutationResult` runs, on models.ini and the Router's state.
pub mod Rollback
pub mod Deletion
use llamarig.Common.{
  ◌≡◌, refl, Bool, true, false, not, ◌&&◌, ◌||◌, Option, none, some, List, [], ◌∷◌, ◌++◌,
  if◌then◌else◌, any,
}
use llamarig.FileDoc.{WriteFault}
use llamarig.Common.Text.{Text, codes, ◌=ₜ◌}
use llamarig.Common.Results.{Result, ok, err}
use llamarig.Config.{RouterConfig}
use llamarig.ModelPresets.{Section, Error, not_found}
use llamarig.ModelPresets.Store.{File, put, delete, get}
use llamarig.Control.{
  runtime_error, conflict, Failure, core_error, map_server_config_error, map_runtime_error,
}
use llamarig.Control.Router.{
  Model, model_state_active, Router, RouterState, no_router_state, is_stopped,
  restart_router_sources, refresh_router_sources, capture_router_state,
}

-- `presetConfigReference`: whether the configuration names the preset.
unfoldable pub preset_config_reference : RouterConfig → Text → Bool
preset_config_reference cfg name =
    name =ₜ cfg.default_preset || any (λ a. name =ₜ a) cfg.autostart_presets

unfoldable pub runs : Text → List Model → Bool
runs name [] = false
runs name (m ∷ ms) = (m.id =ₜ name && model_state_active m.status) || runs name ms

module _ {W : Type 0} where
  -- `rollbackPresetCreation`; `fault` is the error of the write that `Delete` makes.
  unfoldable pub rollback_preset_creation :
      Option (Router W) → Option WriteFault → Text → RouterState → File × W → Failure × File × W
  rollback_preset_creation router fault name previous (f, w) =
      let (deleted, f1) = delete fault name f in
      elim deleted [
        | err e ↦ (
          core_error runtime_error (codes "Preset creation failed and could not be rolled back"),
          f1,
          w,
        )
        | ok u ↦ elim router [
          | none ↦ (
            core_error runtime_error
                (codes "Router refresh failed with the new preset; creation reverted"),
            f1,
            w,
          )
          | some r ↦
              if not previous.is_running
              then (
                core_error runtime_error
                    (codes "Router refresh failed with the new preset; creation reverted"),
                f1,
                w,
              )
              else (let (restarted, w1) = restart_router_sources r previous.active w in
                  elim restarted [
                    | err e ↦ (
                      core_error runtime_error
                          (codes "Preset creation reverted; Router recovery failed"),
                      f1,
                      w1,
                    )
                    | ok v ↦ (
                      core_error runtime_error
                          (codes "Router refresh failed with the new preset; creation reverted"),
                      f1,
                      w1,
                    )
                  ])
        ]
      ]

  -- `PutPreset` from the refresh on.
  unfoldable pub settle_put :
      Option (Router W)
      → Option WriteFault
      → Text
      → Bool
      → RouterState
      → Section
      → File × W
      → Result Failure Section × File × W
  unfolding rollback_preset_creation
  settle_put router delete_fault name create_only previous saved (f, w) =
      let (refreshed, w1) = refresh_router_sources router w in
      elim refreshed [
        | ok u ↦ (ok saved, f, w1)
        | err e ↦
            if create_only
            then (let (failure, f2, w2) =
                  rollback_preset_creation router delete_fault name previous (f, w1) in
                (err failure, f2, w2))
            else (
              err (core_error runtime_error (codes "Preset saved; Router refresh failed")),
              f,
              w1,
            )
      ]

  -- `PutPreset`
  unfoldable pub put_preset :
      Option (Router W)
      → Option WriteFault
      → Option WriteFault
      → Section
      → Bool
      → File × W
      → Result Failure Section × File × W
  unfolding settle_put
  put_preset router put_fault delete_fault section create_only (f, w) =
      let (previous, w1) =
        (if create_only then capture_router_state router w else (no_router_state, w)) in
      let (written_now, f1) = put put_fault section create_only f in
      elim written_now [
        | err e ↦ (err (map_server_config_error e), f1, w1)
        | ok u ↦ elim (get section.name f1) [
          | err e ↦ (err (map_server_config_error e), f1, w1)
          | ok saved ↦
              settle_put router delete_fault section.name create_only previous saved (f1, w1)
        ]
      ]

  -- `modelRunning`
  unfoldable pub model_running : Option (Router W) → Text → W → Result Failure Bool × W
  unfolding runs
  model_running none name w = (ok false, w)
  model_running (some r) name w =
      let (status, w1) = r.status w in
      elim status [
        | err f ↦ (err (map_runtime_error f), w1)
        | ok state ↦
            if is_stopped state
            then (ok false, w1)
            else (let (listed, w2) = r.list w1 in
                elim listed [
                  | err f ↦ (err (map_runtime_error f), w2)
                  | ok models ↦ (ok (runs name models), w2)
                ])
      ]

  -- `presetDeletable`
  unfoldable pub preset_deletable :
      Option (Router W) → RouterConfig → Text → File × W → Result Failure Bool × W
  unfolding preset_config_reference model_running
  preset_deletable router cfg name (f, w) = elim (get name f) [
    | err (not_found missing) ↦ (ok false, w)
    | err e ↦ (err (map_server_config_error e), w)
    | ok s ↦
        if preset_config_reference cfg name
        then (err (core_error conflict (codes "Preset is configured")), w)
        else (let (running, w1) = model_running router name w in
            elim running [
              | err e ↦ (err e, w1)
              | ok true ↦ (err (core_error conflict (codes "preset is loaded")), w1)
              | ok false ↦ (ok true, w1)
            ])
  ]

  -- `DeletePreset`
  unfoldable pub delete_preset :
      Option (Router W)
      → RouterConfig
      → Option WriteFault
      → Text
      → File × W
      → Result Failure (Unit {0}) × File × W
  delete_preset router cfg fault name (f, w) =
      let (deletable, w1) = preset_deletable router cfg name (f, w) in
      elim deletable [
        | err e ↦ (err e, f, w1)
        | ok false ↦ (ok tt, f, w1)
        | ok true ↦
            let (deleted, f1) = delete fault name f in
            elim deleted [
              | err e ↦ (err (map_server_config_error e), f1, w1)
              | ok u ↦
                  let (refreshed, w2) = refresh_router_sources router w1 in
                  elim refreshed [
                    | err e ↦ (
                      err (
                          core_error runtime_error (codes "Preset deleted; Router refresh failed")),
                      f1,
                      w2,
                    )
                    | ok v ↦ (ok tt, f1, w2)
                  ]
            ]
      ]
