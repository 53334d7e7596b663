-- ===== src/Control/Cleanup.antt =====
-- core/control/presets.go `CleanupPreset` and core/control/model_cleanup.go `DeleteLocalModel`: what
-- goes together with a preset or with a model file.
pub mod Cascade
pub mod Unavailable
use llamarig.Common.{
  ℕ, ◌≡◌, Bool, true, false, not, ◌&&◌, ◌||◌, Option, none, some, List, [], ◌∷◌, ◌++◌,
  if◌then◌else◌, any,
}
use llamarig.FileDoc.{WriteFault}
use llamarig.Common.Text.{Text, codes, ◌=ₜ◌}
use llamarig.Common.Results.{Result, ok, err}
use llamarig.Config.{autostart_cap_exceeded}
use llamarig.ConfigStore.Edits.{remove_preset_reference_nodes}
use llamarig.ConfigStore.Store.{
  StoreError, malformed, empty, too_large, no_config, Yaml, mutate_document,
}
use llamarig.ConfigStore.Store
use llamarig.ModelPresets.{Section, Error, not_found}
use llamarig.ModelPresets.Source.{
  Paths, SourceStatus, ready, unavailable, inspect_source, References, find_references,
}
use llamarig.ModelPresets.Store.{File, delete, get, list}
use llamarig.Control.{
  invalid_input, missing, conflict, runtime_error, RuntimeFailure, Failure, core_error,
  config_error, passed_config, map_server_config_error, map_runtime_error,
}
use llamarig.Control.Router.{Model, model_state_active, Router, is_stopped, refresh_router_sources}
use llamarig.Control.Presets.{model_running}

-- `mapConfigStoreError`; an error of the file system but for a missing file is taken to be none that
-- it names.
unfoldable pub map_config_store_error : StoreError → Failure
map_config_store_error (malformed autostart_cap_exceeded) =
    config_error conflict (malformed autostart_cap_exceeded)
map_config_store_error (malformed e) = config_error invalid_input (malformed e)
map_config_store_error empty = config_error invalid_input empty
map_config_store_error too_large = config_error invalid_input too_large
map_config_store_error no_config = core_error missing (codes "config.yaml entry not found")
map_config_store_error e = passed_config e

-- What the two operations work on: models.ini, config.yaml and the Router's state.
pub record Stores (W : Type 0) : Type 0 where
  pub presets : File
  pub config : Store.File
  pub world : W

-- The interfaces behind the manager, and the size limit of config.yaml.
pub record Services (W : Type 0) : Type 0 where
  pub router : Option (Router W)
  pub yaml : Yaml
  pub limit_bytes : ℕ
  pub paths : Paths

-- The loop over `m.presets.Delete`.
unfoldable pub delete_each : Option WriteFault → List Text → File → Result Error (Unit {0}) × File
delete_each fault [] f = (ok tt, f)
delete_each fault (name ∷ names) f =
    let (deleted, f1) = delete fault name f in
    let rest = delete_each fault names f1 in elim deleted [ err e ↦ (err e, f1) | ok u ↦ rest ]

-- `active[model.ID]`; a later model of the same id counts.
unfoldable pub is_active : Text → List Model → Bool → Bool
is_active name [] found = found
is_active name (m ∷ ms) found =
    is_active name ms (if m.id =ₜ name then model_state_active m.status else found)

-- `rejectActivePreset`
unfoldable pub reject_active_preset : List Model → List Text → Bool
unfolding is_active
reject_active_preset models names = any (λ n. is_active n models false) names

module _ {W : Type 0} (services : Services W) where
  -- `removePresetReferences`, with a configuration store and a context that is not done.
  unfoldable pub remove_preset_references :
      Option WriteFault → List Text → Stores W → Result Failure (Unit {0}) × Stores W
  remove_preset_references fault names s =
      let (edited, config) =
        mutate_document services.yaml services.limit_bytes none fault
          (remove_preset_reference_nodes names) s.config in
      elim edited [
        | err e ↦ (err (map_config_store_error e), record s { config = config })
        | ok changed ↦ (ok tt, record s { config = config })
      ]

  -- `requireUnavailablePreset` for the preset that was found.
  unfoldable pub require_unavailable_preset : Section → Text → W → Result Failure (Unit {0}) × W
  require_unavailable_preset preset name w = elim (inspect_source services.paths preset) [
    | ready ↦ (err (core_error conflict (codes "Preset is available and cannot be cleaned up")), w)
    | unavailable why ↦
        let (running, w1) = model_running services.router name w in
        elim running [
          | err e ↦ (err e, w1)
          | ok true ↦ (err (core_error conflict (codes "preset is loaded")), w1)
          | ok false ↦ (ok tt, w1)
        ]
  ]

  -- The end of `cleanupPreset` for a preset that exists.
  unfoldable pub drop_preset :
      Option WriteFault → Text → Stores W → Result Failure (Unit {0}) × Stores W
  drop_preset fault name s =
      let (deleted, presets) = delete fault name s.presets in
      elim deleted [
        | err e ↦ (err (map_server_config_error e), record s { presets = presets })
        | ok u ↦
            let (refreshed, w1) = refresh_router_sources services.router s.world in
            let after : Stores W = record s { presets = presets; world = w1 } in
            elim refreshed [
              | err e ↦ (
                err (core_error runtime_error (codes "Preset removed; Router refresh failed")),
                after,
              )
              | ok v ↦ (ok tt, after)
            ]
      ]

  -- `cleanupPreset`
  unfoldable pub cleanup_preset :
      Option WriteFault → Option WriteFault → Text → Stores W → Result Failure (Unit {0}) × Stores W
  cleanup_preset config_fault fault name s =
      if name =ₜ []
      then (err (core_error invalid_input (codes "Preset name is required")), s)
      else elim (get name s.presets) [
        | err (not_found n) ↦ remove_preset_references config_fault (name ∷ []) s
        | err e ↦ (err (map_server_config_error e), s)
        | ok preset ↦
            let (may_go, w1) = require_unavailable_preset preset name s.world in
            elim may_go [
              | err e ↦ (err e, record s { world = w1 })
              | ok u ↦
                  let (removed, s1) =
                    remove_preset_references config_fault (name ∷ []) (record s { world = w1 }) in
                  elim removed [ err e ↦ (err e, s1) | ok v ↦ drop_preset fault name s1 ]
            ]
      ]

  -- `validateModelCascade`
  unfoldable pub validate_model_cascade : References → Bool → W → Result Failure (Unit {0}) × W
  validate_model_cascade refs cascade w = elim (refs.model_paths ++ refs.model_dirs) [
    | [] ↦ (ok tt, w)
    | n ∷ ns ↦
        if not (elim refs.model_paths [ [] ↦ true | _ ↦ false ]) && not cascade
        then (err (core_error conflict (codes "model is referenced by Presets")), w)
        else elim services.router [
          | none ↦ (ok tt, w)
          | some r ↦
              let (status, w1) = r.status w in
              elim status [
                | err f ↦ (err (map_runtime_error f), w1)
                | ok state ↦
                    if is_stopped state
                    then (ok tt, w1)
                    else (let (listed, w2) = r.list w1 in
                        elim listed [
                          | err f ↦ (err (map_runtime_error f), w2)
                          | ok models ↦
                              if reject_active_preset models refs.model_paths
                                || reject_active_preset models refs.model_dirs
                              then (
                                err (
                                    core_error conflict
                                      (codes "model cannot be deleted while Preset is loaded")),
                                w2,
                              )
                              else (ok tt, w2)
                        ])
              ]
        ]
  ]

  -- `removeReferencedPresets`
  unfoldable pub remove_referenced_presets :
      Option WriteFault
      → Option WriteFault
      → List Text
      → Stores W
      → Result Failure (Unit {0}) × Stores W
  unfolding delete_each
  remove_referenced_presets config_fault fault [] s = (ok tt, s)
  remove_referenced_presets config_fault fault (n ∷ ns) s =
      let (removed, s1) = remove_preset_references config_fault (n ∷ ns) s in
      elim removed [
        | err e ↦ (err e, s1)
        | ok u ↦
            let (deleted, presets) = delete_each fault (n ∷ ns) s1.presets in
            elim deleted [
              | err e ↦ (err (map_server_config_error e), record s1 { presets = presets })
              | ok v ↦
                  let (refreshed, w1) = refresh_router_sources services.router s1.world in
                  (refreshed, record s1 { presets = presets; world = w1 })
            ]
      ]

  -- `DeleteLocalModel`; `deleted` is what `DeleteLocal` answers.
  unfoldable pub delete_local_model :
      Option WriteFault
      → Option WriteFault
      → Option RuntimeFailure
      → Text
      → Bool
      → Stores W
      → Result Failure (Unit {0}) × Stores W
  delete_local_model config_fault fault deleted path cascade s = elim (list s.presets) [
    | err e ↦ (err (map_server_config_error e), s)
    | ok sections ↦
        let refs = find_references services.paths sections path in
        let (valid, w1) = validate_model_cascade refs cascade s.world in
        elim valid [
          | err e ↦ (err e, record s { world = w1 })
          | ok u ↦ elim deleted [
            | some e ↦ (err (Failure.passed_error e), record s { world = w1 })
            | none ↦
                remove_referenced_presets config_fault fault refs.model_paths
                  (record s { world = w1 })
          ]
        ]
  ]
