-- ===== src/ConfigStore/Tests.antt =====
-- Runs of the configuration store, and the concrete inputs of its theorems.
use mathlib.Core.Option
use llamarig.Common.{
  ◌≡◌, refl, true, false, not, ◌&&◌, ◌||◌, Option, none, some, [], ◌∷◌, if◌then◌else◌,
}
use llamarig.FileDoc.{WriteFault, sync_dir}
use llamarig.Common.Text.{Text, codes, ◌=ₜ◌}
use llamarig.Common.Results.{ok}
use llamarig.ConfigStore.{
  document_node, mapping_node, sequence_node, scalar_node, Node, node, nil, ◌⋮◌, mapping_value,
  document_root,
}
use llamarig.ConfigStore.Edits.{
  scalar, in_remove, remove_preset_reference_nodes, set_autostart_preset, set_router_executable,
  set_executable, find_or_create_router,
}
use llamarig.ConfigStore.Laws.{paired}
use llamarig.ConfigStore.Autostart.{key_of, router_of, autostarts}
use llamarig.ConfigStore.References.{default_preset}
use llamarig.ConfigStore.Presets.{references_removed}
use llamarig.ConfigStore.Switching.{autostart_enabled}
use llamarig.ConfigStore.Startup.{is_panic, is_odd, executable_panics}
use llamarig.ConfigStore.Store.{Yaml}

abbrev router : Node
router = node mapping_node (codes "!!map") [] [] (
    scalar (codes "default_preset")
    ⋮ scalar (codes "a")
    ⋮ scalar (codes "autostart_presets")
    ⋮ node sequence_node (codes "!!seq") [] [] (scalar (codes "a") ⋮ scalar (codes "b") ⋮ nil)
    ⋮ nil)

abbrev root : Node
root = node mapping_node (codes "!!map") [] [] (
    scalar (codes "listen_addr")
    ⋮ scalar (codes "127.0.0.1:7000")
    ⋮ scalar (codes "router")
    ⋮ router
    ⋮ nil)

abbrev document : Node
document = node document_node [] [] [] (root ⋮ nil)

references_removed_example :
    ((k : Text)
      → autostarts k (remove_preset_reference_nodes (codes "a" ∷ []) document).0
        ≡ (not (in_remove (codes "a" ∷ []) k) && autostarts k document))
    × (default_preset (remove_preset_reference_nodes (codes "a" ∷ []) document).0
        ≡ Option.map
            (λ v. if in_remove (codes "a" ∷ []) v then [] else v)
            (default_preset document))
    × ((k : Text)
        → (codes "router" =ₜ k) ≡ false
        → key_of k (document_root (remove_preset_reference_nodes (codes "a" ∷ []) document).0)
          ≡ key_of k (document_root document))
    × ((k : Text)
        → (codes "default_preset" =ₜ k) ≡ false
        → (codes "autostart_presets" =ₜ k) ≡ false
        → key_of k (router_of (remove_preset_reference_nodes (codes "a" ∷ []) document).0)
          ≡ key_of k (router_of document))
references_removed_example = references_removed (codes "a" ∷ []) document

autostart_enabled_example :
    autostarts (codes "c") (set_autostart_preset (codes "c") true document).0
    ≡ (autostarts (codes "c") document || codes "c" =ₜ codes "c")
unfolding document_root mapping_value paired ◌=ₜ◌
autostart_enabled_example = autostart_enabled (codes "c") (codes "c") document refl

-- `router:` without a value.
abbrev null_router : Node
null_router = node document_node [] [] [] (
    node mapping_node (codes "!!map") [] []
      (scalar (codes "router") ⋮ node scalar_node (codes "!!null") [] [] nil ⋮ nil)
    ⋮ nil)

panics-null_router : set_router_executable (codes "/opt/llama-server") [] null_router ≡ none
unfolding set_router_executable set_executable find_or_create_router document_root mapping_value
    ◌=ₜ◌
panics-null_router = refl

executable_panics_example :
    is_panic (set_router_executable (codes "/opt/llama-server") [] null_router)
    ≡ is_odd (router_of null_router)
executable_panics_example = executable_panics (codes "/opt/llama-server") [] null_router

abbrev yaml : Yaml
yaml = record {
  unmarshal = λ s. ok document;
  encode = λ d. ok (codes "router: {}");
  decode = λ s c. ok c;
}

-- The directory is not synchronised behind the rename.
abbrev unsynced : Option WriteFault
unsynced = some (record { call = sync_dir; error = codes "input/output error" })
