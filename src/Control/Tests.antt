-- ===== src/Control/Tests.antt =====
-- Runs of the control manager, and the concrete inputs of its theorems.
use llamarig.Common.{◌≡◌, refl, true, false, none, some, [], ◌∷◌}
use llamarig.Common.Text.{
  Text, codes, ◌=ₜ◌, trim_space, after_prefix, split_at, starts_with, ends_with, cut, join,
  text_ltb,
}
use llamarig.Common.Dict.{lookup, insert, adjust}
use llamarig.Common.Results.{Result, ok, err}
use llamarig.Config.{default_config}
use llamarig.ModelPresets.{Section, not_found, validate_section_name, canonical_key}
use llamarig.ModelPresets.Ini.{parse, inner, remove_section, render_section, strip_comment}
use llamarig.ModelPresets.Store.{File, read, put, delete, get}
use llamarig.Control.{runtime_error, failed, RuntimeFailure, Failure, core_error, map_runtime_error}
use llamarig.Control.Mutation.{Shared}
use llamarig.Control.Mutation.Sequence.{Request, run_requests, AreRecorded, requests_recorded}
use llamarig.Control.Router.{
  Router, running, capture_router_state, refresh_router_sources, restart_router_sources,
  reload_sources,
}
use llamarig.Control.Presets.{
  put_preset, settle_put, rollback_preset_creation, preset_config_reference, model_running,
  preset_deletable, delete_preset,
}
use llamarig.Control.Presets.Rollback.{failed_creation_reverted}
use llamarig.ModelPresets.Source.{regular, find_references}
use llamarig.ModelPresets.Store.{list}
use llamarig.Common.Dict.{erase}
use llamarig.ConfigStore.{document_node, node, nil}
use llamarig.ConfigStore.Edits.{change_root, remove_preset_reference_nodes}
use llamarig.ConfigStore.Store.{Yaml, mutate_document, size}
use llamarig.ConfigStore.Store
use llamarig.Config.{parse_config, check}
use llamarig.Control.Cleanup.{
  Stores, Services, delete_local_model, validate_model_cascade, remove_referenced_presets,
  remove_preset_references,
}
use llamarig.Control.Cleanup.Cascade.{among, model_takes_presets}
use llamarig.Common.{if◌then◌else◌}
use llamarig.Control.Cleanup.Unavailable.{cleanup_only_unavailable}
use llamarig.Control.Cleanup.{drop_preset, require_unavailable_preset, cleanup_preset}
use llamarig.ModelPresets.Source.{absent, ready, inspect_source}
use llamarig.Common.{◌≢◌, List}
use llamarig.Control.{conflict}
use llamarig.Control.Presets.Deletion.{deleted_only_unused}

abbrev idle : Shared Text
idle = record { busy = false; audited = true; entries = []; inside = codes "before" }

abbrev set_after : Shared Text → Result Failure Text × Shared Text
set_after s = (ok (codes "done"), record s { inside = codes "after" })

-- Two requests: one that ends well, and one that fails.
abbrev put_then_delete : List (Request Text Text)
put_then_delete =
    record { action = codes "put_preset"; fn = set_after }
    ∷ record {
      action = codes "delete_preset";
      fn = λ s. (err (core_error conflict (codes "preset is in use")), s);
    }
    ∷ []

requests_recorded_example : AreRecorded put_then_delete idle (run_requests put_then_delete idle)
requests_recorded_example =
    requests_recorded put_then_delete idle ((λ s. (refl, refl)), ((λ s. (refl, refl)), tt)) refl
      refl

abbrev broken : RuntimeFailure
broken = record { kind = failed; message = codes "no answer" }

-- A Router that runs, and whose client never answers.
abbrev mute : Router Text
mute = record {
  status = λ w. (ok running, w);
  stop = λ w. (ok tt, codes "stopped");
  start = λ w. (ok tt, codes "started");
  list = λ w. (err broken, w);
  reload = λ w. (err broken, w);
  load = λ name w. (err broken, w);
  unload = λ name w. (err broken, w);
}

abbrev one : File
one = File.content (codes "[b]\nbatch = 8\n")

abbrev fresh : Section
fresh = record { name = codes "a"; values = (codes "ctx-size", codes "8192") ∷ [] }

failed_creation_reverted_example :
    get (codes "a") (put_preset (some mute) none none fresh true (one, codes "started")).1
    ≡ get (codes "a") one
unfolding put_preset settle_put rollback_preset_creation capture_router_state refresh_router_sources
    reload_sources restart_router_sources map_runtime_error put ◌=ₜ◌ validate_section_name
    trim_space canonical_key after_prefix lookup read parse split_at starts_with ends_with inner cut
    adjust insert remove_section join render_section text_ltb get strip_comment delete
failed_creation_reverted_example =
    failed_creation_reverted (some mute) fresh one (codes "started")
      (core_error runtime_error (codes "Preset creation reverted; Router recovery failed")) refl
      refl refl (codes "a")

deleted_only_unused_example :
    (preset_config_reference default_config.router (codes "b") ≡ false)
    × ((model_running none (codes "b") (codes "started")).0 ≡ ok false)
    × (get
          (codes "b")
          (delete_preset none default_config.router none (codes "b") (one, codes "started")).1
        ≡ err (not_found (codes "b")))
    × ((k : Text)
        → (codes "b" =ₜ k) ≡ false
        → get k (delete_preset none default_config.router none (codes "b") (one, codes "started")).1
          ≡ get k one)
unfolding delete_preset preset_deletable preset_config_reference model_running
    refresh_router_sources ◌=ₜ◌ validate_section_name trim_space canonical_key after_prefix lookup
    read parse split_at starts_with ends_with inner cut adjust insert remove_section join get
    strip_comment delete
deleted_only_unused_example =
    deleted_only_unused none default_config.router (codes "b") one (codes "started")
      (record { name = codes "b"; values = (codes "batch-size", codes "8") ∷ [] }) refl refl

abbrev services : Services Text
services = record {
  router = none;
  yaml = record {
    unmarshal = λ s. ok (node document_node [] [] [] nil);
    encode = λ d. ok [];
    decode = λ s c. ok c;
  };
  limit_bytes = 100;
  paths = record { canonical = λ p. p; holds = λ d p. false; stat = λ p. regular };
}

abbrev stores : Stores Text
stores = record {
  presets = File.content (codes "[b]\nmodel = /m/x.gguf\n");
  config = Store.File.content (codes "router:\n");
  world = codes "started";
}

abbrev b_section : Section
b_section = record { name = codes "b"; values = (codes "model", codes "/m/x.gguf") ∷ [] }

model_takes_presets_example :
    get
      (codes "b")
      (delete_local_model services none none none (codes "/m/x.gguf") true stores).1.presets
    ≡ (if among
          (codes "b")
          (find_references services.paths (b_section ∷ []) (codes "/m/x.gguf")).model_paths
        then err (not_found (codes "b"))
        else get (codes "b") stores.presets)
unfolding delete_local_model validate_model_cascade remove_referenced_presets
    remove_preset_references mutate_document change_root remove_preset_reference_nodes parse_config
    check size find_references list erase refresh_router_sources ◌=ₜ◌ validate_section_name
    trim_space canonical_key after_prefix lookup read parse split_at starts_with ends_with inner cut
    adjust insert remove_section join strip_comment delete text_ltb
model_takes_presets_example =
    model_takes_presets services none (codes "/m/x.gguf") true stores (b_section ∷ []) refl refl
      (codes "b")

abbrev without_files : Services Text
without_files = record services {
  paths = record { canonical = λ p. p; holds = λ d p. false; stat = λ p. absent };
}

cleanup_only_unavailable_example :
    (inspect_source without_files.paths b_section ≢ ready)
    × (get (codes "b") (cleanup_preset without_files none none (codes "b") stores).1.presets
        ≡ err (not_found (codes "b")))
    × ((k : Text)
        → (codes "b" =ₜ k) ≡ false
        → get k (cleanup_preset without_files none none (codes "b") stores).1.presets
          ≡ get k stores.presets)
unfolding get cleanup_preset drop_preset require_unavailable_preset inspect_source model_running
    validate_model_cascade remove_referenced_presets remove_preset_references mutate_document
    change_root remove_preset_reference_nodes parse_config check size find_references list erase
    refresh_router_sources ◌=ₜ◌ validate_section_name trim_space canonical_key after_prefix lookup
    read parse split_at starts_with ends_with inner cut adjust insert remove_section join
    strip_comment delete text_ltb
cleanup_only_unavailable_example =
    cleanup_only_unavailable without_files none (codes "b") b_section stores refl refl refl
