-- ===== src/Control/Operation/Tests.antt =====
-- Runs of the Router's operations, and the theorems at concrete inputs.
use llamarig.Common.{◌≡◌, refl, false, some, List, [], ◌∷◌}
use llamarig.Common.Text.{
  Text, codes, ◌=ₜ◌, trim_space, after_prefix, split_at, starts_with, ends_with, cut, join,
  text_ltb,
}
use llamarig.Common.Dict.{lookup, adjust, insert, erase}
use llamarig.Common.Results.{ok}
use llamarig.Config.{default_config}
use llamarig.ModelPresets.{validate_section_name, canonical_key}
use llamarig.ModelPresets.Ini.{parse, inner, strip_comment}
use llamarig.ModelPresets.Store.{File, get, list, read}
use llamarig.ModelPresets.Source.{Paths, Stat, look_at, require_path}
use llamarig.Control.{map_server_config_error}
use llamarig.Control.Router.{stopped, starting, Router}
use llamarig.Control.Operation.{OperationResult, resolve_start_preset, perform_router_action}
use llamarig.Control.Operation.Report.{RuntimeStatus, router_status, status_of_models}
use llamarig.Control.Operation.Targets.{IsThere, IsLoaded, perform_router_action-loads}
use llamarig.Control.Operation.Overview.{state_of_models, active_presets, router_status-active}

-- A Router whose state is the models that were loaded.
abbrev loader : Router (List Text)
loader = record {
  status = λ w. (ok stopped, w);
  stop = λ w. (ok tt, []);
  start = λ w. (ok tt, w);
  list = λ w. (
    ok (
        record { id = codes "b"; status = codes "loading" }
        ∷ record { id = codes "c"; status = codes "loaded" }
        ∷ []),
    w,
  );
  reload = λ w. (ok [], w);
  load = λ name w. (ok tt, name ∷ w);
  unload = λ name w. (ok tt, w);
}

-- Every path is a regular file.
abbrev files : Paths
files = record { canonical = λ p. p; holds = λ d p. false; stat = λ p. Stat.regular }

abbrev one : File
one = File.content (codes "[b]\nmodel = m.gguf\n")

abbrev started : OperationResult
started = record {
  action = codes "start";
  target = codes "b";
  status = codes "succeeded";
  message = codes "start completed";
}

-- The one preset that there is.
runs :
    perform_router_action files (some loader) default_config.router (codes "start") [] one []
    ≡ (ok started, codes "b" ∷ [])
unfolding perform_router_action ◌=ₜ◌ list get lookup read parse split_at starts_with ends_with inner
    cut adjust insert erase strip_comment trim_space canonical_key after_prefix
    validate_section_name look_at require_path text_ltb map_server_config_error join
runs = refl

two_models :
    (status_of_models (
      record { id = codes "c"; status = codes "loaded" }
      ∷ record { id = codes "b"; status = codes "loading" }
      ∷ [])).state
    ≡ starting
unfolding status_of_models
two_models = refl

perform_router_action-loads_example :
    (resolve_start_preset default_config.router [] one ≡ ok (codes "b"))
    × IsThere files one (codes "b")
    × IsLoaded loader (codes "b") (codes "b" ∷ [])
unfolding ◌=ₜ◌
perform_router_action-loads_example =
    perform_router_action-loads loader files default_config.router (codes "start") [] one started []
      (codes "b" ∷ []) refl runs

router_status-active_example :
    (status : RuntimeStatus) × (router_status (some loader) [] ≡ (ok status, []))
    × (status.state
        ≡ state_of_models stopped (
            record { id = codes "b"; status = codes "loading" }
            ∷ record { id = codes "c"; status = codes "loaded" }
            ∷ []))
    × (status.presets
        ≡ active_presets (
            record { id = codes "b"; status = codes "loading" }
            ∷ record { id = codes "c"; status = codes "loaded" }
            ∷ []))
router_status-active_example = router_status-active loader [] [] _ refl
