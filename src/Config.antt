-- ===== src/Config.antt =====
-- config/config.go: the configuration, its defaults and its validation.
pub mod Validity
mod Tests
use llamarig.Common.{
  ℕ, ◌≡◌, Bool, true, false, not, ◌&&◌, ◌||◌, Option, none, some, List, [], ◌∷◌, if◌then◌else◌,
  length, leb, ltb,
}
use llamarig.Common.Text.{Text, codes, ◌=ₜ◌}
use llamarig.Common.Int.{ℤ, pos, ltb_ℤ, ◌==ℤ◌}
use llamarig.Common.Dict.{Dict}
use llamarig.Common.Results.{Result, ok, err, ◌>>=◌, ◌>>◌}

pub record SecurityConfig : Type 0 where
  pub auth_token_env : Text
  pub disable_origin_check : Bool

-- Durations are nanoseconds.
pub record RouterConfig : Type 0 where
  pub executable : Text
  pub host : Text
  pub port : ℤ
  pub models_max : ℤ
  pub default_preset : Text
  pub autostart_presets : List Text
  pub stop_timeout : ℤ
  pub env : Dict Text
  pub readiness_timeout : ℤ
  pub readiness_interval : ℤ

-- A nil slice of startup services is none.
pub record Config : Type 0 where
  pub listen_addr : Text
  pub model_storage_dir : Text
  pub catalog_cache_dir : Text
  pub catalog_cache_ttl : ℤ
  pub log_archive_retention : ℤ
  pub startup_services : Option (List Text)
  pub router : RouterConfig
  pub security : SecurityConfig

pub data ConfigError : Type 0 where
  bad_document : Text → ConfigError
  bad_port bad_models_max negative_retention : ConfigError
  autostart_cap_exceeded : ConfigError
  unknown_service : Text → ConfigError

abbrev pub startup_service_control : Text
startup_service_control = codes "control"

abbrev pub startup_service_web : Text
startup_service_web = codes "web"

-- `DefaultStartupServices`
abbrev pub default_startup_services : List Text
default_startup_services = startup_service_control ∷ startup_service_web ∷ []

-- `Default`
abbrev pub default_config : Config
default_config = record {
  listen_addr = codes "127.0.0.1:7000";
  model_storage_dir = [];
  catalog_cache_dir = [];
  catalog_cache_ttl = pos 0;
  log_archive_retention = pos 604800000000000;
  startup_services = some default_startup_services;
  router = record {
    executable = [];
    host = codes "127.0.0.1";
    port = pos 8080;
    models_max = pos 1;
    default_preset = [];
    autostart_presets = [];
    stop_timeout = pos 30000000000;
    env = [];
    readiness_timeout = pos 60000000000;
    readiness_interval = pos 500000000;
  };
  security = record {
    auth_token_env = codes "LLAMARIG_CONTROL_TOKEN";
    disable_origin_check = false;
  };
}

-- `cmp.Or` of two strings, and of two numbers.
unfoldable pub or_text : Text → Text → Text
or_text v d = if v =ₜ [] then d else v

unfoldable pub or_int : ℤ → ℤ → ℤ
or_int v d = if v ==ℤ pos 0 then d else v

unfoldable pub default_router : RouterConfig → RouterConfig
unfolding or_text or_int
default_router r = record r {
  executable = or_text r.executable (codes "llama-server");
  host = or_text r.host (codes "127.0.0.1");
  port = or_int r.port (pos 8080);
  models_max = or_int r.models_max (pos 1);
  stop_timeout = or_int r.stop_timeout (pos 30000000000);
  readiness_timeout = or_int r.readiness_timeout (pos 60000000000);
  readiness_interval = or_int r.readiness_interval (pos 500000000);
}

abbrev pub or_services : Option (List Text) → List Text
or_services none = default_startup_services
or_services (some services) = services

-- `applyDefaults`
unfoldable pub apply_defaults : Config → Config
unfolding default_router
apply_defaults c = record c {
  listen_addr = or_text c.listen_addr (codes "127.0.0.1:7000");
  router = default_router c.router;
  catalog_cache_ttl = or_int c.catalog_cache_ttl (pos 21600000000000);
  security = record c.security {
    auth_token_env = or_text c.security.auth_token_env (codes "LLAMARIG_CONTROL_TOKEN");
  };
  startup_services = some (or_services c.startup_services);
}

-- `RouterConfig.Validate`
unfoldable pub validate_router : RouterConfig → Result ConfigError (Unit {0})
validate_router r =
    if ltb_ℤ r.port (pos 1) || ltb_ℤ (pos 65535) r.port
    then err bad_port
    else if ltb_ℤ r.models_max (pos 1)
    then err bad_models_max
    else if ltb_ℤ r.models_max (pos (length r.autostart_presets))
    then err autostart_cap_exceeded
    else ok tt

-- `ValidateStartupServices`
unfoldable pub validate_startup_services : List Text → Result ConfigError (Unit {0})
validate_startup_services [] = ok tt
validate_startup_services (name ∷ services) =
    let rest = validate_startup_services services in
    if not (name =ₜ startup_service_control) && not (name =ₜ startup_service_web)
    then err (unknown_service name)
    else rest

-- A slice's elements.
abbrev pub elements : Option (List Text) → List Text
elements none = []
elements (some services) = services

-- The checks of `Parse`.
unfoldable pub check : Config → Result ConfigError Config
unfolding validate_router validate_startup_services
check c =
    validate_router c.router
    >> (if ltb_ℤ c.log_archive_retention (pos 0)
        then err negative_retention
        else (validate_startup_services (elements c.startup_services) >> ok c))

-- `Parse`: the YAML decoder, which refuses unknown fields, writes over a configuration.
unfoldable pub parse_config :
    (Text → Config → Result Text Config) → Text → Result ConfigError Config
unfolding check apply_defaults
parse_config decode content = elim (decode content default_config) [
  | err e ↦ err (bad_document e)
  | ok decoded ↦ check (apply_defaults decoded)
]

-- `RouterAllowsNonLoopback`
unfoldable pub router_allows_non_loopback : Config → Bool
router_allows_non_loopback c =
    not (c.router.host =ₜ [])
    && not (c.router.host =ₜ codes "127.0.0.1")
    && not (c.router.host =ₜ codes "localhost")
    && not (c.router.host =ₜ codes "::1")
