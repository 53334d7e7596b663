-- ===== src/Config/Tests.antt =====
-- Runs of the configuration's checks, and the concrete input of their theorem.
use llamarig.Common.{◌≡◌, refl, []}
use llamarig.Common.Text.{◌=ₜ◌}
use llamarig.Common.Results.{ok}
use llamarig.Config.{default_config, apply_defaults, check, parse_config}
use llamarig.Config.Validity.{IsValidConfig, parse_config_valid}

parse_config_valid_example :
    IsValidConfig (apply_defaults default_config)
    × (apply_defaults (apply_defaults default_config) ≡ apply_defaults default_config)
    × (check (apply_defaults default_config) ≡ ok (apply_defaults default_config))
unfolding parse_config check ◌=ₜ◌
parse_config_valid_example =
    parse_config_valid (λ s c. ok c) [] (apply_defaults default_config) refl
