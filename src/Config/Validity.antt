-- ===== src/Config/Validity.antt =====
-- What holds of every configuration that `Parse` accepts.
use llamarig.Common.{
  ℕ, ◌≤◌, ◌≡◌, refl, sym, subst, ◌∙◌, ap, inl, inr, false, ◌||◌, List, [], ◌∷◌, arith, Bool-cases,
  length, All, ◌⊎◌,
}
use llamarig.Common.Text.{Text, codes, ◌=ₜ◌, =ₜ_iff}
use llamarig.Common.Int.{ℤ, pos, negsuc, ltb_ℤ, ◌==ℤ◌}
use llamarig.Common.Results.{Result, ok, both_steps, Result-cases}
use llamarig.Config.{
  RouterConfig, Config, startup_service_control, startup_service_web, or_text, or_int,
  default_router, elements, apply_defaults, validate_router, validate_startup_services, check,
  default_config, parse_config,
}

pub record IsValidRouter (r : RouterConfig) : Type 0 where
  pub port : (n : ℕ) × (r.port ≡ pos n) × (1 ≤ n) × (n ≤ 65535)
  pub cap : (n : ℕ) × (r.models_max ≡ pos n) × (1 ≤ n) × (length r.autostart_presets ≤ n)

abbrev pub IsService : Text → Type 0
IsService name = (name ≡ startup_service_control) ⊎ (name ≡ startup_service_web)

pub record IsValidConfig (c : Config) : Type 0 where
  pub router : IsValidRouter c.router
  pub retention : (n : ℕ) × (c.log_archive_retention ≡ pos n)
  pub services : All IsService (elements c.startup_services)

in_port :
    (p : ℤ)
    → (ltb_ℤ p (pos 1) || ltb_ℤ (pos 65535) p) ≡ false
    → (n : ℕ) × (p ≡ pos n) × (1 ≤ n) × (n ≤ 65535)
in_port (pos n) h = (n, refl, omega (arith, small), omega (arith, small))
  where
    small : (1 ≤ n) × (n ≤ 65535)
    small = ground arith
in_port (negsuc n) h = absurd (ground arith)

in_cap :
    (p : ℤ) (k : ℕ)
    → ltb_ℤ p (pos 1) ≡ false
    → ltb_ℤ p (pos k) ≡ false
    → (n : ℕ) × (p ≡ pos n) × (1 ≤ n) × (k ≤ n)
in_cap (pos n) k h l = (n, refl, ground arith, ground arith)
in_cap (negsuc n) k h l = absurd (ground arith)

natural : (p : ℤ) → ltb_ℤ p (pos 0) ≡ false → (n : ℕ) × (p ≡ pos n)
natural (pos n) h = (n, refl)
natural (negsuc n) h = absurd (ground arith)

validate_router-ok : (r : RouterConfig) → validate_router r ≡ ok tt → IsValidRouter r
unfolding validate_router
validate_router-ok r h = elim (Bool-cases (ltb_ℤ r.port (pos 1) || ltb_ℤ (pos 65535) r.port)) [
  | inl bad ↦ cc (rw bad at h)
  | inr port ↦ elim (Bool-cases (ltb_ℤ r.models_max (pos 1))) [
    | inl low ↦ cc (rw (port, low) at h)
    | inr some_models ↦ elim (Bool-cases (ltb_ℤ r.models_max (pos (length r.autostart_presets)))) [
      | inl over ↦ cc (rw (port, some_models, over) at h)
      | inr within ↦ record {
        port = in_port r.port port;
        cap = in_cap r.models_max (length r.autostart_presets) some_models within;
      }
    ]
  ]
]

services-ok : (s : List Text) → validate_startup_services s ≡ ok tt → All IsService s
unfolding validate_startup_services
services-ok [] h = tt
services-ok (name ∷ s) h = elim (Bool-cases (name =ₜ startup_service_control)) [
  | inl control ↦
      (inl ((=ₜ_iff name startup_service_control).0 control), services-ok s (rw control at h))
  | inr other ↦ elim (Bool-cases (name =ₜ startup_service_web)) [
    | inl web ↦
        (inr ((=ₜ_iff name startup_service_web).0 web), services-ok s (rw (other, web) at h))
    | inr unknown ↦ cc (rw (other, unknown) at h)
  ]
]

check-ok : (c d : Config) → check c ≡ ok d → (c ≡ d) × IsValidConfig c
unfolding check
check-ok c d h =
    let (u, router, later) = both_steps (validate_router c.router) _ h in
    elim (Bool-cases (ltb_ℤ c.log_archive_retention (pos 0))) [
      | inl negative ↦ cc (rw negative at later)
      | inr natural_number ↦
          let (w, services, same) =
            both_steps (validate_startup_services (elements c.startup_services)) _
              (rw natural_number at later) in
          (
            cc same,
            record {
              router = validate_router-ok c.router router;
              retention = natural c.log_archive_retention natural_number;
              services = services-ok (elements c.startup_services) services;
            },
          )
    ]

or_text_idem : (v d : Text) → or_text (or_text v d) d ≡ or_text v d
unfolding or_text
or_text_idem v d = elim (Bool-cases (v =ₜ [])) [
  | inr full ↦ rw (full, or_text, full)
  | inl empty ↦ elim (Bool-cases (d =ₜ [])) [
    | inl e ↦ rw (empty, or_text, e)
    | inr e ↦ rw (empty, or_text, e)
  ]
]

or_int_idem : (v d : ℤ) → or_int (or_int v d) d ≡ or_int v d
unfolding or_int
or_int_idem v d = elim (Bool-cases (v ==ℤ pos 0)) [
  | inr full ↦ rw (full, or_int, full)
  | inl empty ↦ elim (Bool-cases (d ==ℤ pos 0)) [
    | inl e ↦ rw (empty, or_int, e)
    | inr e ↦ rw (empty, or_int, e)
  ]
]

default_router_idem : (r : RouterConfig) → default_router (default_router r) ≡ default_router r
unfolding default_router
default_router_idem r = rw (
  or_text_idem r.executable (codes "llama-server"),
  or_text_idem r.host (codes "127.0.0.1"),
  or_int_idem r.port (pos 8080),
  or_int_idem r.models_max (pos 1),
  or_int_idem r.stop_timeout (pos 30000000000),
  or_int_idem r.readiness_timeout (pos 60000000000),
  or_int_idem r.readiness_interval (pos 500000000),
)

apply_defaults_idem : (c : Config) → apply_defaults (apply_defaults c) ≡ apply_defaults c
unfolding apply_defaults
apply_defaults_idem c = rw (
  or_text_idem c.listen_addr (codes "127.0.0.1:7000"),
  or_int_idem c.catalog_cache_ttl (pos 21600000000000),
  or_text_idem c.security.auth_token_env (codes "LLAMARIG_CONTROL_TOKEN"),
  default_router_idem c.router,
)

-- Every configuration that `Parse` returns has a port from 1 to 65535, at least one model, no more
-- autostart presets than models, a retention that is not negative and only known startup services;
-- and the defaults and the validation return it again as it is.
pub parse_config_valid :
    (decode : Text → Config → Result Text Config) (content : Text) (c : Config)
    → parse_config decode content ≡ ok c
    → IsValidConfig c × (apply_defaults c ≡ c) × (check c ≡ ok c)
unfolding parse_config
parse_config_valid decode content c h = elim (Result-cases (decode content default_config)) [
  | inr (e, bad) ↦ cc (rw (parse_config, bad) at h)
  | inl (d, decoded) ↦
      let accepted : check (apply_defaults d) ≡ ok c = rw (parse_config, decoded) at h in
      let (same, valid) = check-ok (apply_defaults d) c accepted in
      (
        subst IsValidConfig same valid,
        subst (λ x. apply_defaults x ≡ x) same (apply_defaults_idem d),
        ap check (sym same) ∙ accepted,
      )
]
