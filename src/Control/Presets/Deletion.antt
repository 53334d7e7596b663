-- ===== src/Control/Presets/Deletion.antt =====
-- core/control/presets.go `DeletePreset`: its checks, and what models.ini answers behind it.
use llamarig.Common.{◌≡◌, ◌≢◌, ◌⊎◌, ◌∙◌, ap, inl, inr, true, false, Option, none, Bool-cases}
use llamarig.Common.Text.{Text, ◌=ₜ◌}
use llamarig.Common.Results.{ok, err, Result-cases}
use llamarig.Config.{RouterConfig}
use llamarig.ModelPresets.{Section, not_found}
use llamarig.ModelPresets.Store.{File, delete, get}
use llamarig.ModelPresets.Deleted.{delete_removes}
use llamarig.Control.Router.{Router, refresh_router_sources}
use llamarig.Control.Presets.{
  preset_config_reference, model_running, preset_deletable, delete_preset,
}

module _ {W : Type 0} (router : Option (Router W)) (cfg : RouterConfig) where
  deletable-ok :
      (name : Text) (f : File) (w : W) (s : Section)
      → get name f ≡ ok s
      → (preset_deletable router cfg name (f, w)).0 ≢ ok true
        ⊎ ((preset_config_reference cfg name ≡ false)
            × ((model_running router name w).0 ≡ ok false))
  unfolding preset_deletable
  deletable-ok name f w s found = elim (Bool-cases (preset_config_reference cfg name)) [
    | inl referenced ↦ inl (λ h. cc (rw (preset_deletable, found, referenced) at h))
    | inr unreferenced ↦ elim (Result-cases (model_running router name w).0) [
      | inr (e, failed) ↦ inl (λ h. cc (rw (preset_deletable, found, unreferenced, failed) at h))
      | inl (b, known) ↦ elim (Bool-cases b) [
        | inl busy ↦ inl (λ h. cc (rw (preset_deletable, found, unreferenced, known, busy) at h))
        | inr idle ↦ inr (unreferenced, known ∙ ap ok idle)
      ]
    ]
  ]

  -- A preset that is known, and for which `preset_deletable` does not say that it is unknown.
  never_unknown :
      (name : Text) (f : File) (w : W) (s : Section)
      → get name f ≡ ok s
      → (preset_deletable router cfg name (f, w)).0 ≢ ok false
  unfolding preset_deletable
  never_unknown name f w s found h = elim (Bool-cases (preset_config_reference cfg name)) [
    | inl referenced ↦ cc (rw (preset_deletable, found, referenced) at h)
    | inr unreferenced ↦ elim (Result-cases (model_running router name w).0) [
      | inr (e, failed) ↦ cc (rw (preset_deletable, found, unreferenced, failed) at h)
      | inl (b, known) ↦ elim (Bool-cases b) [
        | inl busy ↦ cc (rw (preset_deletable, found, unreferenced, known, busy) at h)
        | inr idle ↦ cc (rw (preset_deletable, found, unreferenced, known, idle) at h)
      ]
    ]
  ]

  -- Where the file system does what it is asked and a known preset is deleted with no error, the
  -- configuration names it neither as the default preset nor for autostart, no model of its name was
  -- found active, `Get` no longer finds it, and every other name gets the answer that it got before.
  pub deleted_only_unused :
      (name : Text) (f : File) (w : W) (s : Section)
      → get name f ≡ ok s
      → (delete_preset router cfg none name (f, w)).0 ≡ ok tt
      → (preset_config_reference cfg name ≡ false)
        × ((model_running router name w).0 ≡ ok false)
        × (get name (delete_preset router cfg none name (f, w)).1 ≡ err (not_found name))
        × ((k : Text)
            → (name =ₜ k) ≡ false
            → get k (delete_preset router cfg none name (f, w)).1 ≡ get k f)
  unfolding delete_preset
  deleted_only_unused name f w s found h =
      elim (Result-cases (preset_deletable router cfg name (f, w)).0) [
        | inr (e, refused) ↦ cc (rw (delete_preset, refused) at h)
        | inl (b, answer) ↦ elim (Bool-cases b) [
          | inr stays ↦ absurd (never_unknown name f w s found (answer ∙ ap ok stays))
          | inl may_go ↦ elim (deletable-ok name f w s found) [
            | inl not_deletable ↦ absurd (not_deletable (answer ∙ ap ok may_go))
            | inr (unreferenced, idle) ↦ elim (Result-cases (delete none name f).0) [
              | inr (e, failed) ↦ cc (rw (delete_preset, answer, may_go, failed) at h)
              | inl (u, done) ↦
                  let (gone, others) =
                    delete_removes name f (delete none name f).1
                      (ap (λ r. (r, (delete none name f).1)) done) in
                  elim (Result-cases
                    (refresh_router_sources router (preset_deletable router cfg name (f, w)).1).0) [
                      | inr (e, failed) ↦ cc (rw (delete_preset, answer, may_go, done, failed) at h)
                      | inl (v, refreshed) ↦ (
                        unreferenced,
                        idle,
                        rw (delete_preset, answer, may_go, done, refreshed) gone,
                        λ k ne. rw (delete_preset, answer, may_go, done, refreshed) (others k ne),
                      )
                    ]
            ]
          ]
        ]
      ]
