-- ===== src/Control/Cleanup/Unavailable.antt =====
-- core/control/presets.go `CleanupPreset` of a preset that exists.
use llamarig.Common.{◌≡◌, ◌≢◌, ◌∙◌, ap, inl, inr, false, Option, none, [], ◌∷◌}
use llamarig.FileDoc.{WriteFault}
use llamarig.Common.Text.{Text, ◌=ₜ◌}
use llamarig.Common.Results.{ok, err, Result-cases}
use llamarig.ModelPresets.{Section, not_found}
use llamarig.ModelPresets.Source.{ready, inspect_source}
use llamarig.ModelPresets.Store.{File, delete, get}
use llamarig.ModelPresets.Deleted.{delete_removes}
use llamarig.Control.Router.{refresh_router_sources}
use llamarig.Control.Cleanup.{
  Stores, Services, remove_preset_references, require_unavailable_preset, drop_preset,
  cleanup_preset,
}
use llamarig.Control.Cleanup.Cascade.{references-presets}

module _ {W : Type 0} (services : Services W) where
  -- What the end of `cleanupPreset` leaves of models.ini.
  DropsOnly : Text → File → File → Type 0
  DropsOnly name f g =
      (get name g ≡ err (not_found name)) × ((k : Text) → (name =ₜ k) ≡ false → get k g ≡ get k f)

  drop_preset-DropsOnly :
      (name : Text) (s : Stores W)
      → (drop_preset services none name s).0 ≡ ok tt
      → DropsOnly name s.presets (drop_preset services none name s).1.presets
  unfolding drop_preset DropsOnly
  drop_preset-DropsOnly name s h = elim (Result-cases (delete none name s.presets).0) [
    | inr (e, failed) ↦ cc (rw (drop_preset, failed) at h)
    | inl (u, done) ↦
        let f1 : File = (delete none name s.presets).1 in
        let (gone, others) = delete_removes name s.presets f1 (ap (λ r. (r, f1)) done) in
        elim (Result-cases (refresh_router_sources services.router s.world).0) [
          | inr (e, failed) ↦ cc (rw (drop_preset, done, failed) at h)
          | inl (v, refreshed) ↦ (
            rw (drop_preset, done, refreshed) gone,
            λ k ne. rw (drop_preset, done, refreshed) (others k ne),
          )
        ]
  ]

  require-ready :
      (preset : Section) (name : Text) (w : W)
      → (require_unavailable_preset services preset name w).0 ≡ ok tt
      → inspect_source services.paths preset ≢ ready
  unfolding require_unavailable_preset
  require-ready preset name w h is_ready = cc (rw (require_unavailable_preset, is_ready) at h)

  -- Where the file system does what it is asked and `CleanupPreset` of a known preset answers no
  -- error, the preset's sources were not all there, `Get` does not find it any more, and every other
  -- name gets the answer that it got before.
  pub cleanup_only_unavailable :
      (config_fault : Option WriteFault) (name : Text) (preset : Section) (s : Stores W)
      → (name =ₜ []) ≡ false
      → get name s.presets ≡ ok preset
      → (cleanup_preset services config_fault none name s).0 ≡ ok tt
      → (inspect_source services.paths preset ≢ ready)
        × (get name (cleanup_preset services config_fault none name s).1.presets
            ≡ err (not_found name))
        × ((k : Text)
            → (name =ₜ k) ≡ false
            → get k (cleanup_preset services config_fault none name s).1.presets ≡ get k s.presets)
  unfolding cleanup_preset DropsOnly
  cleanup_only_unavailable config_fault name preset s full found h =
      elim (Result-cases (require_unavailable_preset services preset name s.world).0) [
        | inr (e, refused) ↦ cc (rw (cleanup_preset, full, found, refused) at h)
        | inl (u, may_go) ↦
            let s0 : Stores W = record s {
              world = (require_unavailable_preset services preset name s.world).1;
            } in
            elim (Result-cases (remove_preset_references services config_fault (name ∷ []) s0).0) [
              | inr (e, failed) ↦ cc (rw (cleanup_preset, full, found, may_go, failed) at h)
              | inl (v, removed) ↦
                  let s1 : Stores W =
                    (remove_preset_references services config_fault (name ∷ []) s0).1 in
                  let same = references-presets services config_fault (name ∷ []) s0 in
                  let (gone, others) =
                    drop_preset-DropsOnly name s1
                      (rw (cleanup_preset, full, found, may_go, removed) at h) in
                  (
                    require-ready preset name s.world may_go,
                    rw (cleanup_preset, full, found, may_go, removed) gone,
                    λ k ne.
                        rw (cleanup_preset, full, found, may_go, removed)
                          (others k ne ∙ ap (get k) same),
                  )
            ]
      ]
