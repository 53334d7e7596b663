-- ===== src/Control/Presets/Rollback.antt =====
-- core/control/presets.go `PutPreset` that fails: what models.ini answers behind it.
use llamarig.Common.{
  ◌≡◌, sym, subst, ◌∙◌, ap, inl, inr, true, false, Option, none, Bool-cases, Option-cases,
}
use llamarig.Common.Text.{Text, codes, ◌=ₜ◌, =ₜ_iff, trim_space}
use llamarig.Common.Results.{ok, err, Result-cases}
use llamarig.ModelPresets.{Section, validate_section_name}
use llamarig.ModelPresets.Store.{File, put, delete, get, write}
use llamarig.ModelPresets.Put.{put_ok, put_fresh, put_reads_back, put_error_keeps, read-get}
use llamarig.ModelPresets.Deleted.{delete_removes}
use llamarig.Control.{Failure}
use llamarig.Control.Router.{
  Router, RouterState, capture_router_state, refresh_router_sources, restart_router_sources,
}
use llamarig.Control.Presets.{rollback_preset_creation, settle_put, put_preset}

delete_known :
    (name : Text) (g : File) (s : Section)
    → validate_section_name name ≡ ok tt
    → (name =ₜ codes "*") ≡ false
    → get name g ≡ ok s
    → (h : File) × (delete none name g ≡ (ok tt, h))
unfolding delete write
delete_known name g s valid named found =
    let (secs, text, read_is, there) = read-get g name s found in
    ((delete none name g).1, rw (delete, valid, named, read_is, there))

module _ {W : Type 0} (router : Option (Router W)) where
  -- A rollback whose `Delete` succeeds leaves what `Delete` leaves.
  rollback-file :
      (name : Text) (previous : RouterState) (f g : File) (w : W)
      → delete none name f ≡ (ok tt, g)
      → (rollback_preset_creation router none name previous (f, w)).1 ≡ g
  unfolding rollback_preset_creation
  rollback-file name previous f g w h =
      let ok_now : (delete none name f).0 ≡ ok tt = ap (λ p. p.0) h in
      let file : (delete none name f).1 ≡ g = ap (λ p. p.1) h in
      elim (Option-cases router) [
        | inl unconfigured ↦ rw (rollback_preset_creation, ok_now, unconfigured) file
        | inr (r, there) ↦ elim (Bool-cases previous.is_running) [
          | inr idle ↦ rw (rollback_preset_creation, ok_now, there, idle) file
          | inl running ↦ elim (Result-cases (restart_router_sources r previous.active w).0) [
            | inl (u, restarted) ↦
                rw (rollback_preset_creation, ok_now, there, running, restarted) file
            | inr (e, failed) ↦ rw (rollback_preset_creation, ok_now, there, running, failed) file
          ]
        ]
      ]

  settle-file :
      (name : Text) (previous : RouterState) (saved : Section) (f g : File) (w : W) (e : Failure)
      → delete none name f ≡ (ok tt, g)
      → (settle_put router none name true previous saved (f, w)).0 ≡ err e
      → (settle_put router none name true previous saved (f, w)).1 ≡ g
  unfolding settle_put
  settle-file name previous saved f g w e h failed =
      elim (Result-cases (refresh_router_sources router w).0) [
        | inl (u, refreshed) ↦ cc (rw (settle_put, refreshed) at failed)
        | inr (e', unrefreshed) ↦
            rw (settle_put, unrefreshed)
              (rollback-file name previous f g (refresh_router_sources router w).1 h)
      ]

  -- Where the file system does what it is asked, a `PutPreset` that is to create a preset, with no
  -- spaces around its name and not the global section, and that answers an error, whether from the
  -- store or from the Router, leaves every name with the answer of `Get` that it had.
  pub failed_creation_reverted :
      (s : Section) (f : File) (w : W) (e : Failure)
      → trim_space s.name ≡ s.name
      → (s.name =ₜ codes "*") ≡ false
      → (put_preset router none none s true (f, w)).0 ≡ err e
      → (k : Text) → get k (put_preset router none none s true (f, w)).1 ≡ get k f
  unfolding put_preset
  failed_creation_reverted s f w e tight named failed k =
      elim (Result-cases (put none s true f).0) [
        | inr (e', bad) ↦
            rw (put_preset, bad) (ap (get k) (put_error_keeps none s true f e' tt bad))
        | inl (u, good) ↦
            let g : File = (put none s true f).1 in
            let done : put none s true f ≡ (ok tt, g) = ap (λ r. (r, g)) good in
            let (d, here, values, others) = put_reads_back s true f g tight done in
            let (h, deleted) =
              delete_known s.name g (record { name = s.name; values = d })
                ((put_ok s true f g done).3) named here in
            let (gone, rest) = delete_removes s.name g h deleted in
            let left =
              settle-file s.name (capture_router_state router w).0
                (record { name = s.name; values = d }) g h (capture_router_state router w).1 e
                deleted (rw (put_preset, good, here) at failed) in
            rw (put_preset, good, here)
              (ap (get k) left ∙ (elim (Bool-cases (s.name =ₜ k)) [
                | inr other ↦ rest k other ∙ others k other
                | inl same ↦
                    let name_is : s.name ≡ k = (=ₜ_iff s.name k).0 same in
                    subst (λ n. get n h ≡ get n f) name_is (gone ∙ sym (put_fresh s f g done))
              ]))
      ]
