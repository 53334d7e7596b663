-- ===== src/ConfigStore/Presets.antt =====
-- core/configstore/config_store.go `RemoveRouterPresetReferences` on the document.
use mathlib.Core.Option
use llamarig.Common.{
  ◌≡◌, ◌∙◌, ap, inl, inr, Bool, false, not, ◌&&◌, List, [], arith, if◌then◌else◌, Option-cases,
}
use llamarig.Common.Text.{Text, codes, ◌=ₜ◌}
use llamarig.ConfigStore.{Node, document_root}
use llamarig.ConfigStore.Edits.{
  in_remove, change_value, change_root, remove_router_references, remove_preset_reference_nodes,
}
use llamarig.ConfigStore.Laws.{is_mapping-change_value, document_root-change_root}
use llamarig.ConfigStore.Autostart.{key_of, router_of, autostarts}
use llamarig.ConfigStore.References.{
  default_preset, router_of-change_root, other_key, RouterCleared,
  remove_router_references-RouterCleared,
}

-- A key of the root that an edit of the router leaves alone.
root_key :
    (f : Node → Node × Bool) (d : Node) (k : Text)
    → (codes "router" =ₜ k) ≡ false
    → key_of k (document_root (change_root (change_value (codes "router") f) d).0)
      ≡ key_of k (document_root d)
root_key f d k h =
    ap (key_of k) (
      document_root-change_root (change_value (codes "router") f) d
        (is_mapping-change_value (codes "router") f))
    ∙ (elim (Option-cases (document_root d)) [
      | inl absent ↦ rw absent
      | inr (root, there) ↦ rw there (other_key (codes "router") k f root h)
    ])

-- Behind `RemoveRouterPresetReferences` the autostart list names exactly the presets that it named
-- and that are not removed, the default preset is as before or, if it is removed, empty, and every
-- other key of the root and of the router has the value that it had.
pub references_removed :
    (names : List Text) (d : Node)
    → ((k : Text)
        → autostarts k (remove_preset_reference_nodes names d).0
          ≡ (not (in_remove names k) && autostarts k d))
      × (default_preset (remove_preset_reference_nodes names d).0
          ≡ Option.map (λ v. if in_remove names v then [] else v) (default_preset d))
      × ((k : Text)
          → (codes "router" =ₜ k) ≡ false
          → key_of k (document_root (remove_preset_reference_nodes names d).0)
            ≡ key_of k (document_root d))
      × ((k : Text)
          → (codes "default_preset" =ₜ k) ≡ false
          → (codes "autostart_presets" =ₜ k) ≡ false
          → key_of k (router_of (remove_preset_reference_nodes names d).0) ≡ key_of k (router_of d))
unfolding remove_preset_reference_nodes RouterCleared
references_removed names d =
    let same = router_of-change_root (remove_router_references names) d in
    elim (Option-cases (router_of d)) [
      | inl absent ↦ (
        λ k. rw (same, absent) (ground arith),
        rw (same, absent),
        root_key (remove_router_references names) d,
        λ k p q. rw (same, absent),
      )
      | inr (r, there) ↦
          let (lists_is, default_is, others) = remove_router_references-RouterCleared names r in
          (
            λ k. rw (same, there) (lists_is k),
            rw (same, there) default_is,
            root_key (remove_router_references names) d,
            λ k p q. rw (same, there) (others k p q),
          )
    ]
