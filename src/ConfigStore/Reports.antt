-- ===== src/ConfigStore/Reports.antt =====
-- core/configstore/config_store.go: a removal that reports no change, which is not written.
use llamarig.Common.{
  ◌≡◌, ◌≢◌, refl, sym, ◌∙◌, ap, inl, inr, Bool, true, false, none, some, List, arith, Option-cases,
}
use llamarig.Common.Text.{Text, codes, ◌=ₜ◌}
use llamarig.ConfigStore.{Node, value, mapping_value, document_root}
use llamarig.ConfigStore.Edits.{
  remove_seq_items, in_remove, change_value, clear_default, remove_router_references,
  remove_preset_reference_nodes,
}
use llamarig.ConfigStore.Laws.{change_root_flag}
use llamarig.ConfigStore.Autostart.{lists, autostarts}
use llamarig.ConfigStore.References.{default_preset, other_key, remove_seq_items_unchanged}

change_value_flag :
    (key : Text) (f : Node → Node × Bool) (n : Node)
    → (change_value key f n).1 ≡ elim (mapping_value key n) [ none ↦ false | some v ↦ (f v).1 ]
unfolding change_value
change_value_flag key f n = elim (Option-cases (mapping_value key n)) [
  | inl absent ↦ rw (change_value, absent)
  | inr (v, there) ↦ rw (change_value, there)
]

lists_unchanged :
    (key : Text) (match : Text → Bool) (k : Text) (r : Node)
    → match k ≡ true
    → (change_value key (remove_seq_items match) r).1 ≡ false
    → lists k (mapping_value key r) ≡ false
lists_unchanged key match k r hit h =
    let flag = sym (change_value_flag key (remove_seq_items match) r) ∙ h in
    elim (Option-cases (mapping_value key r)) [
      | inl absent ↦ rw absent
      | inr (s, there) ↦ rw there (remove_seq_items_unchanged match k s (rw there at flag) hit)
    ]

default_unchanged :
    (names : List Text) (k : Text) (r n : Node)
    → in_remove names k ≡ true
    → (change_value (codes "default_preset") (clear_default names) r).1 ≡ false
    → mapping_value (codes "default_preset") r ≡ some n
    → value n ≢ k
unfolding clear_default
default_unchanged names k r n hit h there same =
    let flag = sym (change_value_flag (codes "default_preset") (clear_default names) r) ∙ h in
    cc (rw (there, clear_default, same, hit) at flag)

router_unchanged :
    (names : List Text) (k : Text) (r : Node)
    → in_remove names k ≡ true
    → (remove_router_references names r).1 ≡ false
    → (lists k (mapping_value (codes "autostart_presets") r) ≡ false)
      × ((n : Node) → mapping_value (codes "default_preset") r ≡ some n → value n ≢ k)
unfolding remove_router_references ◌=ₜ◌
router_unchanged names k r hit h =
    let r1 : Node = (change_value (codes "default_preset") (clear_default names) r).0 in
    (
      ap (lists k) (
            sym (
              other_key (codes "default_preset") (codes "autostart_presets") (clear_default names) r
                refl))
          ∙ lists_unchanged (codes "autostart_presets") (in_remove names) k r1 hit (ground arith),
      λ n. default_unchanged names k r n hit (ground arith),
    )

-- Where `removePresetReferenceNodes` reports no change, so that nothing is written, neither the
-- autostart list nor the default preset names a preset that was to be removed.
pub unreported_unreferenced :
    (names : List Text) (k : Text) (d : Node)
    → in_remove names k ≡ true
    → (remove_preset_reference_nodes names d).1 ≡ false
    → (autostarts k d ≡ false) × (default_preset d ≢ some k)
unfolding remove_preset_reference_nodes
unreported_unreferenced names k d hit h = elim (Option-cases (document_root d)) [
  | inl absent ↦ rw absent (refl, λ e. cc)
  | inr (root, there) ↦ elim (Option-cases (mapping_value (codes "router") root)) [
    | inl missing ↦ rw (there, missing) (refl, λ e. cc)
    | inr (r, known) ↦
        let flag =
          sym (change_value_flag (codes "router") (remove_router_references names) root)
          ∙ (rw there at (
              sym (
                change_root_flag (change_value (codes "router") (remove_router_references names)) d)
              ∙ h)) in
        let (listed, named) = router_unchanged names k r hit (rw known at flag) in
        rw (there, known)
          (
            listed,
            λ e. elim (Option-cases (mapping_value (codes "default_preset") r)) [
              | inl absent ↦ cc (rw absent at e)
              | inr (n, default_is) ↦ named n default_is (cc (rw default_is at e))
            ],
          )
  ]
]
