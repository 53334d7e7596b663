-- ===== src/ConfigStore/References.antt =====
-- core/configstore/config_store.go `RemoveRouterPresetReferences` and the disabling branch of
-- `SetRouterAutostartPreset`: which presets config.yaml names behind them.
use mathlib.Core.Option
use llamarig.Common.{
  ◌≡◌, refl, ◌∙◌, ap, inl, inr, Bool, true, false, not, ◌&&◌, Option, some, List, [], arith,
  if◌then◌else◌, Bool-cases, Option-cases,
}
use llamarig.Common.Text.{Text, codes, ◌=ₜ◌, =ₜ_iff, =ₜ_refl}
use llamarig.ConfigStore.{
  document_node, mapping_node, sequence_node, scalar_node, alias_node, Node, node, Nodes, nil, ◌⋮◌,
  value, mapping_value, document_root,
}
use llamarig.ConfigStore.Edits.{
  has_item, any_item, remove_seq_items, in_remove, change_value, change_root, clear_default,
  remove_router_references,
}
use llamarig.ConfigStore.Laws.{
  mapping_value-change_value, is_mapping-change_value, document_root-change_root,
}
use llamarig.ConfigStore.Autostart.{lists, key_of, router_of, lists-remove_seq_items}

-- `router.default_preset`
abbrev pub default_preset : Node → Option Text
default_preset document = Option.map value (key_of (codes "default_preset") (router_of document))

-- The router behind an edit of the router.
pub router_of-change_root :
    (f : Node → Node × Bool) (d : Node)
    → router_of (change_root (change_value (codes "router") f) d).0
      ≡ Option.map (λ r. (f r).0) (router_of d)
router_of-change_root f d =
    ap (key_of (codes "router")) (
      document_root-change_root (change_value (codes "router") f) d
        (is_mapping-change_value (codes "router") f))
    ∙ (elim (Option-cases (document_root d)) [
      | inl absent ↦ rw absent
      | inr (root, there) ↦ rw there (
          mapping_value-change_value (codes "router") (codes "router") f root
          ∙ rw (=ₜ_refl (codes "router")))
    ])

pub other_key :
    (key k : Text) (f : Node → Node × Bool) (r : Node)
    → (key =ₜ k) ≡ false
    → mapping_value k (change_value key f r).0 ≡ mapping_value k r
other_key key k f r h = mapping_value-change_value key k f r ∙ rw h

pub same_key :
    (key : Text) (f : Node → Node × Bool) (r : Node)
    → mapping_value key (change_value key f r).0 ≡ Option.map (λ w. (f w).0) (mapping_value key r)
same_key key f r = mapping_value-change_value key key f r ∙ rw (=ₜ_refl key)

-- The items that are left in the sequence behind a key.
pub lists-change_value :
    (key : Text) (match : Text → Bool) (k : Text) (r : Node)
    → lists k (mapping_value key (change_value key (remove_seq_items match) r).0)
      ≡ (not (match k) && lists k (mapping_value key r))
lists-change_value key match k r =
    ap (lists k) (same_key key (remove_seq_items match) r)
    ∙ (elim (Option-cases (mapping_value key r)) [
      | inl absent ↦ rw absent (ground arith)
      | inr (s, there) ↦ rw there (lists-remove_seq_items match k s)
    ])

any_item-has_item :
    (match : Text → Bool) (k : Text) (ns : Nodes)
    → any_item match ns ≡ false
    → match k ≡ true
    → has_item k ns ≡ false
unfolding any_item has_item
any_item-has_item match k nil h hit = refl
any_item-has_item match k (n ⋮ ns) h hit = elim (Bool-cases (value n =ₜ k)) [
  | inl same ↦
      let value_is : value n ≡ k = (=ₜ_iff (value n) k).0 same in cc (rw (value_is, hit) at h)
  | inr other ↦ ground (arith, any_item-has_item match k ns)
]

-- A removal that reports no change had nothing to remove.
pub remove_seq_items_unchanged :
    (match : Text → Bool) (k : Text) (s : Node)
    → (remove_seq_items match s).1 ≡ false
    → match k ≡ true
    → lists k (some s) ≡ false
unfolding remove_seq_items
remove_seq_items_unchanged match k (node sequence_node t v m c) h hit =
    any_item-has_item match k c h hit
remove_seq_items_unchanged match k (node document_node t v m c) h hit = refl
remove_seq_items_unchanged match k (node mapping_node t v m c) h hit = refl
remove_seq_items_unchanged match k (node scalar_node t v m c) h hit = refl
remove_seq_items_unchanged match k (node alias_node t v m c) h hit = refl

clear_default-value :
    (names : List Text) (n : Node)
    → value (clear_default names n).0 ≡ (if in_remove names (value n) then [] else value n)
unfolding clear_default
clear_default-value names (node k t v m c) = ground arith

-- The router behind `removePresetReferenceNodes`.
unfoldable pub RouterCleared : List Text → Node → Node → Type 0
RouterCleared names r r' =
    ((k : Text)
      → lists k (mapping_value (codes "autostart_presets") r')
        ≡ (not (in_remove names k) && lists k (mapping_value (codes "autostart_presets") r)))
    × (Option.map value (mapping_value (codes "default_preset") r')
        ≡ Option.map (λ v. if in_remove names v then [] else v)
            (Option.map value (mapping_value (codes "default_preset") r)))
    × ((k : Text)
        → (codes "default_preset" =ₜ k) ≡ false
        → (codes "autostart_presets" =ₜ k) ≡ false
        → mapping_value k r' ≡ mapping_value k r)

pub remove_router_references-RouterCleared :
    (names : List Text) (r : Node) → RouterCleared names r (remove_router_references names r).0
unfolding remove_router_references RouterCleared ◌=ₜ◌
remove_router_references-RouterCleared names r =
    let r1 : Node = (change_value (codes "default_preset") (clear_default names) r).0 in
    (
      λ k.
          lists-change_value (codes "autostart_presets") (in_remove names) k r1
          ∙ ap (λ x. not (in_remove names k) && lists k x)
              (other_key (codes "default_preset") (codes "autostart_presets") (clear_default names)
                r refl),
      ap (Option.map value) (
            other_key (codes "autostart_presets") (codes "default_preset")
              (remove_seq_items (in_remove names)) r1 refl
            ∙ same_key (codes "default_preset") (clear_default names) r)
          ∙ (elim (Option-cases (mapping_value (codes "default_preset") r)) [
            | inl absent ↦ rw absent
            | inr (n, there) ↦ rw there (ap some (clear_default-value names n))
          ]),
      λ k d a.
          other_key (codes "autostart_presets") k (remove_seq_items (in_remove names)) r1 a
          ∙ other_key (codes "default_preset") k (clear_default names) r d,
    )
