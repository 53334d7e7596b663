-- ===== src/ConfigStore/Autostart.antt =====
-- core/configstore/config_store.go: what config.yaml says of presets, before and behind its edits.
use llamarig.Common.{
  ◌≡◌, ◌∙◌, inl, inr, Bool, true, false, not, ◌&&◌, ◌||◌, Option, none, some, arith, Bool-cases,
}
use llamarig.Common.Text.{Text, codes, ◌=ₜ◌, =ₜ_iff, =ₜ_refl}
use llamarig.ConfigStore.{
  document_node, mapping_node, sequence_node, scalar_node, alias_node, Node, node, Nodes, nil, ◌⋮◌,
  value, content, is_sequence, mapping_value, document_root,
}
use llamarig.ConfigStore.Edits.{
  scalar, append_nodes, has_item, append_name_if_absent, keep_items, remove_seq_items,
}

-- Whether a node is a sequence with an item of that value.
abbrev pub lists : Text → Option Node → Bool
lists name none = false
lists name (some s) = is_sequence s && has_item name (content s)

-- `router` of the document.
abbrev pub key_of : Text → Option Node → Option Node
key_of key none = none
key_of key (some n) = mapping_value key n

abbrev pub router_of : Node → Option Node
router_of document = key_of (codes "router") (document_root document)

-- Whether the preset is in `router.autostart_presets`.
abbrev pub autostarts : Text → Node → Bool
autostarts name document = lists name (key_of (codes "autostart_presets") (router_of document))

has_item-keep_items :
    (match : Text → Bool) (k : Text) (ns : Nodes)
    → has_item k (keep_items match ns) ≡ (not (match k) && has_item k ns)
unfolding has_item keep_items
has_item-keep_items match k nil = ground arith
has_item-keep_items match k (n ⋮ ns) = elim (Bool-cases (value n =ₜ k)) [
  | inr other ↦ ground (arith, has_item-keep_items match k ns)
  | inl same ↦
      let value_is : value n ≡ k = (=ₜ_iff (value n) k).0 same in
      rw (value_is, =ₜ_refl k)
        (elim (Bool-cases (match k)) [
          | inl goes ↦ rw (goes) (has_item-keep_items match k ns ∙ rw goes)
          | inr stays ↦ rw stays (unfold has_item in rw (value_is, =ₜ_refl k))
        ])
]

-- `removeSeqItems` keeps exactly the items that do not match.
pub lists-remove_seq_items :
    (match : Text → Bool) (k : Text) (s : Node)
    → lists k (some (remove_seq_items match s).0) ≡ (not (match k) && lists k (some s))
unfolding remove_seq_items
lists-remove_seq_items match k (node sequence_node t v m c) = has_item-keep_items match k c
lists-remove_seq_items match k (node document_node t v m c) = ground arith
lists-remove_seq_items match k (node mapping_node t v m c) = ground arith
lists-remove_seq_items match k (node scalar_node t v m c) = ground arith
lists-remove_seq_items match k (node alias_node t v m c) = ground arith

has_item-append :
    (name k : Text) (ns : Nodes)
    → has_item k (append_nodes ns (scalar name ⋮ nil)) ≡ (has_item k ns || name =ₜ k)
unfolding has_item append_nodes
has_item-append name k nil = ground arith
has_item-append name k (n ⋮ ns) = ground (arith, has_item-append name k ns)

-- `appendNameIfAbsent` on a sequence adds exactly the name.
pub lists-append_name_if_absent :
    (name k : Text) (s : Node)
    → is_sequence s ≡ true
    → lists k (some (append_name_if_absent name s).0) ≡ (lists k (some s) || name =ₜ k)
unfolding append_name_if_absent
lists-append_name_if_absent name k (node sequence_node t v m c) h =
    elim (Bool-cases (has_item name c)) [
      | inr absent ↦ rw absent (has_item-append name k c)
      | inl there ↦ rw there (elim (Bool-cases (name =ₜ k)) [
        | inr other ↦ ground arith
        | inl same ↦
            let name_is : name ≡ k = (=ₜ_iff name k).0 same in
            let also : has_item k c ≡ true = rw name_is at there in ground arith
      ])
    ]
lists-append_name_if_absent name k (node document_node t v m c) h = cc
lists-append_name_if_absent name k (node mapping_node t v m c) h = cc
lists-append_name_if_absent name k (node scalar_node t v m c) h = cc
lists-append_name_if_absent name k (node alias_node t v m c) h = cc
