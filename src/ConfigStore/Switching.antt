-- ===== src/ConfigStore/Switching.antt =====
-- core/configstore/config_store.go `SetRouterAutostartPreset` on the document.
use mathlib.Core.Option
use llamarig.Common.{
  ◌≡◌, refl, ◌∙◌, ap, inl, inr, Bool, true, false, not, ◌&&◌, ◌||◌, Option, none, some, arith,
  if◌then◌else◌, Bool-cases, Option-cases,
}
use llamarig.Common.Text.{Text, codes, ◌=ₜ◌, =ₜ_iff, =ₜ_refl}
use llamarig.ConfigStore.{
  Node, content, is_mapping, is_sequence, find_value, mapping_value, document_root,
}
use llamarig.ConfigStore.Edits.{
  has_item, change_router_node, set_autostart_router, set_autostart_preset, append_name_if_absent,
  empty_mapping, empty_sequence,
}
use llamarig.ConfigStore.Laws.{
  paired, mapping_value-change_or_create, is_mapping-change_value, is_mapping-change_or_create,
  document_root-change_root, document_root-is_mapping,
}
use llamarig.ConfigStore.Autostart.{
  lists, key_of, router_of, autostarts, lists-append_name_if_absent,
}
use llamarig.ConfigStore.References.{same_key, lists-change_value}

is_mapping-change_router_node :
    (enabled : Bool) (f : Node → Node × Bool) (root : Node)
    → is_mapping (change_router_node enabled f root).0 ≡ is_mapping root
unfolding change_router_node
is_mapping-change_router_node enabled f root =
    elim (Option-cases (mapping_value (codes "router") root)) [
      | inl absent ↦ elim (Bool-cases enabled) [
        | inl on ↦
            rw (absent, change_router_node, on)
              (is_mapping-change_or_create (codes "router") empty_mapping f root)
        | inr off ↦ rw (absent, change_router_node, off)
      ]
      | inr (r, there) ↦ elim (Bool-cases (is_mapping r)) [
        | inl mapping ↦
            rw (there, change_router_node, mapping)
              (is_mapping-change_value (codes "router") f root)
        | inr other ↦ rw (there, change_router_node, other)
      ]
    ]

-- The router behind `setAutostartPreset`.
router_of-set_autostart_preset :
    (name : Text) (enabled : Bool) (d : Node)
    → router_of (set_autostart_preset name enabled d).0
      ≡ key_of (codes "router") (
          Option.map
            (λ root. (change_router_node enabled (set_autostart_router name enabled) root).0)
            (document_root d))
unfolding set_autostart_preset
router_of-set_autostart_preset name enabled d = ap (key_of (codes "router")) (
    document_root-change_root (change_router_node enabled (set_autostart_router name enabled)) d
      (is_mapping-change_router_node enabled (set_autostart_router name enabled)))

off_router :
    (name : Text) (root : Node)
    → mapping_value
        (codes "router")
        (change_router_node false (set_autostart_router name false) root).0
      ≡ Option.map
          (λ r. if is_mapping r then (set_autostart_router name false r).0 else r)
          (mapping_value (codes "router") root)
unfolding change_router_node
off_router name root = elim (Option-cases (mapping_value (codes "router") root)) [
  | inl absent ↦ rw (absent, change_router_node, absent)
  | inr (r, there) ↦ elim (Bool-cases (is_mapping r)) [
    | inl mapping ↦
        rw (there, change_router_node, mapping)
          (same_key (codes "router") (set_autostart_router name false) root ∙ rw there)
    | inr other ↦ rw (there, change_router_node, other, there)
  ]
]

no_mapping : (key : Text) (n : Node) → is_mapping n ≡ false → mapping_value key n ≡ none
unfolding mapping_value
no_mapping key n h = rw h

off_lists :
    (name k : Text) (r : Node)
    → lists k (
        mapping_value
          (codes "autostart_presets")
          (if is_mapping r then (set_autostart_router name false r).0 else r))
      ≡ (not (name =ₜ k) && lists k (mapping_value (codes "autostart_presets") r))
unfolding set_autostart_router
off_lists name k r = elim (Bool-cases (is_mapping r)) [
  | inr other ↦ rw (other, no_mapping (codes "autostart_presets") r other) (ground arith)
  | inl mapping ↦ rw mapping (
      lists-change_value (codes "autostart_presets") (λ v. v =ₜ name) k r
      ∙ ground (arith, =ₜ_iff name k, =ₜ_iff k name))
]

-- Behind `SetRouterAutostartPreset` with `enabled` false the autostart list names exactly the
-- presets that it named, without this one.
pub autostart_disabled :
    (name k : Text) (d : Node)
    → autostarts k (set_autostart_preset name false d).0 ≡ (not (name =ₜ k) && autostarts k d)
autostart_disabled name k d =
    ap (λ r. lists k (key_of (codes "autostart_presets") r))
      (router_of-set_autostart_preset name false d)
    ∙ (elim (Option-cases (document_root d)) [
      | inl absent ↦ rw absent (ground arith)
      | inr (root, there) ↦
          rw (there, off_router name root)
            (elim (Option-cases (mapping_value (codes "router") root)) [
              | inl absent ↦ rw absent (ground arith)
              | inr (r, known) ↦ rw known (off_lists name k r)
            ])
    ])

-- What `autostart_presets` may be for a name to be added: missing, or a sequence.
abbrev pub accepts_seq : Option Node → Bool
accepts_seq none = true
accepts_seq (some s) = is_sequence s

-- What `router` may be: missing, or a mapping.
abbrev pub accepts_router : Option Node → Bool
accepts_router none = true
accepts_router (some r) =
    is_mapping r && paired (content r) && accepts_seq (mapping_value (codes "autostart_presets") r)

-- A document whose autostart list can be extended.
abbrev pub accepts : Node → Bool
accepts d = elim (document_root d) [
  | none ↦ false
  | some root ↦ paired (content root) && accepts_router (mapping_value (codes "router") root)
]

on_seq :
    (name : Text) (r : Node)
    → accepts_router (some r) ≡ true
    → mapping_value (codes "autostart_presets") (set_autostart_router name true r).0
      ≡ some (elim (mapping_value (codes "autostart_presets") r) [
        | none ↦ (append_name_if_absent name empty_sequence).0
        | some s ↦ (append_name_if_absent name s).0
      ])
unfolding set_autostart_router
on_seq name r h =
    mapping_value-change_or_create (codes "autostart_presets") (codes "autostart_presets")
      empty_sequence (append_name_if_absent name) r (ground arith) (ground arith)
    ∙ rw (=ₜ_refl (codes "autostart_presets"))

on_lists :
    (name k : Text) (r : Node)
    → accepts_router (some r) ≡ true
    → lists k (mapping_value (codes "autostart_presets") (set_autostart_router name true r).0)
      ≡ (lists k (mapping_value (codes "autostart_presets") r) || name =ₜ k)
unfolding has_item ◌=ₜ◌
on_lists name k r h =
    ap (lists k) (on_seq name r h)
    ∙ (elim (Option-cases (mapping_value (codes "autostart_presets") r)) [
      | inl absent ↦ rw absent (lists-append_name_if_absent name k empty_sequence refl)
      | inr (s, there) ↦ rw there (
          lists-append_name_if_absent name k s (
            let ok_seq : accepts_seq (mapping_value (codes "autostart_presets") r) ≡ true =
              ground arith in
            rw there at ok_seq))
    ])

empty_mapping_accepts : accepts_router (some empty_mapping) ≡ true
unfolding mapping_value paired find_value
empty_mapping_accepts = refl

nothing_listed :
    (k : Text) → lists k (mapping_value (codes "autostart_presets") empty_mapping) ≡ false
unfolding mapping_value find_value
nothing_listed k = refl

on_root :
    (name k : Text) (root : Node)
    → is_mapping root ≡ true
    → paired (content root) ≡ true
    → accepts_router (mapping_value (codes "router") root) ≡ true
    → lists k (
        key_of (codes "autostart_presets") (
          mapping_value
            (codes "router")
            (change_router_node true (set_autostart_router name true) root).0))
      ≡ (lists k (key_of (codes "autostart_presets") (mapping_value (codes "router") root))
          || name =ₜ k)
unfolding change_router_node
on_root name k root m p h = elim (Option-cases (mapping_value (codes "router") root)) [
  | inl absent ↦
      rw
        (
          absent,
          change_router_node,
          mapping_value-change_or_create (codes "router") (codes "router") empty_mapping
              (set_autostart_router name true) root m p,
          =ₜ_refl (codes "router"),
          absent,
        )
        (on_lists name k empty_mapping empty_mapping_accepts ∙ rw (nothing_listed k))
  | inr (r, there) ↦
      let good : accepts_router (some r) ≡ true = rw there at h in
      let mapping : is_mapping r ≡ true = ground arith in
      rw
        (
          there,
          change_router_node,
          mapping,
          same_key (codes "router") (set_autostart_router name true) root,
          there,
        )
        (on_lists name k r good)
]

-- Where the document has a root, and `router` and `autostart_presets` are missing or a mapping and a
-- sequence, the autostart list behind `SetRouterAutostartPreset` with `enabled` true names exactly
-- the presets that it named, and this one.
pub autostart_enabled :
    (name k : Text) (d : Node)
    → accepts d ≡ true
    → autostarts k (set_autostart_preset name true d).0 ≡ (autostarts k d || name =ₜ k)
autostart_enabled name k d h =
    ap (λ r. lists k (key_of (codes "autostart_presets") r))
      (router_of-set_autostart_preset name true d)
    ∙ (elim (Option-cases (document_root d)) [
      | inl absent ↦ cc (rw (accepts, absent) at h)
      | inr (root, there) ↦
          let good : (paired (content root) && accepts_router (mapping_value (codes "router") root))
              ≡ true =
            rw (accepts, there) at h in
          rw there (
            on_root name k root (document_root-is_mapping d root there) (ground arith)
              (ground arith))
    ])
