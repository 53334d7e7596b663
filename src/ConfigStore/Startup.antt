-- ===== src/ConfigStore/Startup.antt =====
-- core/configstore/config_store.go `SetStartupServices` and `SetRouterExecutable`.
use llamarig.Common.{Option, not, ◌&&◌, Bool}
use llamarig.Common.{
  ◌≡◌, refl, ◌∙◌, ap, inl, inr, true, false, none, some, List, [], ◌∷◌, Bool-cases, Option-cases,
}
use llamarig.Common.Text.{Text, codes, ◌=ₜ◌, =ₜ_refl}
use llamarig.ConfigStore.{Node, node, content, value, is_mapping, mapping_value, document_root}
use llamarig.ConfigStore.Edits.{
  append_pair, edit_value, empty_sequence, change_root, items_equal, sequence_equals, scalars,
  as_sequence, empty_mapping, default_llama_executable, pointed_value, deref, change_through,
  as_scalar, scalar, edit_value, find_or_create_router, set_executable, set_startup_services_root,
  set_startup_services, set_router_executable,
}
use llamarig.ConfigStore.Laws.{
  paired, mapping_value-edit_value, mapping_value-append_pair, is_mapping-edit_value,
  is_mapping-append_pair, document_root-change_root, change_root_flag, document_root-is_mapping,
}
use llamarig.ConfigStore.Autostart.{router_of}

items_equal-scalars : (vs : List Text) → items_equal (scalars vs) vs ≡ true
unfolding items_equal scalars
items_equal-scalars [] = refl
items_equal-scalars (v ∷ vs) = rw (=ₜ_refl v) (items_equal-scalars vs)

as_sequence-equals :
    (vs : List Text) (n : Node) → sequence_equals (some (as_sequence vs n)) vs ≡ true
unfolding sequence_equals
as_sequence-equals vs (node k t v m c) = items_equal-scalars vs

is_mapping-set_startup :
    (vs : List Text) (root : Node)
    → is_mapping (set_startup_services_root vs root).0 ≡ is_mapping root
unfolding set_startup_services_root
is_mapping-set_startup vs root =
    elim (Bool-cases (sequence_equals (mapping_value (codes "startup_services") root) vs)) [
      | inl same ↦ rw (set_startup_services_root, same)
      | inr other ↦ elim (Option-cases (mapping_value (codes "startup_services") root)) [
        | inl absent ↦
            rw (set_startup_services_root, other, absent)
              (is_mapping-append_pair (codes "startup_services") (as_sequence vs empty_sequence)
                root)
        | inr (s, there) ↦
            rw (set_startup_services_root, other, there)
              (is_mapping-edit_value (codes "startup_services") (as_sequence vs) root)
      ]
    ]

-- What `startup_services` is behind the edit, and every other key.
StartupSet : List Text → Node → Node → Type 0
StartupSet vs root after =
    (sequence_equals (mapping_value (codes "startup_services") after) vs ≡ true)
    × ((k : Text)
        → (codes "startup_services" =ₜ k) ≡ false
        → mapping_value k after ≡ mapping_value k root)

startup_edited :
    (vs : List Text) (root s : Node)
    → mapping_value (codes "startup_services") root ≡ some s
    → StartupSet vs root (edit_value (codes "startup_services") (as_sequence vs) root)
unfolding StartupSet
startup_edited vs root s there = (
  ap (λ o. sequence_equals o vs)
        (mapping_value-edit_value (codes "startup_services") (codes "startup_services")
            (as_sequence vs) root
          ∙ rw (=ₜ_refl (codes "startup_services"), there))
      ∙ as_sequence-equals vs s,
  λ k h. mapping_value-edit_value (codes "startup_services") k (as_sequence vs) root ∙ rw h,
)

startup_appended :
    (vs : List Text) (root : Node)
    → is_mapping root ≡ true
    → paired (content root) ≡ true
    → mapping_value (codes "startup_services") root ≡ none
    → StartupSet vs root
        (append_pair (codes "startup_services") (as_sequence vs empty_sequence) root)
unfolding StartupSet
startup_appended vs root m p absent = (
  ap (λ o. sequence_equals o vs)
        (mapping_value-append_pair (codes "startup_services") (codes "startup_services")
            (as_sequence vs empty_sequence) root m p absent
          ∙ rw (=ₜ_refl (codes "startup_services")))
      ∙ as_sequence-equals vs empty_sequence,
  λ k h.
      mapping_value-append_pair (codes "startup_services") k (as_sequence vs empty_sequence) root m
        p absent
      ∙ rw h,
)

root_startup :
    (vs : List Text) (root : Node)
    → is_mapping root ≡ true
    → paired (content root) ≡ true
    → StartupSet vs root (set_startup_services_root vs root).0
unfolding set_startup_services_root
root_startup vs root m p =
    elim (Bool-cases (sequence_equals (mapping_value (codes "startup_services") root) vs)) [
      | inl same ↦ rw (set_startup_services_root, same) (unfold StartupSet in (same, λ k h. refl))
      | inr other ↦ elim (Option-cases (mapping_value (codes "startup_services") root)) [
        | inl absent ↦
            rw (set_startup_services_root, other, absent) (startup_appended vs root m p absent)
        | inr (s, there) ↦
            rw (set_startup_services_root, other, there) (startup_edited vs root s there)
      ]
    ]

equal_unchanged :
    (vs : List Text) (root : Node)
    → sequence_equals (mapping_value (codes "startup_services") root) vs ≡ true
    → (set_startup_services_root vs root).1 ≡ false
unfolding set_startup_services_root
equal_unchanged vs root same = rw (set_startup_services_root, same)

-- Where the document has a root mapping of pairs, `SetStartupServices` leaves a root whose
-- `startup_services` is a sequence of exactly the given values and whose other keys have the values
-- that they had, and the same call again reports no change.
pub startup_services_set :
    (vs : List Text) (d root : Node)
    → document_root d ≡ some root
    → paired (content root) ≡ true
    → (after : Node) × (document_root (set_startup_services vs d).0 ≡ some after)
      × (sequence_equals (mapping_value (codes "startup_services") after) vs ≡ true)
      × ((k : Text)
          → (codes "startup_services" =ₜ k) ≡ false
          → mapping_value k after ≡ mapping_value k root)
      × ((set_startup_services vs (set_startup_services vs d).0).1 ≡ false)
unfolding set_startup_services StartupSet
startup_services_set vs d root there p =
    let after : Node = (set_startup_services_root vs root).0 in
    let (equal, others) = root_startup vs root (document_root-is_mapping d root there) p in
    let now : document_root (change_root (set_startup_services_root vs) d).0 ≡ some after =
      document_root-change_root (set_startup_services_root vs) d (is_mapping-set_startup vs)
      ∙ rw there in
    (
      after,
      now,
      equal,
      others,
      change_root_flag (set_startup_services_root vs)
            (change_root (set_startup_services_root vs) d).0
          ∙ rw now (equal_unchanged vs after equal),
    )

-- Whether a router is there that is no mapping.
abbrev pub is_odd : Option Node → Bool
is_odd none = false
is_odd (some r) = not (is_mapping r)

abbrev pub is_panic : Option (Node × Bool) → Bool
is_panic none = true
is_panic (some p) = false

set_executable-some :
    (executable replace : Text) (n : Node)
    → (r : Option Node × Bool) × (set_executable executable replace (some n) ≡ some r)
unfolding set_executable pointed_value change_through deref
set_executable-some executable replace n =
    elim (Option-cases (mapping_value (codes "executable") n)) [
      | inl absent ↦ (
        (some (append_pair (codes "executable") (scalar executable) n), true),
        rw (set_executable, absent),
      )
      | inr (current, there) ↦
          elim (Bool-cases
            (not (value current =ₜ default_llama_executable) && not (value current =ₜ replace))) [
              | inl others ↦ ((some n, false), rw (set_executable, there, others))
              | inr ours ↦ elim (Bool-cases (value current =ₜ executable)) [
                | inl same ↦ ((some n, false), rw (set_executable, there, ours, same))
                | inr new ↦ (
                  (some (edit_value (codes "executable") (as_scalar executable) n), true),
                  rw (set_executable, there, ours, new),
                )
              ]
            ]
    ]

-- `SetRouterExecutable` dereferences nil exactly where `router` is there and is no mapping.
pub executable_panics :
    (executable replace : Text) (d : Node)
    → is_panic (set_router_executable executable replace d) ≡ is_odd (router_of d)
unfolding set_router_executable find_or_create_router
executable_panics executable replace d = elim (Option-cases (document_root d)) [
  | inl absent ↦ rw (set_router_executable, absent)
  | inr (root, there) ↦ elim (Option-cases (mapping_value (codes "router") root)) [
    | inl missing ↦
        let (r, set) = set_executable-some executable replace empty_mapping in
        rw (set_router_executable, there, find_or_create_router, missing, set)
    | inr (s, known) ↦ elim (Bool-cases (is_mapping s)) [
      | inl mapping ↦
          let (r, set) = set_executable-some executable replace s in
          rw (set_router_executable, there, find_or_create_router, known, mapping, set)
      | inr other ↦
          let nil_set : set_executable executable replace none ≡ none =
            unfold set_executable pointed_value change_through deref in refl in
          rw (set_router_executable, there, find_or_create_router, known, other, nil_set)
    ]
  ]
]
