-- ===== src/ConfigStore/Laws.antt =====
-- Reading a mapping behind an edit of it.
use mathlib.Core.Option
use llamarig.Common.{
  ◌≡◌, refl, ◌∙◌, inl, inr, Bool, true, false, none, some, arith, if◌then◌else◌, Bool-cases,
  Option-cases,
}
use llamarig.Common.Text.{Text, ◌=ₜ◌, =ₜ_iff}
use llamarig.ConfigStore.{
  document_node, mapping_node, sequence_node, scalar_node, alias_node, Node, node, Nodes, nil, ◌⋮◌,
  value, content, is_mapping, find_value, mapping_value, document_root,
}
use llamarig.ConfigStore.Edits.{
  scalar, append_nodes, append_pair, edit_found, edit_value, change_value, change_or_create,
  change_root,
}

find_value-edit_found :
    (key k : Text) (f : Node → Node) (ns : Nodes)
    → find_value k (edit_found key f ns)
      ≡ (if key =ₜ k then Option.map f (find_value k ns) else find_value k ns)
unfolding find_value edit_found
find_value-edit_found key k f nil = ground arith
find_value-edit_found key k f (n ⋮ nil) = ground arith
find_value-edit_found key k f (n ⋮ v ⋮ rest) = ground (
  arith,
  =ₜ_iff (value n) key,
  =ₜ_iff (value n) k,
  =ₜ_iff key k,
  find_value-edit_found key k f rest,
)

-- Pairs of a key and a value, as a mapping that was parsed has them.
unfoldable pub paired : Nodes → Bool
paired nil = true
paired (n ⋮ nil) = false
paired (k ⋮ v ⋮ rest) = paired rest

find_value-append :
    (key k : Text) (v : Node) (ns : Nodes)
    → paired ns ≡ true
    → find_value k (append_nodes ns (scalar key ⋮ v ⋮ nil))
      ≡ elim (find_value k ns) [ none ↦ (if key =ₜ k then some v else none) | some w ↦ some w ]
unfolding find_value append_nodes paired
find_value-append key k v nil h = ground arith
find_value-append key k v (n ⋮ nil) h = cc
find_value-append key k v (n ⋮ w ⋮ rest) h = ground (arith, find_value-append key k v rest)

find_value-fresh :
    (key k : Text) (v : Node) (ns : Nodes)
    → paired ns ≡ true
    → find_value key ns ≡ none
    → find_value k (append_nodes ns (scalar key ⋮ v ⋮ nil))
      ≡ (if key =ₜ k then some v else find_value k ns)
find_value-fresh key k v ns p absent =
    find_value-append key k v ns p ∙ elim (Bool-cases (key =ₜ k)) [
      | inr other ↦ rw other (elim (Option-cases (find_value k ns)) [
        | inl missing ↦ rw (missing, other)
        | inr (w, there) ↦ rw there
      ])
      | inl same ↦
          let key_is : key ≡ k = (=ₜ_iff key k).0 same in
          let gone : find_value k ns ≡ none = rw key_is at absent in rw (gone, same)
    ]

pub is_mapping-edit_value :
    (key : Text) (f : Node → Node) (n : Node) → is_mapping (edit_value key f n) ≡ is_mapping n
unfolding edit_value
is_mapping-edit_value key f (node k t v m c) = ground arith

pub is_mapping-append_pair :
    (key : Text) (v n : Node) → is_mapping (append_pair key v n) ≡ is_mapping n
is_mapping-append_pair key v (node k t w m c) = ground arith

pub mapping_value-edit_value :
    (key k : Text) (f : Node → Node) (n : Node)
    → mapping_value k (edit_value key f n)
      ≡ (if key =ₜ k then Option.map f (mapping_value k n) else mapping_value k n)
unfolding mapping_value edit_value
mapping_value-edit_value key k f (node kd t v m c) = ground (arith, find_value-edit_found key k f c)

pub mapping_value-append_pair :
    (key k : Text) (v n : Node)
    → is_mapping n ≡ true
    → paired (content n) ≡ true
    → mapping_value key n ≡ none
    → mapping_value k (append_pair key v n) ≡ (if key =ₜ k then some v else mapping_value k n)
unfolding mapping_value
mapping_value-append_pair key k v (node mapping_node t w m c) h p absent =
    find_value-fresh key k v c p absent
mapping_value-append_pair key k v (node document_node t w m c) h p absent = cc
mapping_value-append_pair key k v (node sequence_node t w m c) h p absent = cc
mapping_value-append_pair key k v (node scalar_node t w m c) h p absent = cc
mapping_value-append_pair key k v (node alias_node t w m c) h p absent = cc

-- A write to the value of a key changes the answer for that key, and no other.
pub mapping_value-change_value :
    (key k : Text) (f : Node → Node × Bool) (n : Node)
    → mapping_value k (change_value key f n).0
      ≡ (if key =ₜ k then Option.map (λ w. (f w).0) (mapping_value k n) else mapping_value k n)
unfolding change_value
mapping_value-change_value key k f n = elim (Option-cases (mapping_value key n)) [
  | inr (v, there) ↦ rw (there, change_value) (mapping_value-edit_value key k (λ w. (f w).0) n)
  | inl absent ↦
      rw (absent, change_value)
        (elim (Bool-cases (key =ₜ k)) [
          | inr other ↦ rw other
          | inl same ↦ let key_is : key ≡ k = (=ₜ_iff key k).0 same in rw (same, ← key_is, absent)
        ])
]

pub mapping_value-change_or_create :
    (key k : Text) (fresh : Node) (f : Node → Node × Bool) (n : Node)
    → is_mapping n ≡ true
    → paired (content n) ≡ true
    → mapping_value k (change_or_create key fresh f n).0 ≡ (
        if key =ₜ k
        then some (elim (mapping_value k n) [ none ↦ (f fresh).0 | some w ↦ (f w).0 ])
        else mapping_value k n)
unfolding change_or_create
mapping_value-change_or_create key k fresh f n h p = elim (Option-cases (mapping_value key n)) [
  | inr (v, there) ↦
      rw (there, change_or_create)
        (mapping_value-edit_value key k (λ w. (f w).0) n ∙ elim (Bool-cases (key =ₜ k)) [
          | inr other ↦ rw other
          | inl same ↦ let key_is : key ≡ k = (=ₜ_iff key k).0 same in rw (same, ← key_is, there)
        ])
  | inl absent ↦
      rw (absent, change_or_create)
        (mapping_value-append_pair key k (f fresh).0 n h p absent ∙ elim (Bool-cases (key =ₜ k)) [
          | inr other ↦ rw other
          | inl same ↦ let key_is : key ≡ k = (=ₜ_iff key k).0 same in rw (same, ← key_is, absent)
        ])
]

-- The kind of a mapping is kept.
pub is_mapping-change_value :
    (key : Text) (f : Node → Node × Bool) (n : Node)
    → is_mapping (change_value key f n).0 ≡ is_mapping n
unfolding change_value
is_mapping-change_value key f n = elim (Option-cases (mapping_value key n)) [
  | inr (v, there) ↦ rw (there, change_value) (is_mapping-edit_value key (λ w. (f w).0) n)
  | inl absent ↦ rw (absent, change_value)
]

pub is_mapping-change_or_create :
    (key : Text) (fresh : Node) (f : Node → Node × Bool) (n : Node)
    → is_mapping (change_or_create key fresh f n).0 ≡ is_mapping n
unfolding change_or_create
is_mapping-change_or_create key fresh f n = elim (Option-cases (mapping_value key n)) [
  | inr (v, there) ↦ rw (there, change_or_create) (is_mapping-edit_value key (λ w. (f w).0) n)
  | inl absent ↦ rw (absent, change_or_create) (is_mapping-append_pair key (f fresh).0 n)
]

-- The root that an edit of the root leaves.
pub document_root-change_root :
    (f : Node → Node × Bool) (d : Node)
    → ((n : Node) → is_mapping (f n).0 ≡ is_mapping n)
    → document_root (change_root f d).0 ≡ Option.map (λ n. (f n).0) (document_root d)
unfolding document_root change_root
document_root-change_root f (node k t v m nil) h = refl
document_root-change_root f (node k t v m (root ⋮ rest)) h = elim (Bool-cases (is_mapping root)) [
  | inl mapping ↦ rw (mapping, document_root) (rw (h root, mapping))
  | inr other ↦ rw (other, document_root) (rw other)
]

-- An edit of the root reports what the edit of its node reports.
pub change_root_flag :
    (f : Node → Node × Bool) (d : Node)
    → (change_root f d).1 ≡ elim (document_root d) [ none ↦ false | some n ↦ (f n).1 ]
unfolding document_root change_root
change_root_flag f (node k t v m nil) = refl
change_root_flag f (node k t v m (root ⋮ rest)) = elim (Bool-cases (is_mapping root)) [
  | inl mapping ↦ rw mapping
  | inr other ↦ rw other
]

pub document_root-is_mapping :
    (d root : Node) → document_root d ≡ some root → is_mapping root ≡ true
unfolding document_root
document_root-is_mapping (node k t v m nil) r h = cc
document_root-is_mapping (node k t v m (root ⋮ rest)) r h = elim (Bool-cases (is_mapping root)) [
  | inl mapping ↦ let same : root ≡ r = cc (rw mapping at h) in rw (← same) mapping
  | inr other ↦ cc (rw other at h)
]
