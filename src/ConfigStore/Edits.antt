-- ===== src/ConfigStore/Edits.antt =====
-- core/configstore/config_store.go: the edits of the YAML tree. A function that writes through a
-- pointer into the tree returns the tree, and with it whether it reports a change.
use llamarig.Common.{
  Bool, true, false, not, ◌&&◌, ◌||◌, Option, none, some, List, [], ◌∷◌, if◌then◌else◌, any,
}
use llamarig.Common.Text.{Text, codes, ◌=ₜ◌}
use llamarig.ConfigStore.{
  mapping_node, sequence_node, scalar_node, Node, node, Nodes, nil, ◌⋮◌, value, content, is_mapping,
  is_sequence, mapping_value, document_root,
}

abbrev pub with_content : Nodes → Node → Node
with_content ns (node k tag v trivia c) = node k tag v trivia ns

abbrev pub with_value : Text → Node → Node
with_value v (node k tag w trivia c) = node k tag v trivia c

-- A new scalar, mapping or sequence node.
abbrev pub scalar : Text → Node
scalar v = node scalar_node (codes "!!str") v [] nil

abbrev pub empty_mapping : Node
empty_mapping = node mapping_node (codes "!!map") [] [] nil

abbrev pub empty_sequence : Node
empty_sequence = node sequence_node (codes "!!seq") [] [] nil

unfoldable pub append_nodes : Nodes → Nodes → Nodes
append_nodes nil ms = ms
append_nodes (n ⋮ ns) ms = n ⋮ append_nodes ns ms

-- `node.Content = append(node.Content, key, value)`
abbrev pub append_pair : Text → Node → Node → Node
append_pair key v n = with_content (append_nodes (content n) (scalar key ⋮ v ⋮ nil)) n

-- A write through the pointer that `mappingValue` returned.
unfoldable pub edit_found : Text → (Node → Node) → Nodes → Nodes
edit_found key f nil = nil
edit_found key f (k ⋮ nil) = k ⋮ nil
edit_found key f (k ⋮ v ⋮ rest) =
    if value k =ₜ key then k ⋮ f v ⋮ rest else k ⋮ v ⋮ edit_found key f rest

unfoldable pub edit_value : Text → (Node → Node) → Node → Node
unfolding edit_found
edit_value key f n = if is_mapping n then with_content (edit_found key f (content n)) n else n

-- The same for a write that reports whether it changed something; nil reports no change.
unfoldable pub change_value : Text → (Node → Node × Bool) → Node → Node × Bool
change_value key f n = elim (mapping_value key n) [
  | none ↦ (n, false)
  | some v ↦ (edit_value key (λ w. (f w).0) n, (f v).1)
]

-- The same for the document's root.
unfoldable pub change_root : (Node → Node × Bool) → Node → Node × Bool
change_root f (node k tag v trivia nil) = (node k tag v trivia nil, false)
change_root f (node k tag v trivia (root ⋮ rest)) =
    if is_mapping root
    then (node k tag v trivia ((f root).0 ⋮ rest), (f root).1)
    else (node k tag v trivia (root ⋮ rest), false)

-- A write to the value of a key, which is appended to the mapping first where it is missing.
unfoldable pub change_or_create : Text → Node → (Node → Node × Bool) → Node → Node × Bool
change_or_create key fresh f n = elim (mapping_value key n) [
  | none ↦ (append_pair key (f fresh).0 n, (f fresh).1)
  | some v ↦ (edit_value key (λ w. (f w).0) n, (f v).1)
]

-- `findOrCreateRouterNode`: a write to the node that it returns, which is a mapping; nil reports no
-- change.
unfoldable pub change_router_node : Bool → (Node → Node × Bool) → Node → Node × Bool
change_router_node enabled f root = elim (mapping_value (codes "router") root) [
  | none ↦ if enabled then change_or_create (codes "router") empty_mapping f root else (root, false)
  | some router ↦ if is_mapping router then change_value (codes "router") f root else (root, false)
]

-- Whether an item has the value.
unfoldable pub has_item : Text → Nodes → Bool
has_item name nil = false
has_item name (n ⋮ ns) = value n =ₜ name || has_item name ns

-- `appendNameIfAbsent`
unfoldable pub append_name_if_absent : Text → Node → Node × Bool
append_name_if_absent name s =
    if not (is_sequence s)
    then (s, false)
    else if has_item name (content s)
    then (s, false)
    else (with_content (append_nodes (content s) (scalar name ⋮ nil)) s, true)

unfoldable pub keep_items : (Text → Bool) → Nodes → Nodes
keep_items match nil = nil
keep_items match (n ⋮ ns) = if match (value n) then keep_items match ns else n ⋮ keep_items match ns

unfoldable pub any_item : (Text → Bool) → Nodes → Bool
any_item match nil = false
any_item match (n ⋮ ns) = match (value n) || any_item match ns

-- `removeSeqItems`
unfoldable pub remove_seq_items : (Text → Bool) → Node → Node × Bool
remove_seq_items match s =
    if not (is_sequence s)
    then (s, false)
    else (with_content (keep_items match (content s)) s, any_item match (content s))

-- `setAutostartPreset` on the router, with `findOrCreateAutostartSeq`.
unfoldable pub set_autostart_router : Text → Bool → Node → Node × Bool
set_autostart_router name enabled router =
    if enabled
    then change_or_create (codes "autostart_presets") empty_sequence (append_name_if_absent name)
        router
    else change_value (codes "autostart_presets") (remove_seq_items (λ v. v =ₜ name)) router

-- `setAutostartPreset`
unfoldable pub set_autostart_preset : Text → Bool → Node → Node × Bool
set_autostart_preset name enabled =
    change_root (change_router_node enabled (set_autostart_router name enabled))

-- `removePresetReferenceNodes`: the map `remove` is a list of names.
abbrev pub in_remove : List Text → Text → Bool
in_remove names v = any (λ n. n =ₜ v) names

unfoldable pub clear_default : List Text → Node → Node × Bool
clear_default names n = if in_remove names (value n) then (with_value [] n, true) else (n, false)

unfoldable pub remove_router_references : List Text → Node → Node × Bool
remove_router_references names router =
    let (router', changed) = change_value (codes "default_preset") (clear_default names) router in
    let (router'', removed) =
      change_value (codes "autostart_presets") (remove_seq_items (in_remove names)) router' in
    (router'', removed || changed)

unfoldable pub remove_preset_reference_nodes : List Text → Node → Node × Bool
remove_preset_reference_nodes names =
    change_root (change_value (codes "router") (remove_router_references names))

-- `sequenceEquals`
unfoldable pub items_equal : Nodes → List Text → Bool
items_equal nil [] = true
items_equal (n ⋮ ns) (v ∷ vs) = value n =ₜ v && items_equal ns vs
items_equal _ _ = false

unfoldable pub sequence_equals : Option Node → List Text → Bool
unfolding items_equal
sequence_equals none values = false
sequence_equals (some n) values = is_sequence n && items_equal (content n) values

unfoldable pub scalars : List Text → Nodes
scalars [] = nil
scalars (v ∷ vs) = scalar v ⋮ scalars vs

abbrev pub as_sequence : List Text → Node → Node
as_sequence services (node k tag v trivia c) =
    node sequence_node (codes "!!seq") [] trivia (scalars services)

-- `SetStartupServices` on the root.
unfoldable pub set_startup_services_root : List Text → Node → Node × Bool
set_startup_services_root services root =
    let current = mapping_value (codes "startup_services") root in
    if sequence_equals current services then (root, false) else elim current [
      | none ↦
          (append_pair (codes "startup_services") (as_sequence services empty_sequence) root, true)
      | some n ↦ (edit_value (codes "startup_services") (as_sequence services) root, true)
    ]

unfoldable pub set_startup_services : List Text → Node → Node × Bool
set_startup_services services = change_root (set_startup_services_root services)

abbrev pub as_scalar : Text → Node → Node
as_scalar executable (node k tag v trivia c) = node scalar_node (codes "!!str") executable trivia c

-- config.DefaultLlamaExecutable
abbrev pub default_llama_executable : Text
default_llama_executable = codes "llama-server"

-- `findOrCreateRouterNode(root, true)`: the root, and the pointer that is returned; none is nil.
unfoldable pub find_or_create_router : Node → Node × Option Node
find_or_create_router root = elim (mapping_value (codes "router") root) [
  | none ↦ (append_pair (codes "router") empty_mapping root, some empty_mapping)
  | some router ↦ (root, if is_mapping router then some router else none)
]

-- `mappingValue` of a pointer.
unfoldable pub pointed_value : Text → Option Node → Option Node
pointed_value key none = none
pointed_value key (some n) = mapping_value key n

-- A field of what a pointer points at is written; none is the dereference of nil.
unfoldable pub deref : Option Node → (Node → Node) → Option Node
deref none f = none
deref (some n) f = some (f n)

-- A change through the pointer.
unfoldable pub change_through : (Node → Node) → Option Node → Option (Option Node × Bool)
unfolding deref
change_through f router = elim (deref router f) [ none ↦ none | some n ↦ some (some n, true) ]

-- What follows `findOrCreateRouterNode` in `SetRouterExecutable`: what the pointer points at then and
-- whether something changed, or none where nil is dereferenced.
unfoldable pub set_executable : Text → Text → Option Node → Option (Option Node × Bool)
unfolding change_through pointed_value
set_executable executable replace router = elim (pointed_value (codes "executable") router) [
  | none ↦ change_through (append_pair (codes "executable") (scalar executable)) router
  | some current ↦
      if not (value current =ₜ default_llama_executable) && not (value current =ₜ replace)
      then some (router, false)
      else if value current =ₜ executable
      then some (router, false)
      else change_through (edit_value (codes "executable") (as_scalar executable)) router
]

-- The router that the root holds is what the pointer points at.
abbrev pub put_router : Option Node → Node → Node
put_router none root = root
put_router (some router) root = edit_value (codes "router") (λ old. router) root

-- `SetRouterExecutable`; none is a dereference of nil.
unfoldable pub set_router_executable : Text → Text → Node → Option (Node × Bool)
set_router_executable executable replace document = elim (document_root document) [
  | none ↦ some (document, false)
  | some root ↦
      let (held, router) = find_or_create_router root in
      elim (set_executable executable replace router) [
        | none ↦ none
        | some (after, changed) ↦
            some (change_root (λ old. (put_router after held, changed)) document)
      ]
]
