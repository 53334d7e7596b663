-- ===== src/ConfigStore.antt =====
-- core/configstore/config_store.go: config.yaml as a tree of YAML nodes, and reading a mapping.
pub mod Edits
pub mod Laws
pub mod Autostart
pub mod References
pub mod Presets
pub mod Switching
pub mod Reports
pub mod Startup
pub mod Store
mod Tests
use llamarig.Common.{◌≡◌, refl, Bool, true, false, ◌&&◌, Option, none, some, if◌then◌else◌}
use llamarig.Common.Text.{Text, codes, ◌=ₜ◌}

pub data Kind : Type 0 where
  document_node mapping_node sequence_node scalar_node alias_node : Kind

infixr 20 ◌⋮◌
mutual
  -- yaml.Node. `trivia` stands for the fields that the store never writes: style, anchor, comments,
  -- position.
  pub data Node : Type 0 where
    node : Kind → Text → Text → Text → Nodes → Node

  pub data Nodes : Type 0 where
    nil : Nodes
    ◌⋮◌ : Node → Nodes → Nodes

abbrev pub kind : Node → Kind
kind (node k t v m c) = k

abbrev pub value : Node → Text
value (node k t v m c) = v

abbrev pub content : Node → Nodes
content (node k t v m c) = c

abbrev pub is_mapping : Node → Bool
is_mapping (node mapping_node t v m c) = true
is_mapping _ = false

abbrev pub is_sequence : Node → Bool
is_sequence (node sequence_node t v m c) = true
is_sequence _ = false

-- The value behind the first key of that text; a key without a value is not looked at.
unfoldable pub find_value : Text → Nodes → Option Node
find_value key nil = none
find_value key (k ⋮ nil) = none
find_value key (k ⋮ v ⋮ rest) = if value k =ₜ key then some v else find_value key rest

-- `mappingValue`
unfoldable pub mapping_value : Text → Node → Option Node
unfolding find_value
mapping_value key n = if is_mapping n then find_value key (content n) else none

-- `documentRoot`
unfoldable pub document_root : Node → Option Node
document_root (node k t v m nil) = none
document_root (node k t v m (root ⋮ rest)) = if is_mapping root then some root else none
