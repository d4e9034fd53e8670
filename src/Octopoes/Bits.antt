-- ===== src/Octopoes/Bits.antt =====
-- octopoes/bits/definitions.py and find_relation_in_tree of octopoes/octopoes/core/service.py: what
-- the service reads of the bits. Their code, the classes of objects and the queries that find trees
-- and configurations are parameters, in `Environment`.
use nl_kat_coordination.Prelude.{
  ℕ, String, List, [], ◌∷◌, flat_map, Option, none, some, Bool, str_eq, if◌then◌else◌,
}
use nl_kat_coordination.Octopoes.Origins.{Ooi}
use nl_kat_coordination.Octopoes.Session.{Store}

-- The path is split at its dots.
pub record BitParameterDefinition : Type 0 where
  pub ooi_type : String
  pub relation_path : List String

pub record BitDefinition : Type 0 where
  pub id : String
  pub consumes : String
  pub parameters : List BitParameterDefinition
  pub min_scan_level : ℕ
  pub default_enabled : Bool
  pub config_ooi_relation_path : Option String

-- A node with its children, each under the name of its attribute
mutual
  pub data ReferenceNode : Type 0 where
    node : String → Children → ReferenceNode

  pub data Children : Type 0 where
    no_children : Children
    child : String → ReferenceNode → Children → Children

abbrev reference : ReferenceNode → String
reference (node r c) = r

unfoldable pub children_under : String → Children → List ReferenceNode
children_under part no_children = []
children_under part (child name n rest) =
    let later = children_under part rest in if str_eq name part then n ∷ later else later

abbrev children : ReferenceNode → Children
children (node r c) = c

-- `for part in parts`
unfoldable pub descend : List String → List ReferenceNode → List ReferenceNode
unfolding children_under
descend [] nodes = nodes
descend (part ∷ parts) nodes =
    descend parts (flat_map (λ n. children_under part (children n)) nodes)

references : List ReferenceNode → List String
references [] = []
references (n ∷ ns) = reference n ∷ references ns

-- The objects stand here for their references.
unfoldable pub find_relation_in_tree : List String → ReferenceNode → List String
unfolding descend references
find_relation_in_tree parts root = references (descend parts (root ∷ []))

abbrev pub Config : Type 0
Config = List (String × String)

pub record Environment : Type 0 where
  pub bit_definitions : List BitDefinition
  pub bits_enabled : List String
  pub bits_disabled : List String
  -- isinstance, of the name of an object's class and that of another
  pub is_instance : String → String → Bool
  -- none is an exception.
  pub run_bit : BitDefinition → Ooi → List Ooi → Config → Option (List Ooi)
  pub get_bit_configs : Store → Ooi → BitDefinition → List Config
  -- none is an ObjectNotFoundException.
  pub get_tree : Store → String → ℕ → Option ReferenceNode

-- `get_bit_definitions().get(method)`
unfoldable pub bit_with : String → List BitDefinition → Option BitDefinition
bit_with method [] = none
bit_with method (b ∷ bs) =
    let rest = bit_with method bs in if str_eq b.id method then some b else rest
