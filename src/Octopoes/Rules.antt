-- ===== src/Octopoes/Rules.antt =====
-- octopoes/bits: rules that find what is wrong with an object. The texts of their findings are left
-- out, save for the ports that they name.
pub mod Ports
pub mod PortCommon
pub mod Reported
use nl_kat_coordination.Prelude.{ℕ, String, List, [], ◌∷◌, ◌++◌}

-- What a rule yields: a finding type, or a finding of a type on an object
pub data Yield : Type 0 where
  finding_type : String → Yield
  finding : String → String → List ℕ → Yield

-- The ports that the findings name, in their order
unfoldable pub named_ports : List Yield → List ℕ
named_ports [] = []
named_ports (finding_type id ∷ ys) = named_ports ys
named_ports (finding id ooi ports ∷ ys) = ports ++ named_ports ys
