-- ===== src/Octopoes/Examples/Explained.antt =====
-- The explanation of the level of a service by its port and the declared address of that.
use nl_kat_coordination.Prelude.{
  String, List, [], ◌∷◌, none, some, str_eq, ◌≡◌, refl, arith, Memᴰ, flat_map, sort_by,
  if◌then◌else◌, Bool-cases, inl, inr,
}
use nl_kat_coordination.Octopoes.Paths.{
  Types, get_paths_to_neighbours, get_max_scan_level_inheritance,
}
use nl_kat_coordination.Octopoes.Profiles.{ScanProfile, ScanProfileType, Objects, check_path_level}
use nl_kat_coordination.Octopoes.Profiles.Pass.{IsStored}
use nl_kat_coordination.Octopoes.Recalculation.{first_with}
use nl_kat_coordination.Octopoes.Explanations
use nl_kat_coordination.Octopoes.Explanations.{
  InheritanceSection, explained, get_scan_profile_inheritance,
}
use nl_kat_coordination.Octopoes.Explanations.Explained.{IsExplained}
use nl_kat_coordination.Octopoes.Explanations.Answered.{get_scan_profile_inheritance-IsExplained}

abbrev types : Types
types = record {
  concrete_types = "IPAddress" ∷ "IPPort" ∷ "IPService" ∷ [];
  relations = λ t.
      if str_eq t "IPPort"
      then ("address", "IPAddress") ∷ []
      else (if str_eq t "IPService" then ("ip_port", "IPPort") ∷ [] else []);
  concretes = λ t. t ∷ [];
  max_issue_scan_level = λ t f. some 1;
  max_inherit_scan_level = λ t f. some 2;
}

abbrev neighbour_of : String → List String
neighbour_of field =
    if str_eq field "address"
    then "IPAddress|1" ∷ "IPPort|80" ∷ []
    else "IPPort|80" ∷ "IPService|http" ∷ []

abbrev objects : Objects
objects = record {
  types = types;
  references = "IPAddress|1" ∷ "IPPort|80" ∷ "IPService|http" ∷ [];
  class_of = λ r.
      if str_eq r "IPPort|80"
      then "IPPort"
      else (if str_eq r "IPService|http" then "IPService" else "IPAddress");
  neighbours = λ r s. neighbour_of s.property_name;
}

abbrev profiles : List ScanProfile
profiles =
    record { scan_profile_type = ScanProfileType.declared; reference = "IPAddress|1"; level = 4 }
    ∷ record { scan_profile_type = ScanProfileType.inherited; reference = "IPPort|80"; level = 2 }
    ∷ record {
      scan_profile_type = ScanProfileType.inherited;
      reference = "IPService|http";
      level = 2;
    }
    ∷ []

abbrev service : InheritanceSection
service = record {
  reference = "IPService|http";
  level = 2;
  inherited_level = none;
  segment = none;
  scan_profile_type = ScanProfileType.inherited;
}

abbrev port : InheritanceSection
port = record {
  reference = "IPPort|80";
  level = 2;
  inherited_level = some 2;
  segment = some "ip_port";
  scan_profile_type = ScanProfileType.inherited;
}

abbrev address : InheritanceSection
address = record {
  reference = "IPAddress|1";
  level = 4;
  inherited_level = some 2;
  segment = some "address";
  scan_profile_type = ScanProfileType.declared;
}

service_explained :
    get_scan_profile_inheritance objects profiles 4 "IPService|http" (service ∷ [])
    ≡ explained (service ∷ port ∷ address ∷ [])
unfolding get_scan_profile_inheritance Explanations.inheritances Explanations.inheritances_of
    Explanations.inheritances_along Explanations.path_can_inherit_level
    Explanations.max_inheritance_level Explanations.scan_profile_of Explanations.first_explained
    Explanations.last_of Explanations.best_inheritances Explanations.put_best Explanations.exceeds
    Explanations.sorts_before Explanations.text_of get_paths_to_neighbours
    get_max_scan_level_inheritance check_path_level flat_map sort_by first_with
service_explained = refl

objects-IsStored : IsStored objects
objects-IsStored r y s m = elim (Bool-cases (str_eq s.property_name "address")) [
  | inl e ↦ of_address (rw e at m)
  | inr e ↦ of_ip_port (rw e at m)
]
  where
    of_address :
        Memᴰ y ("IPAddress|1" ∷ "IPPort|80" ∷ [])
        → Memᴰ y ("IPAddress|1" ∷ "IPPort|80" ∷ "IPService|http" ∷ [])
    of_address (Memᴰ.head e) = Memᴰ.head e
    of_address (Memᴰ.tail (Memᴰ.head e)) = Memᴰ.tail (Memᴰ.head e)
    of_address (Memᴰ.tail (Memᴰ.tail n)) = elim n [ ]

    of_ip_port :
        Memᴰ y ("IPPort|80" ∷ "IPService|http" ∷ [])
        → Memᴰ y ("IPAddress|1" ∷ "IPPort|80" ∷ "IPService|http" ∷ [])
    of_ip_port n = Memᴰ.tail n

get_scan_profile_inheritance-IsExplained_example :
    IsExplained objects profiles "IPService|http" 2
      ("IPService|http" ∷ [])
      (service ∷ [])
      (get_scan_profile_inheritance objects profiles 4 "IPService|http" (service ∷ []))
unfolding Explanations.last_of
get_scan_profile_inheritance-IsExplained_example =
    get_scan_profile_inheritance-IsExplained objects profiles objects-IsStored 4 "IPService|http"
      (service ∷ []) service refl (omega arith)
