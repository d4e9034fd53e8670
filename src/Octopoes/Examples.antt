-- ===== src/Octopoes/Examples.antt =====
-- Segments and scan levels of a small set of objects, and the theorems there.
pub mod Collected
pub mod Leaked
pub mod Ported
pub mod Explained
use nl_kat_coordination.Prelude.{
  ℕ, ◌≤◌, List, [], ◌∷◌, none, some, ◌≡◌, ◌↔◌, refl, arith, Memᴰ, inl, inr, ◌⊎◌, str_eq,
  if◌then◌else◌, Bool-cases, flat_map, ap, ◌++◌,
}
use nl_kat_coordination.Octopoes.Paths
use nl_kat_coordination.Octopoes.Paths.{
  Direction, Segment, Types, reverse, get_max_scan_level_issuance, get_max_scan_level_inheritance,
  get_paths_to_neighbours, issuance-reverse,
}
use nl_kat_coordination.Octopoes.Paths.Reversed.{reverse-outgoing}
use nl_kat_coordination.Octopoes.Profiles
use nl_kat_coordination.Octopoes.Profiles.{
  ScanProfileType, ScanProfile, Objects, Levels, level_of, declared_levels, start, propagate,
  assigned_scan_levels,
}
use nl_kat_coordination.Octopoes.Profiles.Pass.{IsStored, IsReached, propagate_reaches}
use nl_kat_coordination.Octopoes.Profiles.Inheritance.{Inherits}
use nl_kat_coordination.Octopoes.Profiles.Starts.{IsKeyed}
use nl_kat_coordination.Octopoes.Profiles.Levelled.{assigned_scan_levels_iff}
use nl_kat_coordination.Octopoes.Recalculation.{
  references_to_reset, first_with, InheritedScanProfile, profile_of, saved,
  recalculate_scan_profiles,
}
use nl_kat_coordination.Octopoes.Recalculation.Stores.{IsOne}
use nl_kat_coordination.Octopoes.Recalculation.Unassigned.{IsEmptyZero}
use nl_kat_coordination.Octopoes.Recalculation.Saved.{
  recalculate_scan_profiles_iff, recalculate_scan_profiles_keeps,
}

-- An IP address issues up to level 2 to its ports, and a port inherits nothing to its address.
abbrev types : Types
types = record {
  concrete_types = "IPAddress" ∷ "IPPort" ∷ [];
  relations = λ t. if str_eq t "IPPort" then ("address", "IPAddress") ∷ [] else [];
  concretes = λ t. t ∷ [];
  max_issue_scan_level = λ t f. none;
  max_inherit_scan_level = λ t f. some 2;
}

abbrev to_port : Segment
to_port = record {
  source_type = "IPAddress";
  direction = Direction.incoming;
  property_name = "address";
  target_type = some "IPPort";
}

abbrev to_address : Segment
to_address = record {
  source_type = "IPPort";
  direction = Direction.outgoing;
  property_name = "address";
  target_type = some "IPAddress";
}

abbrev objects : Objects
objects = record {
  types = types;
  references = "IPAddress|1" ∷ "IPPort|80" ∷ [];
  class_of = λ r. if str_eq r "IPPort|80" then "IPPort" else "IPAddress";
  neighbours = λ r s. if str_eq r "IPPort|80" then "IPAddress|1" ∷ [] else "IPPort|80" ∷ [];
}

abbrev profiles : List ScanProfile
profiles =
    record { scan_profile_type = ScanProfileType.declared; reference = "IPAddress|1"; level = 4 }
    ∷ []

program : Unit {0}
unfolding Paths.reverse get_max_scan_level_issuance get_max_scan_level_inheritance
    get_paths_to_neighbours level_of declared_levels start propagate assigned_scan_levels flat_map
    Profiles.issues Profiles.level_pass Profiles.assign Profiles.distinct
program = tt

paths_of_address : get_paths_to_neighbours types "IPAddress" ≡ to_port ∷ []
unfolding program
paths_of_address = refl

-- The declared level 4 of the address reaches its port as level 2.
levels_of_objects :
    assigned_scan_levels objects 4 profiles ≡ some (("IPPort|80", 2) ∷ ("IPAddress|1", 4) ∷ [])
unfolding program
levels_of_objects = refl

objects-IsStored : IsStored objects
objects-IsStored r y s m = elim (Bool-cases (str_eq r "IPPort|80")) [
  | inl e ↦ first_one (rw e at m)
  | inr e ↦ second_one (rw e at m)
]
  where
    first_one : Memᴰ y ("IPAddress|1" ∷ []) → Memᴰ y objects.references
    first_one (Memᴰ.head e) = Memᴰ.head e
    first_one (Memᴰ.tail k) = elim k [ ]

    second_one : Memᴰ y ("IPPort|80" ∷ []) → Memᴰ y objects.references
    second_one (Memᴰ.head e) = Memᴰ.tail (Memᴰ.head e)
    second_one (Memᴰ.tail k) = elim k [ ]

profiles-IsKeyed : IsKeyed profiles
profiles-IsKeyed p q (Memᴰ.head e) (Memᴰ.head k) h = rw (e, k) refl
profiles-IsKeyed p q (Memᴰ.head e) (Memᴰ.tail k) h = elim k [ ]
profiles-IsKeyed p q (Memᴰ.tail e) k h = elim e [ ]

issuance-reverse_example :
    (get_max_scan_level_issuance types to_address ≡ get_max_scan_level_inheritance types to_port)
    × (get_max_scan_level_inheritance types to_address ≡ get_max_scan_level_issuance types to_port)
unfolding program
issuance-reverse_example = issuance-reverse types to_port to_address refl

reverse-outgoing_example :
    (r : Segment) × (reverse to_address ≡ some r)
    × Memᴰ r (get_paths_to_neighbours types "IPAddress")
    × (reverse r ≡ some to_address)
unfolding program
reverse-outgoing_example =
    reverse-outgoing types "IPPort" "IPAddress" to_address (Memᴰ.tail (Memᴰ.head refl)) refl
      (Memᴰ.head refl) refl refl

propagate_reaches_example :
    (a : Levels) × (propagate objects 4 2 ("IPAddress|1" ∷ []) (("IPAddress|1", 4) ∷ []) ≡ some a)
    × ((level_of "IPPort|80" a ≡ some 2)
        ↔ IsReached objects 2 ("IPAddress|1" ∷ []) (("IPAddress|1", 4) ∷ []) "IPPort|80")
    × ((level_of "IPPort|80" a ≡ some 2) ⊎ level_of "IPPort|80" a ≡ none)
unfolding program
propagate_reaches_example =
    propagate_reaches objects 2 objects-IsStored ("IPAddress|1" ∷ []) (("IPAddress|1", 4) ∷ [])
      "IPPort|80" refl

assigned_scan_levels_iff_example :
    (a : Levels) × (assigned_scan_levels objects 4 profiles ≡ some a)
    × (((l : ℕ) × (level_of "IPPort|80" a ≡ some l) × (2 ≤ l))
        ↔ Inherits objects profiles 2 "IPPort|80")
unfolding program
assigned_scan_levels_iff_example =
    assigned_scan_levels_iff objects profiles profiles-IsKeyed objects-IsStored "IPPort|80" 2
      (omega arith) (omega arith) refl

profiles-IsOne : IsOne profiles
profiles-IsOne p q (Memᴰ.head e) (Memᴰ.head k) h = rw (e, k) refl
profiles-IsOne p q (Memᴰ.head e) (Memᴰ.tail k) h = elim k [ ]
profiles-IsOne p q (Memᴰ.tail e) k h = elim e [ ]

profiles-IsEmptyZero : IsEmptyZero profiles
profiles-IsEmptyZero p (Memᴰ.head e) h = absurd (ground (arith, ap (λ z. z.scan_profile_type) e, h))
profiles-IsEmptyZero p (Memᴰ.tail m) h = elim m [ ]

-- The port gets an inherited profile.
saved_profiles :
    recalculate_scan_profiles objects profiles 4
    ≡ saved (profiles ++ InheritedScanProfile "IPPort|80" 2 ∷ [])
unfolding program recalculate_scan_profiles references_to_reset first_with
saved_profiles = refl

recalculate_scan_profiles_iff_example :
    (s : List ScanProfile) × (p : ScanProfile) × (recalculate_scan_profiles objects profiles 4
      ≡ saved s)
    × (profile_of "IPPort|80" s ≡ some p)
    × ((2 ≤ p.level) ↔ Inherits objects profiles 2 "IPPort|80")
unfolding program
recalculate_scan_profiles_iff_example =
    recalculate_scan_profiles_iff objects profiles "IPPort|80" 2 profiles-IsOne profiles-IsEmptyZero
      objects-IsStored (Memᴰ.tail (Memᴰ.head refl)) refl (omega arith) (omega arith)

recalculate_scan_profiles_keeps_example :
    (s : List ScanProfile) × (recalculate_scan_profiles objects profiles 4 ≡ saved s)
    × (profile_of "IPAddress|1" s ≡ profile_of "IPAddress|1" profiles)
unfolding program
recalculate_scan_profiles_keeps_example =
    recalculate_scan_profiles_keeps objects profiles "IPAddress|1" 4 profiles-IsOne
      profiles-IsEmptyZero objects-IsStored refl
