-- ===== src/Octopoes/Explanations.antt =====
-- octopoes/octopoes/core/service.py: get_scan_profile_inheritance, which explains a scan level by a chain
-- of neighbours that ends at a declared one. An object stands here for its reference, so the instances
-- of one object that two paths lead to are one. A set of paths is a list.
pub mod Candidates
pub mod Best
pub mod Explained
pub mod Answered
use nl_kat_coordination.Prelude.{
  ℕ, zero, suc, String, List, [], ◌∷◌, ◌++◌, map, flat_map, keep, any_of, first, length, sort_by,
  Option, none, some, Bool, true, false, ◌&&◌, not, ltb, leb, str_eq, if◌then◌else◌,
}
use nl_kat_coordination.Octopoes.Paths.{
  Direction, Types, Segment, get_paths_to_neighbours, get_max_scan_level_inheritance,
}
use nl_kat_coordination.Octopoes.Profiles.{
  ScanProfileType, ScanProfile, Objects, is_declared, check_path_level,
}
use nl_kat_coordination.Octopoes.Recalculation.{EmptyScanProfile, profile_of}
use Prim.Native.Nat.{Ordering, compare as compare_ℕ}
use Prim.Native.String.{compare as compare_text, ◌++◌ as join}

pub record InheritanceSection : Type 0 where
  pub reference : String
  pub level : ℕ
  pub inherited_level : Option ℕ
  pub segment : Option String
  pub scan_profile_type : ScanProfileType

-- The answer, a ValueError for an empty chain, or the fuel is spent
pub data Explanation : Type 0 where
  explained : List InheritanceSection → Explanation
  value_error out_of_fuel : Explanation

text_by : Direction → String → Option String → String
text_by Direction.incoming name (some target) = join "<" (join name (join "[is " (join target "]")))
text_by Direction.incoming name none = ""
text_by Direction.outgoing name target = name

-- `str(segment)`; a path to a neighbour has a target, so none raises.
unfoldable pub text_of : Segment → String
unfolding text_by
text_of s = text_by s.direction s.property_name s.target_type

-- The order of a key's next part where the first is equal
next_key : Ordering → Ordering → Ordering
next_key Ordering.lt later = Ordering.lt
next_key Ordering.eq later = later
next_key Ordering.gt later = Ordering.gt

-- The sections that are compared are of neighbours, and have both.
segment_key : Option String → String
segment_key none = ""
segment_key (some s) = s

inherited_key : Option ℕ → ℕ
inherited_key none = 0
inherited_key (some l) = l

at_most : Ordering → Bool
at_most Ordering.gt = false
at_most _ = true

-- `key=lambda inheritance: (-inheritance.level, str(inheritance.reference), inheritance.segment)`
unfoldable pub sorts_before : InheritanceSection → InheritanceSection → Bool
unfolding next_key segment_key at_most
sorts_before x y = at_most (
    next_key (compare_ℕ y.level x.level) (
      next_key (compare_text x.reference y.reference)
        (compare_text (segment_key x.segment) (segment_key y.segment))))

-- `(level, inherited_level, segment) > (current.level, ...)`
unfoldable pub exceeds : InheritanceSection → InheritanceSection → Bool
unfolding next_key segment_key inherited_key at_most
exceeds x y = not (
    at_most (
      next_key (compare_ℕ x.level y.level) (
        next_key (compare_ℕ (inherited_key x.inherited_level) (inherited_key y.inherited_level))
          (compare_text (segment_key x.segment) (segment_key y.segment)))))

-- One turn of the loop that fills `best_inheritance_per_neighbour`, a dictionary by references
unfoldable pub put_best : InheritanceSection → List InheritanceSection → List InheritanceSection
put_best x [] = x ∷ []
put_best x (y ∷ ys) =
    let rest = put_best x ys in
    if str_eq y.reference x.reference then (if exceeds x y then x else y) ∷ ys else y ∷ rest

unfoldable pub best_inheritances :
    List InheritanceSection → List InheritanceSection → List InheritanceSection
best_inheritances best [] = best
best_inheritances best (x ∷ xs) = best_inheritances (put_best x best) xs

unfoldable pub last_of : List InheritanceSection → Option InheritanceSection
last_of [] = none
last_of (x ∷ []) = some x
last_of (x ∷ y ∷ ys) = last_of (y ∷ ys)

abbrev pub has_declared : Option InheritanceSection → Bool
has_declared none = false
has_declared (some x) = is_declared x.scan_profile_type

-- The loop over the neighbours, each with the explanation of its own level
unfoldable pub first_explained :
    (InheritanceSection → Explanation)
    → List InheritanceSection
    → List InheritanceSection
    → Explanation
first_explained explain chain [] = explained chain
first_explained explain chain (x ∷ xs) =
    let rest = first_explained explain chain xs in
    elim (explain x) [
      | explained e ↦
          if ltb (length chain) (length e) && has_declared (last_of e) then explained e else rest
      | value_error ↦ value_error
      | out_of_fuel ↦ out_of_fuel
    ]

-- `_populate_scan_profiles` of one neighbour
unfoldable pub scan_profile_of : List ScanProfile → String → ScanProfile
scan_profile_of ps r = elim (profile_of r ps) [ some p ↦ p | none ↦ EmptyScanProfile r ]

abbrev pub min_level : ℕ → ℕ → ℕ
min_level a b = if leb a b then a else b

abbrev pub section_of : ScanProfile → Segment → String → ℕ → InheritanceSection
section_of p s r max_level = record {
  reference = r;
  level = p.level;
  inherited_level = some (min_level max_level p.level);
  segment = some (text_of s);
  scan_profile_type = p.scan_profile_type;
}

module _ (obj : Objects) where
  -- The paths to neighbours all have a target type, so no inheritance raises.
  unfoldable pub max_inheritance_level : Segment → Option ℕ
  max_inheritance_level s = elim (get_max_scan_level_inheritance obj.types s) [
    | none ↦ none
    | some l ↦ l
  ]

  unfoldable pub path_can_inherit_level : ℕ → Segment → Bool
  unfolding max_inheritance_level check_path_level
  path_can_inherit_level required_level s =
      check_path_level (max_inheritance_level s) required_level

module _ (obj : Objects) (ps : List ScanProfile) where
  -- The sections of the neighbours along one segment: the transferable level is the required one.
  unfoldable pub inheritances_along : ℕ → Segment → ℕ → List String → List InheritanceSection
  inheritances_along required_level s max_level [] = []
  inheritances_along required_level s max_level (r ∷ rs) =
      let rest = inheritances_along required_level s max_level rs in
      let x = section_of (scan_profile_of ps r) s r max_level in
      let inherited_level = min_level max_level x.level in
      if ltb inherited_level required_level
      then rest
      else (if ltb required_level inherited_level then rest else x ∷ rest)

  -- The edges along one eligible path, without those to visited objects
  unfoldable pub inheritances_of : String → ℕ → List String → Segment → List InheritanceSection
  inheritances_of r required_level visited s = elim (max_inheritance_level obj s) [
    | none ↦ []
    | some max_level ↦
        if ltb max_level required_level
        then []
        else inheritances_along required_level s max_level
            (keep (λ n. not (any_of (str_eq n) visited)) (obj.neighbours r s))
  ]

  -- `inheritances`, sorted; where there is no eligible path or edge there are none.
  unfoldable pub inheritances : String → ℕ → List String → List InheritanceSection
  inheritances r required_level visited = sort_by sorts_before (
      flat_map (inheritances_of r required_level visited) (
        keep (path_can_inherit_level obj required_level)
          (get_paths_to_neighbours obj.types (obj.class_of r))))

  -- Without inheritances the chain is the answer, as it is of the loop over none.
  unfoldable pub get_scan_profile_inheritance : ℕ → String → List InheritanceSection → Explanation
  get_scan_profile_inheritance zero r chain = out_of_fuel
  get_scan_profile_inheritance (suc fuel) r chain = elim (last_of chain) [
    | none ↦ value_error
    | some latest ↦
        let xs =
          inheritances r latest.level (map (λ (x : InheritanceSection). x.reference) chain) in
        elim (first (keep (λ (x : InheritanceSection). is_declared x.scan_profile_type) xs)) [
          | some x ↦ explained (chain ++ x ∷ [])
          | none ↦
              first_explained (λ x. get_scan_profile_inheritance fuel x.reference (chain ++ x ∷ []))
                chain (sort_by sorts_before (best_inheritances [] xs))
        ]
  ]
