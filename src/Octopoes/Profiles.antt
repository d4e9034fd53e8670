-- ===== src/Octopoes/Profiles.antt =====
-- octopoes/octopoes/core/service.py: recalculate_scan_profiles. An object stands here for its
-- reference; what the repositories read from XTDB is in `Objects`. A set is a list, and its order is
-- that of the list.
pub mod Steps
pub mod Rounds
pub mod Pass
pub mod Inheritance
pub mod Starts
pub mod Levelled
use nl_kat_coordination.Prelude.{
  ℕ, zero, suc, String, List, [], ◌∷◌, ◌++◌, map, flat_map, keep, any_of, Option, none, some, Bool,
  true, false, ◌||◌, ◌&&◌, not, ltb, leb, ◌==◌, str_eq, is_some, if◌then◌else◌,
}
use nl_kat_coordination.Octopoes.Paths.{
  Types, Segment, get_paths_to_neighbours, get_max_scan_level_issuance,
}

pub data ScanProfileType : Type 0 where
  declared inherited empty : ScanProfileType

pub record ScanProfile : Type 0 where
  pub scan_profile_type : ScanProfileType
  pub reference : String
  pub level : ℕ

-- The stored objects, the class of each, and what list_neighbours finds for one reference and path.
pub record Objects : Type 0 where
  pub types : Types
  pub references : List String
  pub class_of : String → String
  pub neighbours : String → Segment → List String

-- `assigned_scan_levels`, a dictionary
abbrev pub Levels : Type 0
Levels = List (String × ℕ)

unfoldable pub level_of : String → Levels → Option ℕ
level_of r [] = none
level_of r ((s, l) ∷ rest) = if str_eq s r then some l else level_of r rest

unfoldable pub check_path_level : Option ℕ → ℕ → Bool
check_path_level none current_level = false
check_path_level (some path_level) current_level = leb current_level path_level

abbrev pub is_declared : ScanProfileType → Bool
is_declared declared = true
is_declared _ = false

unfoldable pub declared_levels : List ScanProfile → Levels
declared_levels ps =
    map (λ p. (p.reference, p.level)) (keep (λ p. is_declared p.scan_profile_type) ps)

-- `assigned_scan_levels[reference] = current_level` for those of a set that have no level, which are
-- those of the next iteration.
unfoldable pub assign : ℕ → List String → Levels → Levels × List String
unfolding level_of
assign level [] a = (a, [])
assign level (r ∷ rs) a = elim (level_of r a) [
  | some seen ↦ assign level rs a
  | none ↦ let (a', ns) = assign level rs ((r, level) ∷ a) in (a', r ∷ ns)
]

-- `{ooi.__class__ for ooi in next_ooi_set}`
unfoldable pub distinct : List String → List String
distinct [] = []
distinct (t ∷ ts) = let rest = distinct ts in if any_of (str_eq t) ts then rest else t ∷ rest

above : ℕ → Option ℕ → Bool
above current_level none = false
above current_level (some level) = ltb current_level level

module _ (obj : Objects) where
  -- The paths to neighbours all have a target type, so no issuance raises.
  unfoldable pub issues : ℕ → Segment → Bool
  unfolding check_path_level
  issues level s = elim (get_max_scan_level_issuance obj.types s) [
    | none ↦ false
    | some path_level ↦ check_path_level path_level level
  ]

  unfoldable pub list_neighbours : List String → List Segment → List String
  list_neighbours references paths = flat_map (λ r. flat_map (obj.neighbours r) paths) references

  unfoldable pub paths_at : ℕ → String → List Segment
  paths_at level t = keep (issues level) (get_paths_to_neighbours obj.types t)

  -- The neighbours of one object along the paths of its class that issue `level`
  unfoldable pub neighbours_at : ℕ → String → List String
  unfolding paths_at
  neighbours_at level r = flat_map (obj.neighbours r) (paths_at level (obj.class_of r))

  -- The loop over grouped_per_type
  unfoldable pub expand : ℕ → List String → List String → Levels → Levels × List String
  unfolding list_neighbours paths_at
  expand level next [] a = (a, [])
  expand level next (t ∷ ts) a =
      let group = keep (λ r. str_eq (obj.class_of r) t) next in
      let (a', ns) = assign level (list_neighbours group (paths_at level t)) a in
      let (a'', ns') = expand level next ts a' in (a'', ns ++ ns')

  -- `while next_ooi_set`; none where the fuel is spent.
  unfoldable pub propagate : ℕ → ℕ → List String → Levels → Option Levels
  unfolding expand
  propagate zero level next a = none
  propagate (suc fuel) level [] a = some a
  propagate (suc fuel) level (r ∷ rs) a =
      let (a', ns) = expand level (r ∷ rs) (distinct (map obj.class_of (r ∷ rs))) a in
      propagate fuel level ns a'

  -- load_bulk of the declared references of this level and of all that have a higher level
  unfoldable pub start : ℕ → List ScanProfile → Levels → List String
  unfolding above
  start level ps a =
      keep
        (λ r.
          any_of
            (λ (p : ScanProfile).
              is_declared p.scan_profile_type && (p.level == level && str_eq p.reference r))
            ps
          || above level (level_of r a))
        obj.references

  unfoldable pub level_pass : ℕ → ℕ → List ScanProfile → Levels → Option Levels
  unfolding start propagate
  level_pass fuel level ps a = propagate fuel level (start level ps a) a

  unfoldable pub then_pass : ℕ → ℕ → List ScanProfile → Option Levels → Option Levels
  then_pass fuel level ps none = none
  then_pass fuel level ps (some a) = level_pass fuel level ps a

  -- `for current_level in range(4, 0, -1)`
  unfoldable pub assigned_scan_levels : ℕ → List ScanProfile → Option Levels
  unfolding then_pass declared_levels
  assigned_scan_levels fuel ps =
      then_pass fuel 1 ps
        (then_pass fuel 2 ps (then_pass fuel 3 ps (level_pass fuel 4 ps (declared_levels ps))))
