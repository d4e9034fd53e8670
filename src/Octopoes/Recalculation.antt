-- ===== src/Octopoes/Recalculation.antt =====
-- octopoes/octopoes/core/service.py: recalculate_scan_profiles, and save of
-- repositories/scan_profile_repository.py. The stored profiles are a list with one profile for
-- each reference. Queries read what was stored before, since a session writes when it commits.
pub mod Grown
pub mod Stores
pub mod Assigned
pub mod Unassigned
pub mod Saved
use nl_kat_coordination.Prelude.{
  ℕ, String, List, [], ◌∷◌, map, keep, any_of, Option, none, some, Bool, true, false, ◌&&◌, not,
  ltb, ◌==◌, str_eq, is_some, if◌then◌else◌,
}
use nl_kat_coordination.Octopoes.Profiles.{
  ScanProfileType, ScanProfile, Objects, Levels, level_of, declared_levels, assigned_scan_levels,
}

abbrev pub same_type : ScanProfileType → ScanProfileType → Bool
same_type ScanProfileType.declared ScanProfileType.declared = true
same_type ScanProfileType.inherited ScanProfileType.inherited = true
same_type ScanProfileType.empty ScanProfileType.empty = true
same_type _ _ = false

-- ScanProfileBase.__eq__
unfoldable pub same_profile : ScanProfile → ScanProfile → Bool
same_profile p q =
    same_type p.scan_profile_type q.scan_profile_type
    && (str_eq p.reference q.reference && p.level == q.level)

abbrev pub InheritedScanProfile : String → ℕ → ScanProfile
InheritedScanProfile r l = record {
  scan_profile_type = ScanProfileType.inherited;
  reference = r;
  level = l;
}

abbrev pub EmptyScanProfile : String → ScanProfile
EmptyScanProfile r = record { scan_profile_type = ScanProfileType.empty; reference = r; level = 0 }

unfoldable pub first_with : (ScanProfile → Bool) → List ScanProfile → Option ScanProfile
first_with test [] = none
first_with test (p ∷ ps) = if test p then some p else first_with test ps

abbrev pub profile_of : String → List ScanProfile → Option ScanProfile
profile_of r ps = first_with (λ p. str_eq p.reference r) ps

-- `inherited_scan_profiles`, a dictionary
abbrev pub inherited_of : String → List ScanProfile → Option ScanProfile
inherited_of r ps =
    first_with
      (λ p. same_type p.scan_profile_type ScanProfileType.inherited && str_eq p.reference r) ps

-- A PUT under the key of the reference
unfoldable pub put : ScanProfile → List ScanProfile → List ScanProfile
put p [] = p ∷ []
put p (q ∷ qs) = let rest = put p qs in if str_eq q.reference p.reference then p ∷ qs else q ∷ rest

unfoldable pub save : Option ScanProfile → ScanProfile → List ScanProfile → List ScanProfile
unfolding put same_profile
save none new store = put new store
save (some old) new store = if same_profile old new then store else put new store

unfoldable pub save_inherited :
    Option ScanProfile → String → ℕ → List ScanProfile → List ScanProfile
unfolding save
save_inherited none r l store = save none (InheritedScanProfile r l) store
save_inherited (some old) r l store =
    if old.level == l then store else save (some old) (InheritedScanProfile r l) store

module _ (ps : List ScanProfile) where
  abbrev pub is_source : String → Bool
  is_source r = is_some (level_of r (declared_levels ps))

  -- The first entry is the one that was assigned last.
  unfoldable pub save_assigned : Levels → List ScanProfile → List ScanProfile
  unfolding save_inherited
  save_assigned [] store = store
  save_assigned ((r, l) ∷ rest) store =
      let before = save_assigned rest store in
      if is_source r then before else save_inherited (inherited_of r ps) r l before

  -- `inherited_scan_profiles[reference]`; none is a KeyError.
  unfoldable pub reset : List String → List ScanProfile → Option (List ScanProfile)
  reset [] store = some store
  reset (r ∷ rs) store = elim (inherited_of r ps) [
    | none ↦ none
    | some old ↦ reset rs (save (some old) (EmptyScanProfile r) store)
  ]

  unfoldable pub references_to_reset : Levels → List String
  references_to_reset a =
      keep (λ r. not (is_some (level_of r a)) && not (is_source r))
        (map (λ (p : ScanProfile). p.reference) (keep (λ (p : ScanProfile). ltb 0 p.level) ps))

unfoldable pub save_empty : List String → List ScanProfile → List ScanProfile
save_empty [] store = store
save_empty (r ∷ rs) store = save_empty rs (save none (EmptyScanProfile r) store)

pub data Outcome : Type 0 where
  saved : List ScanProfile → Outcome
  key_error out_of_fuel : Outcome

module _ (obj : Objects) (ps : List ScanProfile) where
  -- list_oois_without_scan_profile, less those that the other loops save
  unfoldable pub unset_references : Levels → List String
  unset_references a =
      keep
        (λ r.
          not (is_some (profile_of r ps))
          && (not (is_some (level_of r a))
              && (not (is_source ps r) && not (any_of (str_eq r) (references_to_reset ps a)))))
        obj.references

  after_reset : Levels → Option (List ScanProfile) → Outcome
  after_reset a none = key_error
  after_reset a (some store) = saved (save_empty (unset_references a) store)

  save_levels : Option Levels → Outcome
  unfolding after_reset save_assigned reset unset_references save_empty
  save_levels none = out_of_fuel
  save_levels (some a) = after_reset a (reset ps (references_to_reset ps a) (save_assigned ps a ps))

  unfoldable pub recalculate_scan_profiles : ℕ → Outcome
  unfolding save_levels
  recalculate_scan_profiles fuel = save_levels (assigned_scan_levels obj fuel ps)
