-- ===== src/Octopoes/Recalculation/Saved.antt =====
-- The profiles that recalculate_scan_profiles leaves.
use nl_kat_coordination.Prelude.{
  ℕ, ◌+◌, ◌≤◌, String, List, length, any_of, Option, none, some, Bool, true, false, ◌&&◌, not, ◌≡◌,
  ◌↔◌, ◌∙◌, refl, ap, arith, Memᴰ, inl, inr, Option-cases, Bool-cases, str_eq, str_eq_iff, is_some,
  if◌then◌else◌, mem-keep_of,
}
use nl_kat_coordination.Octopoes.Profiles.{ScanProfile, Objects, Levels, level_of, declared_levels}
use nl_kat_coordination.Octopoes.Profiles.Pass.{IsStored}
use nl_kat_coordination.Octopoes.Profiles.Inheritance.{declared_level, Inherits, Inherits-lower}
use nl_kat_coordination.Octopoes.Profiles.Levelled.{all_passes}
use nl_kat_coordination.Octopoes.Recalculation.{
  InheritedScanProfile, EmptyScanProfile, profile_of, is_source, save_assigned, references_to_reset,
  unset_references, save_empty, saved, save_levels, recalculate_scan_profiles,
}
use nl_kat_coordination.Octopoes.Recalculation.Grown.{assigned-IsGrown}
use nl_kat_coordination.Octopoes.Recalculation.Stores.{
  IsOne, first_with_lem, profile_of-reset, profile_of-save_empty,
}
use nl_kat_coordination.Octopoes.Recalculation.Assigned.{
  expected, source-save_assigned, profile_of-save_assigned,
}
use nl_kat_coordination.Octopoes.Recalculation.Unassigned.{
  IsEmptyZero, reset-found, reset-unassigned, reset_of_positive, listed-keep, listed_of_mem,
  to_reset, positive,
}

module _ (obj : Objects) (ps : List ScanProfile) (a : Levels) where
  abbrev is_unset : String → Bool
  is_unset r =
      not (is_some (profile_of r ps))
      && (not (is_some (level_of r a))
          && (not (is_source ps r) && not (any_of (str_eq r) (references_to_reset ps a))))

  unset-unassigned :
      (y : String) → any_of (str_eq y) (unset_references obj ps a) ≡ true → level_of y a ≡ none
  unfolding unset_references
  unset-unassigned y h = elim (Option-cases (level_of y a)) [
    | inl n ↦ n
    | inr (l, e) ↦ absurd (ground (arith, e, listed-keep y is_unset obj.references h))
  ]

  unset_of_missing :
      (y : String)
      → Memᴰ y obj.references
      → profile_of y ps ≡ none
      → level_of y a ≡ none
      → level_of y (declared_levels ps) ≡ none
      → any_of (str_eq y) (references_to_reset ps a) ≡ false
      → any_of (str_eq y) (unset_references obj ps a) ≡ true
  unfolding unset_references
  unset_of_missing y m p u n r = listed_of_mem (mem-keep_of is_unset m (ground (arith, p, u, n, r)))

  -- What is stored for `y` after the last loop, where it was `before` after the first
  final : String → Option ScanProfile → Option ScanProfile
  final y before =
      if any_of (str_eq y) (unset_references obj ps a)
      then some (EmptyScanProfile y)
      else if any_of (str_eq y) (references_to_reset ps a)
      then some (EmptyScanProfile y)
      else before

  profiles-saved :
      IsOne ps
      → IsEmptyZero ps
      → (y : String)
      → (s : List ScanProfile) × (save_levels obj ps (some a) ≡ saved s)
        × (profile_of y s ≡ final y (profile_of y (save_assigned ps a ps)))
  unfolding save_levels final
  profiles-saved one zero_level y =
      let (s, e, h) =
        profile_of-reset ps y (references_to_reset ps a) (save_assigned ps a ps)
          (reset-found ps a one zero_level) in
      (
        save_empty (unset_references obj ps a) s,
        rw e refl,
        profile_of-save_empty y (unset_references obj ps a) s ∙ rw h refl,
      )

  -- An object with an assigned level has it, and any other object has level 0.
  final-assigned :
      (y : String) (l : ℕ)
      → level_of y a ≡ some l
      → final y (expected ps a y) ≡ some (InheritedScanProfile y l)
  unfolding final
  final-assigned y l e = elim (Bool-cases (any_of (str_eq y) (unset_references obj ps a))) [
    | inl u ↦ absurd (ground (arith, e, unset-unassigned y u))
    | inr u ↦ elim (Bool-cases (any_of (str_eq y) (references_to_reset ps a))) [
      | inl r ↦ absurd (ground (arith, e, reset-unassigned ps a y r))
      | inr r ↦ rw (u, r, expected, e) refl
    ]
  ]

  final-unassigned :
      (y : String)
      → Memᴰ y obj.references
      → level_of y (declared_levels ps) ≡ none
      → level_of y a ≡ none
      → (p : ScanProfile) × (final y (expected ps a y) ≡ some p) × (p.level ≡ 0)
  unfolding final
  final-unassigned y m n e = elim (Bool-cases (any_of (str_eq y) (unset_references obj ps a))) [
    | inl u ↦ (EmptyScanProfile y, rw u refl, refl)
    | inr u ↦ elim (Bool-cases (any_of (str_eq y) (references_to_reset ps a))) [
      | inl r ↦ (EmptyScanProfile y, rw (u, r) refl, refl)
      | inr r ↦ elim (Option-cases (profile_of y ps)) [
        | inl p ↦ absurd (ground (arith, u, unset_of_missing y m p e n r))
        | inr (p, k) ↦
            let (i, t) = first_with_lem (λ q. str_eq q.reference y) ps p k in
            (
              p,
              rw (u, r, expected, e) k,
              ground
                  (arith, r, reset_of_positive ps a y p i ((str_eq_iff p.reference y).0 t), e, n),
            )
      ]
    ]
  ]

  final-source :
      (y : String) (v : ℕ) (before : Option ScanProfile)
      → level_of y (declared_levels ps) ≡ some v
      → final y before ≡ before
  unfolding final unset_references references_to_reset
  final-source y v before n = elim (Bool-cases (any_of (str_eq y) (unset_references obj ps a))) [
    | inl u ↦ absurd (ground (arith, n, listed-keep y is_unset obj.references u))
    | inr u ↦ elim (Bool-cases (any_of (str_eq y) (references_to_reset ps a))) [
      | inl r ↦ absurd (ground (arith, n, listed-keep y (to_reset ps a) (positive ps a) r))
      | inr r ↦ rw (u, r) refl
    ]
  ]

-- Where the database has one profile for each reference, empty profiles have level 0, and
-- list_neighbours finds stored objects only, recalculate_scan_profiles leaves the profile of an object
-- with a declared level as it was.
pub recalculate_scan_profiles_keeps :
    (obj : Objects) (ps : List ScanProfile) (y : String) (level : ℕ)
    → IsOne ps
    → IsEmptyZero ps
    → IsStored obj
    → declared_level obj ps y ≡ some level
    → (s : List ScanProfile) × (recalculate_scan_profiles obj ps (length obj.references + 2)
        ≡ saved s)
      × (profile_of y s ≡ profile_of y ps)
unfolding recalculate_scan_profiles
recalculate_scan_profiles_keeps obj ps y level one zero_level stored n =
    let (a, e, _) = all_passes obj ps (λ p q i j k. ap (λ z. z.level) (one p q i j k)) stored in
    let (s, k, f) = profiles-saved obj ps a one zero_level y in
    let g =
      source-save_assigned ps one a (assigned-IsGrown obj ps (length obj.references + 2) a e) y
        level n in
    (s, rw e k, f ∙ final-source obj ps a y level (profile_of y (save_assigned ps a ps)) n ∙ g)

-- Where the database has one profile for each reference, empty profiles have level 0, and
-- list_neighbours finds stored objects only, recalculate_scan_profiles ends without an error after at
-- most two more iterations for a level than there are objects. It leaves every stored object without a
-- declared profile a profile, and its level is `level` or more, from 1 to 4, exactly where the object
-- inherits that level.
pub recalculate_scan_profiles_iff :
    (obj : Objects) (ps : List ScanProfile) (y : String) (level : ℕ)
    → IsOne ps
    → IsEmptyZero ps
    → IsStored obj
    → Memᴰ y obj.references
    → declared_level obj ps y ≡ none
    → 1 ≤ level
    → level ≤ 4
    → (s : List ScanProfile) × (p : ScanProfile) × (recalculate_scan_profiles obj ps
          (length obj.references + 2)
        ≡ saved s)
      × (profile_of y s ≡ some p)
      × ((level ≤ p.level) ↔ Inherits obj ps level y)
unfolding recalculate_scan_profiles
recalculate_scan_profiles_iff obj ps y level one zero_level stored m n low high =
    let (a, e, L) = all_passes obj ps (λ p q i j k. ap (λ z. z.level) (one p q i j k)) stored in
    let (s, k, f) = profiles-saved obj ps a one zero_level y in
    let g =
      profile_of-save_assigned ps one a (assigned-IsGrown obj ps (length obj.references + 2) a e) y
        n in
    elim (Option-cases (level_of y a)) [
      | inr (l, u) ↦ (
        s,
        InheritedScanProfile y l,
        rw e k,
        f ∙ ap (final obj ps a y) g ∙ final-assigned obj ps a y l u,
        (
          λ h. Inherits-lower obj ps level l y h (L.sound y l n u).1,
          λ i. let (l', v, w) = L.complete y level low high i in ground (arith, u, v, w),
        ),
      )
      | inl u ↦
          let (p, v, z) = final-unassigned obj ps a y m n u in
          (
            s,
            p,
            rw e k,
            f ∙ ap (final obj ps a y) g ∙ v,
            (
              λ h. absurd (omega (arith, z)),
              λ i. let (l', w, x) = L.complete y level low high i in cc (u, w),
            ),
          )
    ]
