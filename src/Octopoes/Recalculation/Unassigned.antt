-- ===== src/Octopoes/Recalculation/Unassigned.antt =====
-- The references that the last two loops of recalculate_scan_profiles save.
use nl_kat_coordination.Prelude.{
  ◌<◌, String, List, [], ◌∷◌, map, keep, any_of, none, some, Bool, true, false, ◌&&◌, not, ltb, ◌≡◌,
  refl, sym, ap, subst, arith, Memᴰ, inl, inr, ◌⊎◌, Option-cases, Bool-cases, str_eq, str_eq_iff,
  is_some, any_of_exists, mem-keep, mem-keep_of, mem-map, mem-map_of,
}
use nl_kat_coordination.Octopoes.Profiles.{
  ScanProfileType, ScanProfile, Levels, level_of, declared_levels, is_declared,
}
use nl_kat_coordination.Octopoes.Profiles.Starts.{level_of-declared}
use nl_kat_coordination.Octopoes.Recalculation.{
  same_type, inherited_of, is_source, references_to_reset,
}
use nl_kat_coordination.Octopoes.Recalculation.Stores.{IsOne, first_with_of}

-- An empty profile has level 0, the default of its class.
abbrev pub IsEmptyZero : List ScanProfile → Type 0
IsEmptyZero ps =
    (p : ScanProfile) → Memᴰ p ps → p.scan_profile_type ≡ ScanProfileType.empty → p.level ≡ 0

pub listed-keep :
    (y : String) (test : String → Bool) (xs : List String)
    → any_of (str_eq y) (keep test xs) ≡ true
    → test y ≡ true
listed-keep y test xs h =
    let (x, m, e) = any_of_exists (str_eq y) (keep test xs) h in
    subst (λ z. test z ≡ true) (sym ((str_eq_iff y x).0 e)) (mem-keep test x xs m).1

pub listed_of_mem : {y : String} {xs : List String} → Memᴰ y xs → any_of (str_eq y) xs ≡ true
listed_of_mem {y} {xs = x ∷ xs} (Memᴰ.head e) = ground (arith, (str_eq_iff y x).1 e)
listed_of_mem {xs = []} m = elim m [ ]
listed_of_mem {xs = x ∷ xs} (Memᴰ.tail m) = ground (arith, listed_of_mem m)

type_of_other :
    (t : ScanProfileType)
    → is_declared t ≡ false
    → t ≡ ScanProfileType.empty ⊎ (same_type t ScanProfileType.inherited ≡ true)
type_of_other ScanProfileType.declared h = absurd (ground arith)
type_of_other ScanProfileType.inherited h = inr refl
type_of_other ScanProfileType.empty h = inl refl

module _ (ps : List ScanProfile) (a : Levels) where
  abbrev pub to_reset : String → Bool
  to_reset r = not (is_some (level_of r a)) && not (is_source ps r)

  abbrev pub positive : List String
  positive = map (λ (p : ScanProfile). p.reference) (keep (λ (p : ScanProfile). ltb 0 p.level) ps)

  -- Every reference that is reset has an inherited profile, so there is no KeyError.
  pub reset-found :
      IsOne ps
      → IsEmptyZero ps
      → (r : String) → Memᴰ r (references_to_reset ps a)
      → (old : ScanProfile) × (inherited_of r ps ≡ some old)
  unfolding references_to_reset
  reset-found one zero_level r m =
      let (n, h) = mem-keep to_reset r positive m in
      let (p, k, e) =
        mem-map (λ (p : ScanProfile). p.reference) (keep (λ (p : ScanProfile). ltb 0 p.level) ps)
          n in
      let (k', l) = mem-keep (λ (p : ScanProfile). ltb 0 p.level) p ps k in
      of_profile p k' (sym e) l h
    where
      of_profile :
          (p : ScanProfile)
          → Memᴰ p ps
          → p.reference ≡ r
          → ltb 0 p.level ≡ true
          → to_reset r ≡ true
          → (old : ScanProfile) × (inherited_of r ps ≡ some old)
      of_profile p m e l h = elim (Bool-cases (is_declared p.scan_profile_type)) [
        | inl d ↦
            let k = level_of-declared p ps (λ q n same. ap (λ z. z.level) (one q p n m same)) m d in
            absurd
              (ground (arith, h, subst (λ z. level_of z (declared_levels ps) ≡ some p.level) e k))
        | inr d ↦ elim (type_of_other p.scan_profile_type d) [
          | inl t ↦ absurd (ground (arith, l, zero_level p m t))
          | inr t ↦
              first_with_of
                (λ q.
                  same_type q.scan_profile_type ScanProfileType.inherited && str_eq q.reference r)
                ps p m (rw (t, (str_eq_iff p.reference r).1 e) refl)
        ]
      ]

  pub reset-unassigned :
      (y : String) → any_of (str_eq y) (references_to_reset ps a) ≡ true → level_of y a ≡ none
  unfolding references_to_reset
  reset-unassigned y h = elim (Option-cases (level_of y a)) [
    | inl n ↦ n
    | inr (l, e) ↦ absurd (ground (arith, e, listed-keep y to_reset positive h))
  ]

  -- A positive level of an object without an assigned level is reset.
  pub reset_of_positive :
      (y : String) (p : ScanProfile)
      → Memᴰ p ps
      → p.reference ≡ y
      → 0 < p.level
      → level_of y a ≡ none
      → level_of y (declared_levels ps) ≡ none
      → any_of (str_eq y) (references_to_reset ps a) ≡ true
  unfolding references_to_reset
  reset_of_positive y p m e l u n = listed_of_mem (
      mem-keep_of to_reset
        (subst (λ z. Memᴰ z positive) e
          (mem-map_of (λ (q : ScanProfile). q.reference)
            (mem-keep_of (λ (q : ScanProfile). ltb 0 q.level) m (ground (arith, l)))))
        (ground (arith, u, n)))
