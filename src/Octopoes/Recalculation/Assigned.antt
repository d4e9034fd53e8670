-- ===== src/Octopoes/Recalculation/Assigned.antt =====
-- The profiles after the loop that saves the assigned levels.
use nl_kat_coordination.Prelude.{
  ℕ, String, List, [], ◌∷◌, Option, none, some, Bool, true, false, ◌&&◌, ◌==◌, ==_iff, ◌≡◌, ◌∙◌,
  refl, sym, ap, subst, arith, Memᴰ, inl, inr, Option-cases, Bool-cases, str_eq, str_eq_iff,
  if◌then◌else◌,
}
use nl_kat_coordination.Octopoes.Profiles.{
  ScanProfileType, ScanProfile, Levels, level_of, declared_levels, is_declared,
}
use nl_kat_coordination.Octopoes.Profiles.Starts.{level_of-declared}
use nl_kat_coordination.Octopoes.Recalculation.{
  same_type, same_profile, InheritedScanProfile, profile_of, inherited_of, save, is_source,
  save_inherited, save_assigned,
}
use nl_kat_coordination.Octopoes.Recalculation.Grown.{IsGrown, given, added}
use nl_kat_coordination.Octopoes.Recalculation.Stores.{
  IsOne, first_with_lem, first_with_of, inherited_of_lem, profile_of-put,
}

type_of_test :
    (t : ScanProfileType)
    → same_type t ScanProfileType.inherited ≡ true
    → t ≡ ScanProfileType.inherited
type_of_test ScanProfileType.declared h = absurd (ground arith)
type_of_test ScanProfileType.inherited h = refl
type_of_test ScanProfileType.empty h = absurd (ground arith)

InheritedScanProfile-of_fields :
    (old : ScanProfile) (r : String) (l : ℕ)
    → old.scan_profile_type ≡ ScanProfileType.inherited
    → old.reference ≡ r
    → old.level ≡ l
    → old ≡ InheritedScanProfile r l
InheritedScanProfile-of_fields old r l e k h =
    rw⁻¹ (k, h) (ap (λ t. record old { scan_profile_type = t }) e)

no_match : (a b : Bool) → (a && (b && false)) ≡ false
no_match a b = ground arith

module _ (ps : List ScanProfile) where
  -- What is stored for `y` after the loop
  abbrev pub expected : Levels → String → Option ScanProfile
  expected a y = elim (level_of y a) [
    | none ↦ profile_of y ps
    | some l ↦ some (InheritedScanProfile y l)
  ]

module _ (ps : List ScanProfile) (one : IsOne ps) where
  profile_of-inherited :
      (r : String) (old : ScanProfile) → inherited_of r ps ≡ some old → profile_of r ps ≡ some old
  profile_of-inherited r old e =
      let (m, h, k) = inherited_of_lem ps r old e in
      let (q, f) =
        first_with_of (λ p. str_eq p.reference r) ps old m ((str_eq_iff old.reference r).1 k) in
      let (n, g) = first_with_lem (λ p. str_eq p.reference r) ps q f in
      f ∙ ap some (one q old n m ((str_eq_iff q.reference r).0 g ∙ sym k))

  save_inherited_lem :
      (r y : String) (l : ℕ) (s : List ScanProfile)
      → profile_of r s ≡ profile_of r ps
      → profile_of y (save_inherited (inherited_of r ps) r l s)
        ≡ (if str_eq r y then some (InheritedScanProfile r l) else profile_of y s)
  unfolding save_inherited save same_profile
  save_inherited_lem r y l s same = elim (Option-cases (inherited_of r ps)) [
    | inl e ↦ rw e (profile_of-put y (InheritedScanProfile r l) s)
    | inr (old, e) ↦ elim (Bool-cases (old.level == l)) [
      | inr d ↦ rw (e, d, no_match) (profile_of-put y (InheritedScanProfile r l) s)
      | inl d ↦ rw (e, d) (kept old e d)
    ]
  ]
    where
      kept :
          (old : ScanProfile)
          → inherited_of r ps ≡ some old
          → (old.level == l) ≡ true
          → profile_of y s
            ≡ (if str_eq r y then some (InheritedScanProfile r l) else profile_of y s)
      kept old e d = elim (Bool-cases (str_eq r y)) [
        | inr k ↦ rw k refl
        | inl k ↦
            let (m, h, g) = inherited_of_lem ps r old e in
            let is_old : old ≡ InheritedScanProfile r l =
              InheritedScanProfile-of_fields old r l (type_of_test old.scan_profile_type h) g
                ((==_iff old.level l).0 d) in
            rw k (
              subst (λ z. profile_of z s ≡ some (InheritedScanProfile r l)) ((str_eq_iff r y).0 k)
                (same ∙ profile_of-inherited r old e ∙ ap some is_old))
      ]

  source_of :
      (qs : List ScanProfile)
      → ((q : ScanProfile) → Memᴰ q qs → Memᴰ q ps)
      → save_assigned ps (declared_levels qs) ps ≡ ps
  unfolding declared_levels save_assigned
  source_of [] sub = refl
  source_of (q ∷ qs) sub = elim (Bool-cases (is_declared q.scan_profile_type)) [
    | inr k ↦ rw k (source_of qs (λ z m. sub z (Memᴰ.tail m)))
    | inl k ↦
        rw
          (
            k,
            level_of-declared q ps
                (λ z n e. ap (λ w. w.level) (one z q n (sub q (Memᴰ.head refl)) e))
                (sub q (Memᴰ.head refl)) k,
          )
          (source_of qs (λ z m. sub z (Memᴰ.tail m)))
  ]

  expected-other :
      (r y : String) (l : ℕ) (b : Levels)
      → str_eq r y ≡ false
      → expected ps ((r, l) ∷ b) y ≡ expected ps b y
  unfolding level_of
  expected-other r y l b e = rw (expected, e) refl

  expected-same :
      (r y : String) (l : ℕ) (b : Levels)
      → str_eq r y ≡ true
      → expected ps ((r, l) ∷ b) y ≡ some (InheritedScanProfile r l)
  unfolding level_of
  expected-same r y l b e =
      rw (expected, e) (ap (λ z. some (InheritedScanProfile z l)) (sym ((str_eq_iff r y).0 e)))

  -- The step of the loop for one entry
  save_one :
      (r y : String) (l : ℕ) (b : Levels)
      → is_source ps r ≡ false
      → profile_of r (save_assigned ps b ps) ≡ profile_of r ps
      → profile_of y (save_assigned ps b ps) ≡ expected ps b y
      → profile_of y (save_assigned ps ((r, l) ∷ b) ps) ≡ expected ps ((r, l) ∷ b) y
  unfolding save_assigned
  save_one r y l b k same before = elim (Bool-cases (str_eq r y)) [
    | inl e ↦ rw k (
        save_inherited_lem r y l (save_assigned ps b ps) same
        ∙ rw e (sym (expected-same r y l b e)))
    | inr e ↦ rw k (
        save_inherited_lem r y l (save_assigned ps b ps) same
        ∙ rw e (before ∙ sym (expected-other r y l b e)))
  ]

  skip_source :
      (r y : String) (l : ℕ) (b : Levels)
      → is_source ps r ≡ true
      → level_of y (declared_levels ps) ≡ none
      → profile_of y (save_assigned ps b ps) ≡ expected ps b y
      → profile_of y (save_assigned ps ((r, l) ∷ b) ps) ≡ expected ps ((r, l) ∷ b) y
  unfolding save_assigned
  skip_source r y l b k n before =
      rw k (before ∙ sym (expected-other r y l b (ground (arith, k, n, str_eq_iff r y))))

  -- Objects without a declared profile have their assigned level, or the profile that they had.
  pub profile_of-save_assigned :
      (a : Levels)
      → IsGrown (declared_levels ps) a
      → (y : String) → level_of y (declared_levels ps) ≡ none
      → profile_of y (save_assigned ps a ps) ≡ expected ps a y
  profile_of-save_assigned a given y n = rw (source_of ps (λ q m. m), expected, n) refl
  profile_of-save_assigned a (added {a = b} {r = r} l g u) y n =
      elim (Option-cases (level_of r (declared_levels ps))) [
        | inr (v, k) ↦ skip_source r y l b (rw k refl) n (profile_of-save_assigned b g y n)
        | inl k ↦
            save_one r y l b (rw k refl) (profile_of-save_assigned b g r k ∙ rw (expected, u) refl)
              (profile_of-save_assigned b g y n)
      ]

  -- A declared profile stays as it was.
  pub source-save_assigned :
      (a : Levels)
      → IsGrown (declared_levels ps) a
      → (y : String) (v : ℕ) → level_of y (declared_levels ps) ≡ some v
      → profile_of y (save_assigned ps a ps) ≡ profile_of y ps
  unfolding save_assigned
  source-save_assigned a given y v n = ap (profile_of y) (source_of ps (λ q m. m))
  source-save_assigned a (added {a = b} {r = r} l g u) y v n =
      elim (Option-cases (level_of r (declared_levels ps))) [
        | inr (w, k) ↦ rw k (source-save_assigned b g y v n)
        | inl k ↦ rw k (
            save_inherited_lem r y l (save_assigned ps b ps)
              (profile_of-save_assigned b g r k ∙ rw (expected, u) refl)
            ∙ rw (differ k) (source-save_assigned b g y v n))
      ]
    where
      differ : level_of r (declared_levels ps) ≡ none → str_eq r y ≡ false
      differ k = ground (arith, k, n, str_eq_iff r y)
