-- ===== src/Octopoes/Recalculation/Grown.antt =====
-- The assigned levels are the declared ones and levels added for references that had none.
use nl_kat_coordination.Prelude.{
  ℕ, zero, suc, String, List, [], ◌∷◌, map, Option, none, some, ◌≡◌, refl, subst, arith, inl, inr,
}
use nl_kat_coordination.Octopoes.Profiles.{
  Objects, ScanProfile, Levels, level_of, declared_levels, assign, distinct, expand, propagate,
  start, level_pass, then_pass, assigned_scan_levels,
}
use nl_kat_coordination.Octopoes.Profiles.Steps.{HasLevel-cases, assign-seen, assign-unseen}

pub data IsGrown (base : Levels) : Levels → Type 0 where
  given : IsGrown base base
  added :
      {a : Levels} {r : String} (l : ℕ)
      → IsGrown base a
      → level_of r a ≡ none
      → IsGrown base ((r, l) ∷ a)

module _ {base : Levels} where
  assign-IsGrown :
      (level : ℕ) (rs : List String) (a : Levels)
      → IsGrown base a
      → IsGrown base (assign level rs a).0
  unfolding assign
  assign-IsGrown level [] a g = g
  assign-IsGrown level (r ∷ rs) a g = elim (HasLevel-cases r a) [
    | inr (l, k) ↦ rw (assign-seen level r rs a l k) (assign-IsGrown level rs a g)
    | inl k ↦
        rw (assign-unseen level r rs a k)
          (assign-IsGrown level rs ((r, level) ∷ a) (added level g k))
  ]

  expand-IsGrown :
      (obj : Objects) (level : ℕ) (next ts : List String) (a : Levels)
      → IsGrown base a
      → IsGrown base (expand obj level next ts a).0
  unfolding expand
  expand-IsGrown obj level next [] a g = g
  expand-IsGrown obj level next (t ∷ ts) a g =
      expand-IsGrown obj level next ts _ (assign-IsGrown level _ a g)

  propagate-IsGrown :
      (obj : Objects) (fuel level : ℕ) (next : List String) (a a' : Levels)
      → IsGrown base a
      → propagate obj fuel level next a ≡ some a'
      → IsGrown base a'
  unfolding propagate
  propagate-IsGrown obj zero level next a a' g e = absurd (ground arith)
  propagate-IsGrown obj (suc fuel) level [] a a' g e = subst (IsGrown base) (ground (arith, e)) g
  propagate-IsGrown obj (suc fuel) level (r ∷ rs) a a' g e =
      propagate-IsGrown obj fuel level _ _ a'
        (expand-IsGrown obj level (r ∷ rs) (distinct (map obj.class_of (r ∷ rs))) a g) e

  pass-IsGrown :
      (obj : Objects) (ps : List ScanProfile) (fuel level : ℕ) (o : Option Levels) (a' : Levels)
      → ((a : Levels) → o ≡ some a → IsGrown base a)
      → then_pass obj fuel level ps o ≡ some a'
      → IsGrown base a'
  unfolding then_pass level_pass
  pass-IsGrown obj ps fuel level none a' f e = absurd (ground arith)
  pass-IsGrown obj ps fuel level (some a) a' f e =
      propagate-IsGrown obj fuel level (start obj level ps a) a a' (f a refl) e

pub assigned-IsGrown :
    (obj : Objects) (ps : List ScanProfile) (fuel : ℕ) (a : Levels)
    → assigned_scan_levels obj fuel ps ≡ some a
    → IsGrown (declared_levels ps) a
unfolding assigned_scan_levels level_pass
assigned-IsGrown obj ps fuel a e =
    pass-IsGrown obj ps fuel 1 _ a
      (λ b. pass-IsGrown obj ps fuel 2 _ b (λ c. pass-IsGrown obj ps fuel 3 _ c (λ d k.
        propagate-IsGrown obj fuel 4 (start obj 4 ps (declared_levels ps)) (declared_levels ps) d
          given k)))
      e
