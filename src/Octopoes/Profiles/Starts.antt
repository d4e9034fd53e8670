-- ===== src/Octopoes/Profiles/Starts.antt =====
-- The references that a pass starts from.
use nl_kat_coordination.Prelude.{
  ℕ, ◌<◌, String, List, [], ◌∷◌, any_of, some, Bool, true, ◌&&◌, ◌||◌, ◌==◌, str_eq, str_eq_iff,
  ◌≡◌, refl, sym, ap, subst, arith, Memᴰ, inl, inr, ◌⊎◌, any_of_exists, mem-keep, mem-keep_of,
  Bool-cases, Option-cases,
}
use nl_kat_coordination.Octopoes.Profiles.{
  Objects, ScanProfile, Levels, level_of, declared_levels, is_declared, start, above,
}
use nl_kat_coordination.Octopoes.Profiles.Inheritance.{declared_level}

-- There is one profile for each reference, which is the key of a profile in the database.
abbrev pub IsKeyed : List ScanProfile → Type 0
IsKeyed ps =
    (p q : ScanProfile) → Memᴰ p ps → Memᴰ q ps → p.reference ≡ q.reference → p.level ≡ q.level

-- `profile` is a declared profile of `r` with this level.
abbrev declares : String → ℕ → ScanProfile → Bool
declares r level profile =
    is_declared profile.scan_profile_type && (profile.level == level && str_eq profile.reference r)

declares-level_of :
    (r : String) (level : ℕ) (qs : List ScanProfile)
    → level_of r (declared_levels qs) ≡ some level
    → any_of (declares r level) qs ≡ true
unfolding declared_levels level_of
declares-level_of r level [] h = absurd (ground arith)
declares-level_of r level (q ∷ qs) h = ground (arith, declares-level_of r level qs)

pub level_of-declared :
    (p : ScanProfile) (qs : List ScanProfile)
    → ((q : ScanProfile) → Memᴰ q qs → q.reference ≡ p.reference → q.level ≡ p.level)
    → Memᴰ p qs
    → is_declared p.scan_profile_type ≡ true
    → level_of p.reference (declared_levels qs) ≡ some p.level
unfolding declared_levels level_of
level_of-declared p [] same m d = elim m [ ]
level_of-declared p (q ∷ qs) same (Memᴰ.head e) d = ground (
  arith,
  subst (λ z. is_declared z.scan_profile_type ≡ true) e d,
  ap (λ z. z.reference) (sym e),
  ap (λ z. z.level) (sym e),
  str_eq_iff q.reference p.reference,
)
level_of-declared p (q ∷ qs) same (Memᴰ.tail m) d = ground (
  arith,
  str_eq_iff q.reference p.reference,
  same q (Memᴰ.head refl),
  level_of-declared p qs (λ z k. same z (Memᴰ.tail k)) m d,
)

module _ (obj : Objects) (ps : List ScanProfile) (low : ℕ) (a : Levels) where
  pub start-of_declared :
      (r : String)
      → Memᴰ r obj.references
      → declared_level obj ps r ≡ some low
      → Memᴰ r (start obj low ps a)
  unfolding start
  start-of_declared r m e =
      mem-keep_of (λ x. any_of (declares x low) ps || above low (level_of x a)) m
        (rw (declares-level_of r low ps e) refl)

  pub start-of_higher :
      (r : String) (l : ℕ)
      → Memᴰ r obj.references
      → level_of r a ≡ some l
      → low < l
      → Memᴰ r (start obj low ps a)
  unfolding start above
  start-of_higher r l m e h =
      mem-keep_of (λ x. any_of (declares x low) ps || above low (level_of x a)) m
        (ground (arith, e, h))

  pub start-from :
      IsKeyed ps
      → (r : String) → Memᴰ r (start obj low ps a)
      → Memᴰ r obj.references
        × ((declared_level obj ps r ≡ some low) ⊎ ((l : ℕ) × (level_of r a ≡ some l) × (low < l)))
  unfolding start above
  start-from keyed r m =
      let (n, h) =
        mem-keep (λ x. any_of (declares x low) ps || above low (level_of x a)) r obj.references m in
      (
        n,
        elim (Bool-cases (any_of (declares r low) ps)) [
          | inl e ↦ let (p, k, d) = any_of_exists (declares r low) ps e in inl (of_profile p k d)
          | inr e ↦ elim (Option-cases (level_of r a)) [
            | inl u ↦ absurd (ground (arith, u, e, h))
            | inr (l, u) ↦ inr (l, u, ground (arith, u, e, h))
          ]
        ],
      )
    where
      of_profile :
          (p : ScanProfile)
          → Memᴰ p ps
          → declares r low p ≡ true
          → declared_level obj ps r ≡ some low
      of_profile p k d = ground (
        arith,
        str_eq_iff p.reference r,
        level_of-declared p ps (λ q n e. keyed q p n k e) k (ground arith),
      )
