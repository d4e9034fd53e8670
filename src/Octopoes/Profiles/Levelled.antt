-- ===== src/Octopoes/Profiles/Levelled.antt =====
-- One pass after the other: the levels of recalculate_scan_profiles.
use nl_kat_coordination.Prelude.{
  ℕ, suc, ◌+◌, ◌≤◌, ◌<◌, String, List, length, none, some, ◌≡◌, ◌↔◌, refl, sym, subst, arith, Memᴰ,
  inl, inr, ◌⊎◌, Option-cases,
}
use nl_kat_coordination.Octopoes.Profiles.{
  Objects, ScanProfile, Levels, level_of, neighbours_at, declared_levels, start, level_pass,
  then_pass, assigned_scan_levels,
}
use nl_kat_coordination.Octopoes.Profiles.Steps.{HasLevel, HasLevel-cases}
use nl_kat_coordination.Octopoes.Profiles.Pass.{
  IsStored, IsReached, first_hop, hop, IsClosure, propagate_closes,
}
use nl_kat_coordination.Octopoes.Profiles.Starts.{
  IsKeyed, start-of_declared, start-of_higher, start-from,
}
use nl_kat_coordination.Octopoes.Profiles.Inheritance.{
  declared_level, Inherits, from_declared, from_heir, Inherits-lower, Inherits-stored, undeclared,
  IsLevelled, IsLevelled-initial,
}

module _ (obj : Objects) (ps : List ScanProfile) (keyed : IsKeyed ps) (stored : IsStored obj) where
  module _ (low : ℕ) (a : Levels) (s : IsLevelled obj ps (suc low) a) where
    -- What has no level yet has no declared level.
    undeclared_of : (y : String) → level_of y a ≡ none → declared_level obj ps y ≡ none
    undeclared_of y u = elim (Option-cases (declared_level obj ps y)) [
      | inl n ↦ n
      | inr (l, e) ↦ cc (u, s.declared_kept y l e)
    ]

    -- A neighbour of a reference that has a level above `low` inherits `low`.
    Inherits-of_higher :
        (o y : String) (l : ℕ)
        → Memᴰ o obj.references
        → level_of o a ≡ some l
        → low < l
        → Memᴰ y (neighbours_at obj low o)
        → declared_level obj ps y ≡ none
        → Inherits obj ps low y
    Inherits-of_higher o y l m e h k n = elim (Option-cases (declared_level obj ps o)) [
      | inl u ↦ from_heir (Inherits-lower obj ps low l o (omega arith) (s.sound o l u e).1) k n
      | inr (d, u) ↦ from_declared m u (ground (arith, e, s.declared_kept o d u, h)) k n
    ]

    reached-Inherits :
        (y : String) → IsReached obj low (start obj low ps a) a y → Inherits obj ps low y
    reached-Inherits y (first_hop {o = o} m k u) =
        let (n, c) = start-from obj ps low a keyed o m in
        elim c [
          | inl e ↦ from_declared n e (omega arith) k (undeclared_of y u)
          | inr (l, e, h) ↦ Inherits-of_higher o y l n e h k (undeclared_of y u)
        ]
    reached-Inherits y (hop {x = x} r k u) = from_heir (reached-Inherits x r) k (undeclared_of y u)

    module _ (a' : Levels) (c : IsClosure obj low (start obj low ps a) a a') where
      heir_gets : (y : String) → Inherits obj ps low y → HasLevel y a'
      heir_gets y (from_declared {r = r} {l = l} m e h k n) =
          c.covers r y (starts (cases low l h)) k
        where
          cases : (low l : ℕ) → low ≤ l → (l ≡ low) ⊎ low < l
          cases low l h = omega arith

          starts : (l ≡ low) ⊎ low < l → Memᴰ r (start obj low ps a)
          starts (inl same) = start-of_declared obj ps low a r m (rw same at e)
          starts (inr more) = start-of_higher obj ps low a r l m (s.declared_kept r l e) more
      heir_gets y (from_heir {x = x} i k n) = elim (HasLevel-cases x a) [
        | inl u ↦ c.closed x y u (heir_gets x i) k
        | inr (l, u) ↦
            c.covers x y
              (start-of_higher obj ps low a x l (Inherits-stored obj ps stored low x i) u
                (s.sound x l (undeclared obj ps i) u).0)
              k
      ]

      pass-IsLevelled : IsLevelled obj ps low a'
      pass-IsLevelled = record {
        declared_kept = λ r l e. c.keeps r l (s.declared_kept r l e);
        sound = sound_at;
        complete = complete_at;
      }
        where
          sound_at :
              (y : String) (l : ℕ)
              → declared_level obj ps y ≡ none
              → level_of y a' ≡ some l
              → (low ≤ l) × Inherits obj ps l y
          sound_at y l n e = elim (HasLevel-cases y a) [
            | inr (l', u) ↦
                let same : l' ≡ l = ground (arith, e, c.keeps y l' u) in
                let (h, i) = s.sound y l n (subst (λ z. level_of y a ≡ some z) same u) in
                (omega arith, i)
            | inl u ↦
                let (k, r) = c.fresh y u (l, e) in
                let same : low ≡ l = ground (arith, e, k) in
                (omega arith, subst (λ z. Inherits obj ps z y) same (reached-Inherits y r))
          ]

          split : (low level : ℕ) → low ≤ level → (low ≡ level) ⊎ low < level
          split low level h = omega arith

          complete_at :
              (y : String) (level : ℕ)
              → low ≤ level
              → level ≤ 4
              → Inherits obj ps level y
              → (l : ℕ) × (level_of y a' ≡ some l) × (level ≤ l)
          complete_at y level h k i = elim (split low level h) [
            | inr more ↦ let (l, e, g) = s.complete y level more k i in (l, c.keeps y l e, g)
            | inl same ↦
                let (l, e) = heir_gets y (subst (λ z. Inherits obj ps z y) (sym same) i) in
                (l, e, omega (arith, same, (sound_at y l (undeclared obj ps i) e).0))
          ]

  pub all_passes :
      (a : Levels) × (assigned_scan_levels obj (length obj.references + 2) ps ≡ some a)
      × IsLevelled obj ps 1 a
  unfolding assigned_scan_levels then_pass level_pass
  all_passes =
      let d = declared_levels ps in
      let (a4, e4, c4) = propagate_closes obj 4 stored (start obj 4 ps d) d in
      let s4 = pass-IsLevelled 4 d (IsLevelled-initial obj ps) a4 c4 in
      let (a3, e3, c3) = propagate_closes obj 3 stored (start obj 3 ps a4) a4 in
      let s3 = pass-IsLevelled 3 a4 s4 a3 c3 in
      let (a2, e2, c2) = propagate_closes obj 2 stored (start obj 2 ps a3) a3 in
      let s2 = pass-IsLevelled 2 a3 s3 a2 c2 in
      let (a1, e1, c1) = propagate_closes obj 1 stored (start obj 1 ps a2) a2 in
      (a1, rw (e4, e3, e2, e1) refl, pass-IsLevelled 1 a2 s2 a1 c1)

  -- Where there is one profile for each reference and list_neighbours finds stored objects only, two
  -- more iterations than there are stored objects are enough for each of the four levels, and an
  -- object without a declared profile gets a level of `level` or more, from 1 to 4, exactly where it
  -- inherits that level.
  pub assigned_scan_levels_iff :
      (y : String) (level : ℕ)
      → 1 ≤ level
      → level ≤ 4
      → declared_level obj ps y ≡ none
      → (a : Levels) × (assigned_scan_levels obj (length obj.references + 2) ps ≡ some a)
        × (((l : ℕ) × (level_of y a ≡ some l) × (level ≤ l)) ↔ Inherits obj ps level y)
  assigned_scan_levels_iff y level h k n =
      let (a, e, s) = all_passes in
      (
        a,
        e,
        (
          λ p. Inherits-lower obj ps level p.0 y p.2 (s.sound y p.0 n p.1).1,
          λ i. s.complete y level h k i,
        ),
      )
