-- ===== src/Octopoes/Profiles/Pass.antt =====
-- `while next_ooi_set` for one level: which references get it.
use nl_kat_coordination.Prelude.{
  ℕ, zero, suc, ◌+◌, ◌≤◌, ◌<◌, String, List, [], ◌∷◌, count_of, count_of_lt, length, length-keep-le,
  mem-flat_map, is_some, none, some, not, ◌≡◌, ◌↔◌, refl, subst, arith, Memᴰ, inl, inr, ◌⊎◌,
}
use nl_kat_coordination.Octopoes.Paths.{Segment}
use nl_kat_coordination.Octopoes.Profiles.{
  Objects, Levels, level_of, expand, propagate, neighbours_at, paths_at,
}
use nl_kat_coordination.Octopoes.Profiles.Steps.{HasLevel, HasLevel-cases, IsStep, IsStep-none}
use nl_kat_coordination.Octopoes.Profiles.Rounds.{
  expand-IsStep, expand-from, expand-covers, classes, classes-covers,
}

List-cases : (xs : List String) → (xs ≡ []) ⊎ ((x : String) × Memᴰ x xs)
List-cases [] = inl refl
List-cases (x ∷ xs) = inr (x, Memᴰ.head refl)

-- list_neighbours finds stored objects.
abbrev pub IsStored : Objects → Type 0
IsStored obj = (r y : String) (s : Segment) → Memᴰ y (obj.neighbours r s) → Memᴰ y obj.references

module _ (obj : Objects) (level : ℕ) where
  -- A reference without a level in `a` that a chain of such references links to a member of `next`,
  -- each the neighbour of the one before along a path that issues `level`.
  pub data IsReached (next : List String) (a : Levels) : String → Type 0 where
    first_hop :
        {o y : String}
        → Memᴰ o next
        → Memᴰ y (neighbours_at obj level o)
        → level_of y a ≡ none
        → IsReached next a y
    hop :
        {x y : String}
        → IsReached next a x
        → Memᴰ y (neighbours_at obj level x)
        → level_of y a ≡ none
        → IsReached next a y

  IsReached-unassigned :
      {next : List String} {a : Levels} {y : String} → IsReached next a y → level_of y a ≡ none
  IsReached-unassigned (first_hop m k n) = n
  IsReached-unassigned (hop r k n) = n

  module _ (next : List String) (a : Levels) where
    abbrev after : Levels
    after = (expand obj level next (classes obj level next) a).0

    abbrev new : List String
    new = (expand obj level next (classes obj level next) a).1

    round : IsStep level a after new
    round = expand-IsStep obj level next (classes obj level next) a

    round-covers :
        (o y : String) → Memᴰ o next → Memᴰ y (neighbours_at obj level o) → HasLevel y after
    round-covers o y m k =
        expand-covers obj level next (classes obj level next) a o y
          (classes-covers obj level next o m) m k

    new-IsReached : (y : String) → Memᴰ y new → IsReached next a y
    new-IsReached y m =
        let (o, n, k) = expand-from obj level next (classes obj level next) a y m in
        first_hop n k (round.news y m).0

    -- What is reached from the new references after a round is reached from `next` before it.
    IsReached-before : (y : String) → IsReached new after y → IsReached next a y
    IsReached-before y (first_hop {o = o} m k n) = hop (new-IsReached o m) k (IsStep-none round y n)
    IsReached-before y (hop {x = x} r k n) = hop (IsReached-before x r) k (IsStep-none round y n)

  -- All levels of `a` are kept, the members of `next` and all that has a new level are done with, and
  -- what has a new level has `level` and is reached.
  pub record IsClosure (next : List String) (a a' : Levels) : Type 0 where
    pub keeps : (x : String) (l : ℕ) → level_of x a ≡ some l → level_of x a' ≡ some l
    pub covers : (o y : String) → Memᴰ o next → Memᴰ y (neighbours_at obj level o) → HasLevel y a'
    pub fresh :
        (x : String)
        → level_of x a ≡ none
        → HasLevel x a'
        → (level_of x a' ≡ some level) × IsReached next a x
    pub closed :
        (x y : String)
        → level_of x a ≡ none
        → HasLevel x a'
        → Memᴰ y (neighbours_at obj level x)
        → HasLevel y a'

  IsClosure-done : (a : Levels) → IsClosure [] a a
  IsClosure-done a = record {
    keeps = λ x l e. e;
    covers = λ o y m k. elim m [ ];
    fresh = λ x n h. cc (n, h.1);
    closed = λ x y n h k. cc (n, h.1);
  }

  IsClosure-round :
      (next : List String) (a a' : Levels)
      → IsClosure (new next a) (after next a) a'
      → IsClosure next a a'
  IsClosure-round next a a' c =
      let s = round next a in
      record {
        keeps = λ x l e. c.keeps x l (s.keeps x l e);
        covers = λ o y m k. let (l, h) = round-covers next a o y m k in (l, c.keeps y l h);
        fresh = λ x n h. elim (HasLevel-cases x (after next a)) [
          | inl k ↦ let (e, r) = c.fresh x k h in (e, IsReached-before next a x r)
          | inr k ↦ let (e, m) = s.fresh x n k in (c.keeps x level e, new-IsReached next a x m)
        ];
        closed = λ x y n h k. elim (HasLevel-cases x (after next a)) [
          | inl u ↦ c.closed x y u h k
          | inr u ↦ c.covers x y (s.fresh x n u).1 k
        ];
      }

  propagate-IsClosure :
      (fuel : ℕ) (next : List String) (a a' : Levels)
      → propagate obj fuel level next a ≡ some a'
      → IsClosure next a a'
  unfolding propagate
  propagate-IsClosure zero next a a' e = absurd (ground arith)
  propagate-IsClosure (suc fuel) [] a a' e =
      subst (λ z. IsClosure [] a z) (ground (arith, e)) (IsClosure-done a)
  propagate-IsClosure (suc fuel) (r ∷ rs) a a' e =
      IsClosure-round (r ∷ rs) a a'
        (propagate-IsClosure fuel (new (r ∷ rs) a) (after (r ∷ rs) a) a' e)

  pub neighbours_at-stored :
      IsStored obj → (r y : String) → Memᴰ y (neighbours_at obj level r) → Memᴰ y obj.references
  unfolding neighbours_at
  neighbours_at-stored stored r y m =
      let (s, n, k) = mem-flat_map (obj.neighbours r) (paths_at obj level (obj.class_of r)) m in
      stored r y s k

  abbrev unassigned : Levels → ℕ
  unassigned a = count_of (λ r. not (is_some (level_of r a))) obj.references

  unassigned-round :
      IsStored obj
      → (next : List String) (a : Levels) (y : String) → Memᴰ y (new next a)
      → unassigned (after next a) < unassigned a
  unassigned-round stored next a y m =
      let (o, n, k) = expand-from obj level next (classes obj level next) a y m in
      let s = round next a in
      let (e, (l, h)) = s.news y m in
      count_of_lt (λ r. not (is_some (level_of r a)))
        (λ r. not (is_some (level_of r (after next a))))
        (λ x q. elim (HasLevel-cases x a) [
          | inl u ↦ rw u refl
          | inr (v, u) ↦ absurd (ground (arith, q, s.keeps x v u))
        ])
        (neighbours_at-stored stored o y k) (rw e refl) (rw h refl)

  propagate_nil : (fuel : ℕ) (a : Levels) → 1 ≤ fuel → propagate obj fuel level [] a ≡ some a
  unfolding propagate
  propagate_nil zero a h = absurd (omega arith)
  propagate_nil (suc fuel) a h = refl

  propagate_ends :
      IsStored obj
      → (fuel : ℕ) (next : List String) (a : Levels) → unassigned a + 2 ≤ fuel
      → (a' : Levels) × (propagate obj fuel level next a ≡ some a')
  unfolding propagate
  propagate_ends stored zero next a h = absurd (omega arith)
  propagate_ends stored (suc fuel) [] a h = (a, refl)
  propagate_ends stored (suc fuel) (r ∷ rs) a h = elim (List-cases (new (r ∷ rs) a)) [
    | inl e ↦ (after (r ∷ rs) a, rw e (propagate_nil fuel (after (r ∷ rs) a) (omega arith)))
    | inr (y, e) ↦
        propagate_ends stored fuel (new (r ∷ rs) a) (after (r ∷ rs) a)
          (omega (arith, unassigned-round stored (r ∷ rs) a y e))
  ]

  reached_gets :
      (next : List String) (a a' : Levels)
      → IsClosure next a a'
      → (y : String) → IsReached next a y
      → HasLevel y a'
  reached_gets next a a' c y (first_hop {o = o} m k n) = c.covers o y m k
  reached_gets next a a' c y (hop {x = x} r k n) =
      c.closed x y (IsReached-unassigned r) (reached_gets next a a' c x r) k

  pub propagate_closes :
      IsStored obj
      → (next : List String) (a : Levels)
      → (a' : Levels) × (propagate obj (length obj.references + 2) level next a ≡ some a')
        × IsClosure next a a'
  propagate_closes stored next a =
      let fuel = length obj.references + 2 in
      let (a', e) =
        propagate_ends stored fuel next a
          (omega (arith, length-keep-le (λ r. not (is_some (level_of r a))) obj.references)) in
      (a', e, propagate-IsClosure fuel next a a' e)

  -- Where list_neighbours finds stored objects only, fuel of two more than the number of stored objects is
  -- enough for the iterations of one level, and of the references without a level they give the level
  -- to exactly those that they reach.
  pub propagate_reaches :
      IsStored obj
      → (next : List String) (a : Levels) (x : String) → level_of x a ≡ none
      → (a' : Levels) × (propagate obj (length obj.references + 2) level next a ≡ some a')
        × ((level_of x a' ≡ some level) ↔ IsReached next a x)
        × ((level_of x a' ≡ some level) ⊎ level_of x a' ≡ none)
  propagate_reaches stored next a x n =
      let (a', e, c) = propagate_closes stored next a in
      (
        a',
        e,
        (λ h. (c.fresh x n (level, h)).1, λ r. (c.fresh x n (reached_gets next a a' c x r)).0),
        elim (HasLevel-cases x a') [ inl u ↦ inr u | inr h ↦ inl (c.fresh x n h).0 ],
      )
