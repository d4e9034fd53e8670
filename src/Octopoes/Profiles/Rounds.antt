-- ===== src/Octopoes/Profiles/Rounds.antt =====
-- One iteration of `while next_ooi_set`.
use nl_kat_coordination.Prelude.{
  ℕ, String, List, [], ◌∷◌, map, keep, flat_map, true, ◌≡◌, refl, subst, arith, Memᴰ, inl, inr,
  Bool-cases, any_of, str_eq, str_eq_iff, mem-append, mem-flat_map, mem-flat_map_of, mem-keep,
  mem-keep_of, mem-map_of,
}
use nl_kat_coordination.Octopoes.Profiles.{
  Objects, Levels, assign, distinct, expand, list_neighbours, paths_at, neighbours_at,
}
use nl_kat_coordination.Octopoes.Profiles.Steps.{
  HasLevel, IsStep, IsStep-refl, IsStep-trans, assign-IsStep, assign-covers, assign-from,
}

mem_of_any : (t : String) (ts : List String) → any_of (str_eq t) ts ≡ true → Memᴰ t ts
mem_of_any t [] h = absurd (ground arith)
mem_of_any t (u ∷ us) h = elim (Bool-cases (str_eq t u)) [
  | inl e ↦ Memᴰ.head ((str_eq_iff t u).0 e)
  | inr e ↦ Memᴰ.tail (mem_of_any t us (rw e at h))
]

mem-distinct : (t : String) (ts : List String) → Memᴰ t ts → Memᴰ t (distinct ts)
unfolding distinct
mem-distinct t [] m = m
mem-distinct t (u ∷ us) (Memᴰ.head e) = elim (Bool-cases (any_of (str_eq u) us)) [
  | inl k ↦ rw k (mem-distinct t us (rw e (mem_of_any u us k)))
  | inr k ↦ rw k (Memᴰ.head e)
]
mem-distinct t (u ∷ us) (Memᴰ.tail m) = elim (Bool-cases (any_of (str_eq u) us)) [
  | inl k ↦ rw k (mem-distinct t us m)
  | inr k ↦ rw k (Memᴰ.tail (mem-distinct t us m))
]

module _ (obj : Objects) (level : ℕ) where
  abbrev group_of : List String → String → List String
  group_of next t = keep (λ r. str_eq (obj.class_of r) t) next

  abbrev found_of : List String → String → List String
  found_of next t = list_neighbours obj (group_of next t) (paths_at obj level t)

  -- A neighbour of a member of the group is found, and what is found is a neighbour of such a member.
  found_of-covers :
      (next : List String) (o y : String)
      → Memᴰ o next
      → Memᴰ y (neighbours_at obj level o)
      → Memᴰ y (found_of next (obj.class_of o))
  unfolding list_neighbours neighbours_at
  found_of-covers next o y m k =
      mem-flat_map_of (λ r. flat_map (obj.neighbours r) (paths_at obj level (obj.class_of o)))
        (mem-keep_of (λ r. str_eq (obj.class_of r) (obj.class_of o)) m
          ((str_eq_iff (obj.class_of o) (obj.class_of o)).1 refl))
        k

  found_of-from :
      (next : List String) (t y : String)
      → Memᴰ y (found_of next t)
      → (o : String) × Memᴰ o next × Memᴰ y (neighbours_at obj level o)
  unfolding list_neighbours neighbours_at
  found_of-from next t y m =
      let (o, n, k) =
        mem-flat_map (λ r. flat_map (obj.neighbours r) (paths_at obj level t)) (group_of next t)
          m in
      let (n', e) = mem-keep (λ r. str_eq (obj.class_of r) t) o next n in
      (o, n', rw ((str_eq_iff (obj.class_of o) t).0 e) k)

  pub expand-IsStep :
      (next ts : List String) (a : Levels)
      → IsStep level a (expand obj level next ts a).0 (expand obj level next ts a).1
  unfolding expand
  expand-IsStep next [] a = IsStep-refl
  expand-IsStep next (t ∷ ts) a =
      IsStep-trans (assign-IsStep level (found_of next t) a)
        (expand-IsStep next ts (assign level (found_of next t) a).0)

  pub expand-from :
      (next ts : List String) (a : Levels) (y : String)
      → Memᴰ y (expand obj level next ts a).1
      → (o : String) × Memᴰ o next × Memᴰ y (neighbours_at obj level o)
  unfolding expand
  expand-from next [] a y m = elim m [ ]
  expand-from next (t ∷ ts) a y m =
      elim (mem-append (assign level (found_of next t) a).1
        (expand obj level next ts (assign level (found_of next t) a).0).1 m) [
          | inl k ↦ found_of-from next t y (assign-from level y (found_of next t) a k)
          | inr k ↦ expand-from next ts (assign level (found_of next t) a).0 y k
        ]

  pub expand-covers :
      (next ts : List String) (a : Levels) (o y : String)
      → Memᴰ (obj.class_of o) ts
      → Memᴰ o next
      → Memᴰ y (neighbours_at obj level o)
      → HasLevel y (expand obj level next ts a).0
  unfolding expand
  expand-covers next [] a o y c m k = elim c [ ]
  expand-covers next (t ∷ ts) a o y (Memᴰ.head e) m k =
      let a' = (assign level (found_of next t) a).0 in
      let (l, h) =
        assign-covers level y (found_of next t) a
          (subst (λ c. Memᴰ y (found_of next c)) e (found_of-covers next o y m k)) in
      (l, (expand-IsStep next ts a').keeps y l h)
  expand-covers next (t ∷ ts) a o y (Memᴰ.tail c) m k =
      expand-covers next ts (assign level (found_of next t) a).0 o y c m k

  abbrev pub classes : List String → List String
  classes next = distinct (map obj.class_of next)

  pub classes-covers :
      (next : List String) (o : String) → Memᴰ o next → Memᴰ (obj.class_of o) (classes next)
  classes-covers next o m =
      mem-distinct (obj.class_of o) (map obj.class_of next) (mem-map_of obj.class_of m)
