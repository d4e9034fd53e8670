-- ===== src/Octopoes/Profiles/Steps.antt =====
-- How the assigned levels grow.
use nl_kat_coordination.Prelude.{
  ℕ, String, List, [], ◌∷◌, ◌++◌, none, some, ◌≡◌, sym, arith, Memᴰ, inl, inr, ◌⊎◌, Option-cases,
  Bool-cases, str_eq, str_eq_iff, mem-append, mem-append_left, mem-append_right,
}
use nl_kat_coordination.Octopoes.Profiles.{Levels, level_of, assign}

mem-cons :
    {x r : String} {xs ys : List String}
    → (Memᴰ x xs → Memᴰ x ys)
    → Memᴰ x (r ∷ xs)
    → Memᴰ x (r ∷ ys)
mem-cons f (Memᴰ.head e) = Memᴰ.head e
mem-cons f (Memᴰ.tail m) = Memᴰ.tail (f m)

abbrev pub HasLevel : String → Levels → Type 0
HasLevel x a = (l : ℕ) × (level_of x a ≡ some l)

pub HasLevel-cases : (x : String) (a : Levels) → (level_of x a ≡ none) ⊎ HasLevel x a
HasLevel-cases x a = Option-cases (level_of x a)

-- From `a` to `a'` levels stay, and exactly the references in `ns` get the level `level`.
pub record IsStep (level : ℕ) (a a' : Levels) (ns : List String) : Type 0 where
  pub keeps : (x : String) (l : ℕ) → level_of x a ≡ some l → level_of x a' ≡ some l
  pub fresh :
      (x : String) → level_of x a ≡ none → HasLevel x a' → (level_of x a' ≡ some level) × Memᴰ x ns
  pub news : (x : String) → Memᴰ x ns → (level_of x a ≡ none) × HasLevel x a'

module _ {level : ℕ} where
  pub IsStep-refl : {a : Levels} → IsStep level a a []
  IsStep-refl = record {
    keeps = λ x l e. e;
    fresh = λ x n h. cc (n, h.1);
    news = λ x m. elim m [ ];
  }

  -- What has no level after a step had none before.
  pub IsStep-none :
      {a a' : Levels} {ns : List String}
      → IsStep level a a' ns
      → (x : String) → level_of x a' ≡ none
      → level_of x a ≡ none
  IsStep-none {a} s x n = elim (HasLevel-cases x a) [
    | inl k ↦ k
    | inr (l, k) ↦ cc (n, s.keeps x l k)
  ]

  pub IsStep-trans :
      {a b c : Levels} {ns ms : List String}
      → IsStep level a b ns
      → IsStep level b c ms
      → IsStep level a c (ns ++ ms)
  IsStep-trans {a} {b} {c} {ns} {ms} s t = record {
    keeps = λ x l e. t.keeps x l (s.keeps x l e);
    fresh = λ x n h. elim (HasLevel-cases x b) [
      | inl k ↦ let (e, m) = t.fresh x k h in (e, mem-append_right ns m)
      | inr k ↦ let (e, m) = s.fresh x n k in (t.keeps x level e, mem-append_left ms m)
    ];
    news = λ x m. elim (mem-append ns ms m) [
      | inl k ↦ let (n, (l, e)) = s.news x k in (n, (l, t.keeps x l e))
      | inr k ↦ let (n, h) = t.news x k in (IsStep-none s x n, h)
    ];
  }

  IsStep-one :
      (r : String) (a : Levels) → level_of r a ≡ none → IsStep level a ((r, level) ∷ a) (r ∷ [])
  unfolding level_of
  IsStep-one r a n = record {
    keeps = λ x l e. ground (arith, n, e, str_eq_iff r x);
    fresh = λ x k h. elim (Bool-cases (str_eq r x)) [
      | inl e ↦ (rw e, Memᴰ.head (sym ((str_eq_iff r x).0 e)))
      | inr e ↦ absurd (ground (arith, e, k, h.1))
    ];
    news = λ x m. of_head x m;
  }
    where
      of_head : (x : String) → Memᴰ x (r ∷ []) → (level_of x a ≡ none) × HasLevel x ((r, level) ∷ a)
      of_head x (Memᴰ.head e) = (rw e n, (level, ground (arith, e, str_eq_iff r x)))
      of_head x (Memᴰ.tail m) = elim m [ ]

module _ (level : ℕ) (r : String) (rs : List String) (a : Levels) where
  pub assign-seen : (l : ℕ) → level_of r a ≡ some l → assign level (r ∷ rs) a ≡ assign level rs a
  unfolding assign
  assign-seen l e = rw (assign, e)

  pub assign-unseen :
      level_of r a ≡ none
      → assign level (r ∷ rs) a
        ≡ ((assign level rs ((r, level) ∷ a)).0, r ∷ (assign level rs ((r, level) ∷ a)).1)
  unfolding assign
  assign-unseen e = rw (assign, e)

module _ (level : ℕ) where
  pub assign-IsStep :
      (rs : List String) (a : Levels) → IsStep level a (assign level rs a).0 (assign level rs a).1
  unfolding assign
  assign-IsStep [] a = IsStep-refl
  assign-IsStep (r ∷ rs) a = elim (HasLevel-cases r a) [
    | inr (l, k) ↦ rw (assign-seen level r rs a l k) (assign-IsStep rs a)
    | inl k ↦
        rw (assign-unseen level r rs a k)
          (IsStep-trans (IsStep-one r a k) (assign-IsStep rs ((r, level) ∷ a)))
  ]

  HasLevel-assign :
      (x : String) (rs : List String) (a : Levels) → HasLevel x a → HasLevel x (assign level rs a).0
  HasLevel-assign x rs a (l, e) = (l, (assign-IsStep rs a).keeps x l e)

  HasLevel-one : (x r : String) (a : Levels) → x ≡ r → HasLevel x ((r, level) ∷ a)
  unfolding level_of
  HasLevel-one x r a e = (level, ground (arith, e, str_eq_iff r x))

  pub assign-covers :
      (x : String) (rs : List String) (a : Levels) → Memᴰ x rs → HasLevel x (assign level rs a).0
  assign-covers x [] a m = elim m [ ]
  assign-covers x (r ∷ rs) a (Memᴰ.head e) = elim (HasLevel-cases r a) [
    | inr (l, k) ↦ rw (assign-seen level r rs a l k) (HasLevel-assign x rs a (l, rw e k))
    | inl k ↦
        rw (assign-unseen level r rs a k)
          (HasLevel-assign x rs ((r, level) ∷ a) (HasLevel-one x r a e))
  ]
  assign-covers x (r ∷ rs) a (Memᴰ.tail m) = elim (HasLevel-cases r a) [
    | inr (l, k) ↦ rw (assign-seen level r rs a l k) (assign-covers x rs a m)
    | inl k ↦ rw (assign-unseen level r rs a k) (assign-covers x rs ((r, level) ∷ a) m)
  ]

  pub assign-from :
      (x : String) (rs : List String) (a : Levels) → Memᴰ x (assign level rs a).1 → Memᴰ x rs
  unfolding assign
  assign-from x [] a m = m
  assign-from x (r ∷ rs) a m = elim (HasLevel-cases r a) [
    | inr (l, k) ↦ Memᴰ.tail (assign-from x rs a (rw (assign-seen level r rs a l k) at m))
    | inl k ↦ mem-cons (assign-from x rs ((r, level) ∷ a)) (rw (assign-unseen level r rs a k) at m)
  ]
