-- ===== src/Prelude/Sorting.antt =====
-- Sorting by a Boolean order, as the ORDER BY of a query. Members that compare equal keep their order.
use nl_kat_coordination.Prelude.Tests.{if◌then◌else◌, Bool-cases}
use nl_kat_coordination.Prelude.Lists.{take, All, All-intro, All-at, mem_of_mem-take}
use Prim.Native.Nat.{ℕ, zero, suc}
use mathlib.Core.Path.{◌≡◌, subst, sym}
use mathlib.Core.Logic.{◌⊎◌, inl, inr}
use mathlib.Core.Bool.{Bool, true, false}
use mathlib.Core.List.{List, [], ◌∷◌, Memᴰ}

module _ {ℓ} {A : Type ℓ} (le : A → A → Bool) where
  insert_by : A → List A → List A
  insert_by t [] = t ∷ []
  insert_by t (u ∷ us) = let rest = insert_by t us in if le t u then t ∷ u ∷ us else u ∷ rest

  unfoldable pub sort_by : List A → List A
  unfolding insert_by
  sort_by [] = []
  sort_by (t ∷ ts) = insert_by t (sort_by ts)

  -- Every member may stand before each member behind it.
  abbrev pub IsSorted : List A → Type ℓ
  IsSorted [] = Unit
  IsSorted (t ∷ ts) = All (λ u. le t u ≡ true) ts × IsSorted ts

  mem-insert_by : {x t : A} (us : List A) → Memᴰ x (insert_by t us) → (x ≡ t) ⊎ Memᴰ x us
  unfolding insert_by
  mem-insert_by [] (Memᴰ.head e) = inl e
  mem-insert_by [] (Memᴰ.tail m) = inr m
  mem-insert_by {t = t} (u ∷ us) m = elim (Bool-cases (le t u)) [
    | inl e ↦ here (rw e at m)
    | inr e ↦ there (mem-insert_by us) (rw e at m)
  ]
    where
      here : {x : A} → Memᴰ x (t ∷ u ∷ us) → (x ≡ t) ⊎ Memᴰ x (u ∷ us)
      here (Memᴰ.head e) = inl e
      here (Memᴰ.tail n) = inr n

      there :
          {x : A}
          → (Memᴰ x (insert_by t us) → (x ≡ t) ⊎ Memᴰ x us)
          → Memᴰ x (u ∷ insert_by t us)
          → (x ≡ t) ⊎ Memᴰ x (u ∷ us)
      there ih (Memᴰ.head e) = inr (Memᴰ.head e)
      there ih (Memᴰ.tail n) = elim (ih n) [ inl e ↦ inl e | inr k ↦ inr (Memᴰ.tail k) ]

  mem_of_insert_by : {x t : A} (us : List A) → (x ≡ t) ⊎ Memᴰ x us → Memᴰ x (insert_by t us)
  unfolding insert_by
  mem_of_insert_by [] (inl e) = Memᴰ.head e
  mem_of_insert_by [] (inr m) = Memᴰ.tail m
  mem_of_insert_by {t = t} (u ∷ us) m = elim (Bool-cases (le t u)) [
    | inl e ↦ rw e (elim m [ inl p ↦ Memᴰ.head p | inr n ↦ Memᴰ.tail n ])
    | inr e ↦ rw e (there (mem_of_insert_by us) m)
  ]
    where
      there :
          {x : A}
          → ((x ≡ t) ⊎ Memᴰ x us → Memᴰ x (insert_by t us))
          → (x ≡ t) ⊎ Memᴰ x (u ∷ us)
          → Memᴰ x (u ∷ insert_by t us)
      there ih (inl p) = Memᴰ.tail (ih (inl p))
      there ih (inr (Memᴰ.head p)) = Memᴰ.head p
      there ih (inr (Memᴰ.tail n)) = Memᴰ.tail (ih (inr n))

  pub mem-sort_by : {x : A} (ts : List A) → Memᴰ x (sort_by ts) → Memᴰ x ts
  unfolding sort_by
  mem-sort_by [] m = m
  mem-sort_by (t ∷ ts) m = elim (mem-insert_by (sort_by ts) m) [
    | inl e ↦ Memᴰ.head e
    | inr n ↦ Memᴰ.tail (mem-sort_by ts n)
  ]

  pub mem_of_sort_by : {x : A} {ts : List A} → Memᴰ x ts → Memᴰ x (sort_by ts)
  unfolding sort_by
  mem_of_sort_by (Memᴰ.head {xs = ts} e) = mem_of_insert_by (sort_by ts) (inl e)
  mem_of_sort_by (Memᴰ.tail {xs = ts} m) = mem_of_insert_by (sort_by ts) (inr (mem_of_sort_by m))

  pub take-IsSorted : (n : ℕ) (ts : List A) → IsSorted ts → IsSorted (take n ts)
  take-IsSorted zero ts h = tt
  take-IsSorted (suc n) [] h = tt
  take-IsSorted (suc n) (t ∷ ts) h = (
    All-intro (take n ts) (λ u m. All-at (λ w. le _ w ≡ true) h.0 (mem_of_mem-take n u ts m)),
    take-IsSorted n ts h.1,
  )

  -- What a limit leaves out stands behind all that it lets through.
  pub take_least :
      (n : ℕ) {x y : A} (ts : List A)
      → IsSorted ts
      → Memᴰ x (take n ts)
      → Memᴰ y ts
      → Memᴰ y (take n ts) ⊎ (le x y ≡ true)
  take_least zero ts h m k = elim m [ ]
  take_least (suc n) [] h m k = elim m [ ]
  take_least (suc n) (t ∷ ts) h m (Memᴰ.head e) = inl (Memᴰ.head e)
  take_least (suc n) {y = y} (t ∷ ts) h (Memᴰ.head e) (Memᴰ.tail k) =
      inr (subst (λ w. le w y ≡ true) (sym e) (All-at (λ w. le _ w ≡ true) h.0 k))
  take_least (suc n) (t ∷ ts) h (Memᴰ.tail m) (Memᴰ.tail k) = elim (take_least n ts h.1 m k) [
    | inl a ↦ inl (Memᴰ.tail a)
    | inr b ↦ inr b
  ]

  module _ (total : (t u : A) → le t u ≡ false → le u t ≡ true)
      (trans : (t u v : A) → le t u ≡ true → le u v ≡ true → le t v ≡ true) where
    insert_by-IsSorted : (t : A) (us : List A) → IsSorted us → IsSorted (insert_by t us)
    unfolding insert_by
    insert_by-IsSorted t [] h = (tt, tt)
    insert_by-IsSorted t (u ∷ us) h = elim (Bool-cases (le t u)) [
      | inl e ↦
          rw e (((e, All-intro us (λ v m. trans t u v e (All-at (λ w. le _ w ≡ true) h.0 m)))), h)
      | inr e ↦ rw e (
        All-intro (insert_by t us) (λ v m. elim (mem-insert_by us m) [
          | inl p ↦ subst (λ w. le u w ≡ true) (sym p) (total t u e)
          | inr n ↦ All-at (λ w. le _ w ≡ true) h.0 n
        ]),
        insert_by-IsSorted t us h.1,
      )
    ]

    pub sort_by-IsSorted : (ts : List A) → IsSorted (sort_by ts)
    unfolding sort_by
    sort_by-IsSorted [] = tt
    sort_by-IsSorted (t ∷ ts) = insert_by-IsSorted t (sort_by ts) (sort_by-IsSorted ts)
