-- ===== src/Prelude/Mapping.antt =====
-- A list of lists, one for each member, joined.
use mathlib.Core.Path.{◌≡◌, refl, subst}
use mathlib.Core.Logic.{◌⊎◌, inl, inr}
use native.Mathlib.Omega.{arith}
use mathlib.Core.Bool.{Bool, true}
use nl_kat_coordination.Prelude.Tests.{Bool-cases}
use nl_kat_coordination.Prelude.Lists.{any_of}
use mathlib.Core.List.{List, [], ◌∷◌, ◌++◌, Memᴰ}

module _ {ℓ} {A : Type ℓ} where
  pub mem-append : {x : A} (xs ys : List A) → Memᴰ x (xs ++ ys) → Memᴰ x xs ⊎ Memᴰ x ys
  mem-append [] ys m = inr m
  mem-append (y ∷ xs) ys (Memᴰ.head e) = inl (Memᴰ.head e)
  mem-append (y ∷ xs) ys (Memᴰ.tail m) = elim (mem-append xs ys m) [
    | inl l ↦ inl (Memᴰ.tail l)
    | inr r ↦ inr r
  ]

  pub mem-append_left : {x : A} {xs : List A} (ys : List A) → Memᴰ x xs → Memᴰ x (xs ++ ys)
  mem-append_left ys (Memᴰ.head e) = Memᴰ.head e
  mem-append_left ys (Memᴰ.tail m) = Memᴰ.tail (mem-append_left ys m)

  pub mem-append_right : {x : A} (xs : List A) {ys : List A} → Memᴰ x ys → Memᴰ x (xs ++ ys)
  mem-append_right [] m = m
  mem-append_right (y ∷ xs) m = Memᴰ.tail (mem-append_right xs m)

module _ {ℓ κ} {A : Type ℓ} {B : Type κ} where
  unfoldable pub flat_map : (A → List B) → List A → List B
  flat_map f [] = []
  flat_map f (x ∷ xs) = f x ++ flat_map f xs

  -- The member that a member of the joined list is from
  pub mem-flat_map :
      (f : A → List B) {y : B} (xs : List A)
      → Memᴰ y (flat_map f xs)
      → (x : A) × Memᴰ x xs × Memᴰ y (f x)
  unfolding flat_map
  mem-flat_map f [] m = elim m [ ]
  mem-flat_map f (x ∷ xs) m = elim (mem-append (f x) (flat_map f xs) m) [
    | inl l ↦ (x, Memᴰ.head refl, l)
    | inr r ↦ let (z, n, k) = mem-flat_map f xs r in (z, Memᴰ.tail n, k)
  ]

  pub mem-flat_map_of :
      (f : A → List B) {x : A} {y : B} {xs : List A}
      → Memᴰ x xs
      → Memᴰ y (f x)
      → Memᴰ y (flat_map f xs)
  unfolding flat_map
  mem-flat_map_of f {xs = []} m k = elim m [ ]
  mem-flat_map_of f {y = y} {xs = z ∷ xs} (Memᴰ.head e) k =
      mem-append_left (flat_map f xs) (subst (λ w. Memᴰ y (f w)) e k)
  mem-flat_map_of f {xs = z ∷ xs} (Memᴰ.tail m) k = mem-append_right (f z) (mem-flat_map_of f m k)

module _ {ℓ} {A : Type ℓ} where
  pub any_of_exists :
      (p : A → Bool) (xs : List A) → any_of p xs ≡ true → (x : A) × Memᴰ x xs × (p x ≡ true)
  any_of_exists p [] h = absurd (ground arith)
  any_of_exists p (x ∷ xs) h = elim (Bool-cases (p x)) [
    | inl e ↦ (x, Memᴰ.head refl, e)
    | inr e ↦ let (z, m, k) = any_of_exists p xs (rw e at h) in (z, Memᴰ.tail m, k)
  ]

  pub any_of_mem :
      (p : A → Bool) {x : A} {xs : List A} → Memᴰ x xs → p x ≡ true → any_of p xs ≡ true
  any_of_mem p {xs = []} m h = elim m [ ]
  any_of_mem p {xs = y ∷ ys} (Memᴰ.head e) h = rw (subst (λ z. p z ≡ true) e h) refl
  any_of_mem p {xs = y ∷ ys} (Memᴰ.tail m) h = ground (arith, any_of_mem p m h)
