-- ===== src/Prelude/Counts.antt =====
-- How many members of a list pass a test.
use Prim.Native.Nat.{ℕ, zero, suc, ◌+◌, ◌≤◌, ◌<◌}
use mathlib.Core.Path.{◌≡◌, refl, subst, sym, ap, ◌∙◌}
use mathlib.Core.Logic.{◌⊎◌, inl, inr}
use mathlib.Core.Bool.{Bool, true, false}
use mathlib.Core.List.{List, [], ◌∷◌, ◌++◌, map, Memᴰ}
use native.Mathlib.Omega.{arith}
use nl_kat_coordination.Prelude.Tests.{Bool-cases}
use nl_kat_coordination.Prelude.Lists.{take, length, keep, any_of, keep-append, length-append}

module _ {ℓ} {A : Type ℓ} where
  abbrev pub count_of : (A → Bool) → List A → ℕ
  count_of p xs = length (keep p xs)

  pub count_of-append :
      (p : A → Bool) (xs ys : List A) → count_of p (xs ++ ys) ≡ count_of p xs + count_of p ys
  count_of-append p xs ys = rw keep-append (length-append (keep p xs) (keep p ys))

  pub count_of-zero : (p : A → Bool) (xs : List A) → any_of p xs ≡ false → count_of p xs ≡ 0
  count_of-zero p [] h = refl
  count_of-zero p (x ∷ xs) h = ground (arith, count_of-zero p xs)

  -- A member that is counted after a change was counted by `p` or by `r` before it.
  pub count_of-map-le :
      (f : A → A) (q p r : A → Bool)
      → ((x : A) → q (f x) ≡ true → (p x ≡ true) ⊎ (r x ≡ true))
      → (xs : List A) → count_of q (map f xs) ≤ count_of p xs + count_of r xs
  count_of-map-le f q p r h [] = omega arith
  count_of-map-le f q p r h (x ∷ xs) = ground (arith, h x, count_of-map-le f q p r h xs)

  pub count_of-map_mono :
      (f : A → A) (p : A → Bool)
      → ((x : A) → p (f x) ≡ true → p x ≡ true)
      → (xs : List A) → count_of p (map f xs) ≤ count_of p xs
  count_of-map_mono f p h [] = omega arith
  count_of-map_mono f p h (x ∷ xs) = ground (arith, h x, count_of-map_mono f p h xs)

  pub count_of-pos :
      (p : A → Bool) {x : A} {xs : List A} → Memᴰ x xs → p x ≡ true → 0 < count_of p xs
  count_of-pos p (Memᴰ.head {x = y} e) h = rw (subst (λ z. p z ≡ true) e h) (omega arith)
  count_of-pos p (Memᴰ.tail {x = y} {xs = ys} m) h = elim (Bool-cases (p y)) [
    | inl e ↦ rw e (omega arith)
    | inr e ↦ rw e (count_of-pos p m h)
  ]

  -- Where a test passes once at most, two members that pass it are one.
  pub eq_of_count_of :
      (p : A → Bool) {x y : A} {xs : List A}
      → Memᴰ x xs
      → Memᴰ y xs
      → p x ≡ true
      → p y ≡ true
      → count_of p xs ≤ 1
      → x ≡ y
  eq_of_count_of p (Memᴰ.head e) (Memᴰ.head k) hx hy c = e ∙ sym k
  eq_of_count_of p (Memᴰ.head e) (Memᴰ.tail m) hx hy c =
      absurd (ground (arith, count_of-pos p m hy, subst (λ z. p z ≡ true) e hx))
  eq_of_count_of p (Memᴰ.tail m) (Memᴰ.head e) hx hy c =
      absurd (ground (arith, count_of-pos p m hx, subst (λ z. p z ≡ true) e hy))
  eq_of_count_of p (Memᴰ.tail {x = z} m) (Memᴰ.tail n) hx hy c =
      eq_of_count_of p m n hx hy (elim (Bool-cases (p z)) [
        | inl e ↦ absurd (ground (arith, count_of-pos p m hx))
        | inr e ↦ ground arith
      ])

module _ {ℓ κ} {A : Type ℓ} {B : Type κ} where
  pub mem-map :
      (f : A → B) {y : B} (xs : List A) → Memᴰ y (map f xs) → (x : A) × Memᴰ x xs × (y ≡ f x)
  mem-map f [] m = elim m [ ]
  mem-map f (x ∷ xs) (Memᴰ.head e) = (x, Memᴰ.head refl, e)
  mem-map f (x ∷ xs) (Memᴰ.tail m) = let (z, n, e) = mem-map f xs m in (z, Memᴰ.tail n, e)

  pub any_of-map_exists :
      (f : A → B) (p : B → Bool) (xs : List A)
      → any_of p (map f xs) ≡ true
      → (x : A) × Memᴰ x xs × (p (f x) ≡ true)
  any_of-map_exists f p [] h = cc h
  any_of-map_exists f p (x ∷ xs) h = elim (Bool-cases (p (f x))) [
    | inl e ↦ (x, Memᴰ.head refl, e)
    | inr e ↦ let (z, n, k) = any_of-map_exists f p xs (rw e at h) in (z, Memᴰ.tail n, k)
  ]

  pub any_of-map_of :
      (f : A → B) (p : B → Bool) {x : A} {xs : List A}
      → Memᴰ x xs
      → p (f x) ≡ true
      → any_of p (map f xs) ≡ true
  any_of-map_of f p (Memᴰ.head e) h = rw (subst (λ z. p (f z) ≡ true) e h)
  any_of-map_of f p (Memᴰ.tail {x = y} m) h = ground (arith, any_of-map_of f p m h)

  pub mem-map_of : (f : A → B) {x : A} {xs : List A} → Memᴰ x xs → Memᴰ (f x) (map f xs)
  mem-map_of f (Memᴰ.head e) = Memᴰ.head (ap f e)
  mem-map_of f (Memᴰ.tail m) = Memᴰ.tail (mem-map_of f m)

module _ {ℓ} {A : Type ℓ} where
  pub take-all : (n : ℕ) (xs : List A) → length (take n xs) < n → take n xs ≡ xs
  take-all zero xs h = absurd (omega arith)
  take-all (suc n) [] h = refl
  take-all (suc n) (x ∷ xs) h = ap (λ ys. x ∷ ys) (take-all n xs (omega arith))

  count_of-le :
      (p q : A → Bool)
      → ((x : A) → q x ≡ true → p x ≡ true)
      → (xs : List A) → count_of q xs ≤ count_of p xs
  count_of-le p q h [] = omega arith
  count_of-le p q h (x ∷ xs) = ground (arith, h x, count_of-le p q h xs)

  -- A weaker test that also passes some other member passes more members.
  pub count_of_lt :
      (p q : A → Bool)
      → ((x : A) → q x ≡ true → p x ≡ true)
      → {x : A} {xs : List A} → Memᴰ x xs
      → p x ≡ true
      → q x ≡ false
      → count_of q xs < count_of p xs
  count_of_lt p q h {x} {xs = y ∷ xs} (Memᴰ.head e) hp hq =
      ground
        (arith, subst (λ z. p z ≡ true) e hp, subst (λ z. q z ≡ false) e hq, count_of-le p q h xs)
  count_of_lt p q h {xs = []} m hp hq = elim m [ ]
  count_of_lt p q h {xs = y ∷ xs} (Memᴰ.tail m) hp hq =
      ground (arith, h y, count_of_lt p q h m hp hq)

  pub length-keep-le : (p : A → Bool) (xs : List A) → length (keep p xs) ≤ length xs
  length-keep-le p [] = omega arith
  length-keep-le p (x ∷ xs) = ground (arith, length-keep-le p xs)
