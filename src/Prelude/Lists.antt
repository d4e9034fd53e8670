-- ===== src/Prelude/Lists.antt =====
-- Lists over the native numbers, under the library's names, and predicates on all members.
use Prim.Native.Nat.{ℕ, zero, suc, ◌+◌, ◌≤◌}
use mathlib.Core.Path.{◌≡◌, refl, subst, sym}
use mathlib.Core.Logic.{inl, inr}
use mathlib.Core.Bool.{Bool, true, false, ◌||◌, ◌&&◌}
use mathlib.Core.List.{List, [], ◌∷◌, ◌++◌, Memᴰ}
use mathlib.Core.Option.{Option, none, some}
use native.Mathlib.Omega.{arith}
use nl_kat_coordination.Prelude.Tests.{if◌then◌else◌, Bool-cases}

module _ {ℓ} {A : Type ℓ} where
  abbrev pub length : List A → ℕ
  length [] = 0
  length (x ∷ xs) = suc (length xs)

  abbrev pub take : ℕ → List A → List A
  take zero xs = []
  take (suc n) [] = []
  take (suc n) (x ∷ xs) = x ∷ take n xs

  abbrev pub drop : ℕ → List A → List A
  drop zero xs = xs
  drop (suc n) [] = []
  drop (suc n) (x ∷ xs) = drop n xs

  -- `[x for x in xs if p(x)]`
  abbrev pub keep : (A → Bool) → List A → List A
  keep p [] = []
  keep p (x ∷ xs) = let rest = keep p xs in if p x then x ∷ rest else rest

  -- `any(p(x) for x in xs)`
  abbrev pub any_of : (A → Bool) → List A → Bool
  any_of p [] = false
  any_of p (x ∷ xs) = p x || any_of p xs

  -- The first match, as `.first()` on a query.
  abbrev pub first : List A → Option A
  first [] = none
  first (x ∷ xs) = some x

  pub length-append : (xs ys : List A) → length (xs ++ ys) ≡ length xs + length ys
  length-append [] ys = omega arith
  length-append (x ∷ xs) ys = omega (arith, length-append xs ys)

  pub any_of-append :
      (p : A → Bool) (xs ys : List A) → any_of p (xs ++ ys) ≡ (any_of p xs || any_of p ys)
  any_of-append p [] ys = refl
  any_of-append p (x ∷ xs) ys = ground (arith, any_of-append p xs ys)

  pub keep-keep : (p q : A → Bool) (xs : List A) → keep p (keep q xs) ≡ keep (λ x. q x && p x) xs
  keep-keep p q [] = refl
  keep-keep p q (x ∷ xs) = ground (arith, keep-keep p q xs)

  pub keep-same : (p q : A → Bool) → ((x : A) → p x ≡ q x) → (xs : List A) → keep p xs ≡ keep q xs
  keep-same p q f [] = refl
  keep-same p q f (x ∷ xs) = ground (arith, f x, keep-same p q f xs)

  pub any_of-keep :
      (p q : A → Bool) (xs : List A) → any_of p (keep q xs) ≡ any_of (λ x. q x && p x) xs
  any_of-keep p q [] = refl
  any_of-keep p q (x ∷ xs) = ground (arith, any_of-keep p q xs)

  pub length-take-le : (n : ℕ) (xs : List A) → length (take n xs) ≤ n
  length-take-le zero xs = omega arith
  length-take-le (suc n) [] = omega arith
  length-take-le (suc n) (x ∷ xs) = omega (arith, length-take-le n xs)

  pub keep-append : (p : A → Bool) (xs ys : List A) → keep p (xs ++ ys) ≡ keep p xs ++ keep p ys
  keep-append p [] ys = refl
  keep-append p (x ∷ xs) ys = ground (arith, keep-append p xs ys)

  mem-keep_step :
      (p : A → Bool) {x y : A} {xs ys : List A}
      → p y ≡ true
      → (Memᴰ x xs → Memᴰ x ys × (p x ≡ true))
      → Memᴰ x (y ∷ xs)
      → Memᴰ x (y ∷ ys) × (p x ≡ true)
  mem-keep_step p py f (Memᴰ.head e) = (Memᴰ.head e, subst (λ z. p z ≡ true) (sym e) py)
  mem-keep_step p py f (Memᴰ.tail m) = let (n, h) = f m in (Memᴰ.tail n, h)

  pub mem-keep :
      (p : A → Bool) (x : A) (xs : List A) → Memᴰ x (keep p xs) → Memᴰ x xs × (p x ≡ true)
  mem-keep p x [] m = elim m [ ]
  mem-keep p x (y ∷ ys) m = elim (Bool-cases (p y)) [
    | inl e ↦ mem-keep_step p e (mem-keep p x ys) (rw e at m)
    | inr e ↦ let (n, h) = mem-keep p x ys (rw e at m) in (Memᴰ.tail n, h)
  ]

  pub keep-false : (p : A → Bool) (x : A) (xs : List A) → p x ≡ false → Memᴰ x (keep p xs) → ⊥
  keep-false p x xs h m = let k = (mem-keep p x xs m).1 in ground (arith, h, k)

  pub mem-keep_of :
      (p : A → Bool) {x : A} {xs : List A} → Memᴰ x xs → p x ≡ true → Memᴰ x (keep p xs)
  mem-keep_of p (Memᴰ.head {x = y} e) h = rw (subst (λ z. p z ≡ true) e h) (Memᴰ.head e)
  mem-keep_of p (Memᴰ.tail {x = y} m) h = elim (Bool-cases (p y)) [
    | inl e ↦ rw e (Memᴰ.tail (mem-keep_of p m h))
    | inr e ↦ rw e (mem-keep_of p m h)
  ]

  pub mem_of_mem-take : (n : ℕ) (x : A) (xs : List A) → Memᴰ x (take n xs) → Memᴰ x xs
  mem_of_mem-take zero x xs m = elim m [ ]
  mem_of_mem-take (suc n) x [] m = elim m [ ]
  mem_of_mem-take (suc n) x (y ∷ ys) (Memᴰ.head e) = Memᴰ.head e
  mem_of_mem-take (suc n) x (y ∷ ys) (Memᴰ.tail m) = Memᴰ.tail (mem_of_mem-take n x ys m)

-- Every member satisfies `P`: computes to a tuple, which the tactics read and build.
module _ {ℓ κ} {A : Type ℓ} where
  abbrev pub All : (A → Type κ) → List A → Type κ
  All P [] = Unit
  All P (x ∷ xs) = P x × All P xs

module _ {ℓ κ} {A : Type ℓ} {P : A → Type κ} where
  pub All-intro : (xs : List A) → ((x : A) → Memᴰ x xs → P x) → All P xs
  All-intro [] f = tt
  All-intro (x ∷ xs) f = (f x (Memᴰ.head refl), All-intro xs (λ y m. f y (Memᴰ.tail m)))

module _ {ℓ κ} {A : Type ℓ} (P : A → Type κ) where
  pub All-at : {x : A} {xs : List A} → All P xs → Memᴰ x xs → P x
  All-at h (Memᴰ.head e) = subst P (sym e) h.0
  All-at h (Memᴰ.tail m) = All-at h.1 m

  pub All-append : (xs ys : List A) → All P xs → All P ys → All P (xs ++ ys)
  All-append [] ys hx hy = hy
  All-append (x ∷ xs) ys hx hy = (hx.0, All-append xs ys hx.1 hy)
