-- ===== src/Octopoes/Explanations/Best.antt =====
-- The dictionary `best_inheritance_per_neighbour` of get_scan_profile_inheritance in
-- octopoes/octopoes/core/service.py, and its loop.
use nl_kat_coordination.Prelude.{
  String, List, [], ◌∷◌, str_eq, str_eq_iff, ◌≡◌, refl, sym, subst, ap, ◌∙◌, Memᴰ, inl, inr, ◌⊎◌,
  Bool-cases, if_cases,
}
use nl_kat_coordination.Octopoes.Explanations.{
  InheritanceSection, exceeds, put_best, best_inheritances,
}

mem-put_best :
    {z : InheritanceSection} (x : InheritanceSection) (ys : List InheritanceSection)
    → Memᴰ z (put_best x ys)
    → (z ≡ x) ⊎ Memᴰ z ys
unfolding put_best
mem-put_best x [] (Memᴰ.head e) = inl e
mem-put_best x [] (Memᴰ.tail m) = elim m [ ]
mem-put_best {z} x (y ∷ ys) m = elim (Bool-cases (str_eq y.reference x.reference)) [
  | inl e ↦ elim (Bool-cases (exceeds x y)) [
    | inl k ↦ found inl (λ n. inr (Memᴰ.tail n)) (rw (e, k) at m)
    | inr k ↦ inr (rw (e, k) at m)
  ]
  | inr e ↦
      found (λ p. inr (Memᴰ.head p))
        (λ n. elim (mem-put_best x ys n) [ inl p ↦ inl p | inr k ↦ inr (Memᴰ.tail k) ]) (rw e at m)
]
  where
    found :
        {u : InheritanceSection} {us : List InheritanceSection}
        → (z ≡ u → (z ≡ x) ⊎ Memᴰ z (y ∷ ys))
        → (Memᴰ z us → (z ≡ x) ⊎ Memᴰ z (y ∷ ys))
        → Memᴰ z (u ∷ us)
        → (z ≡ x) ⊎ Memᴰ z (y ∷ ys)
    found f g (Memᴰ.head p) = f p
    found f g (Memᴰ.tail n) = g n

pub mem-best_inheritances :
    {z : InheritanceSection} (best xs : List InheritanceSection)
    → Memᴰ z (best_inheritances best xs)
    → Memᴰ z best ⊎ Memᴰ z xs
unfolding best_inheritances
mem-best_inheritances best [] m = inl m
mem-best_inheritances best (x ∷ xs) m = elim (mem-best_inheritances (put_best x best) xs m) [
  | inr n ↦ inr (Memᴰ.tail n)
  | inl n ↦ elim (mem-put_best x best n) [ inl e ↦ inr (Memᴰ.head e) | inr k ↦ inl k ]
]

-- A section of the reference `r` is there.
abbrev pub Holds : String → List InheritanceSection → Type 0
Holds r xs = (z : InheritanceSection) × Memᴰ z xs × (z.reference ≡ r)

later :
    {r : String} {y : InheritanceSection} {ys : List InheritanceSection}
    → Holds r ys
    → Holds r (y ∷ ys)
later (z, m, e) = (z, Memᴰ.tail m, e)

put_best-Holds_new :
    (x : InheritanceSection) (ys : List InheritanceSection) → Holds x.reference (put_best x ys)
unfolding put_best
put_best-Holds_new x [] = (x, Memᴰ.head refl, refl)
put_best-Holds_new x (y ∷ ys) =
    if_cases (Holds x.reference) (str_eq y.reference x.reference) _ _
      (λ e.
        if_cases (λ z. Holds x.reference (z ∷ ys)) (exceeds x y) _ _
          (λ k. (x, Memᴰ.head refl, refl)) (λ k. (y, Memᴰ.head refl, (str_eq_iff _ _).0 e)))
      (λ e. later (put_best-Holds_new x ys))

put_best-Holds :
    {r : String} (x : InheritanceSection) (ys : List InheritanceSection)
    → Holds r ys
    → Holds r (put_best x ys)
unfolding put_best
put_best-Holds x [] (z, m, e) = elim m [ ]
put_best-Holds {r} x (y ∷ ys) (z, Memᴰ.head p, e) =
    let q : y.reference ≡ r = ap (λ (u : InheritanceSection). u.reference) (sym p) ∙ e in
    if_cases (Holds r) (str_eq y.reference x.reference) _ _
      (λ e.
        if_cases (λ z. Holds r (z ∷ ys)) (exceeds x y) _ _
          (λ k. (x, Memᴰ.head refl, sym ((str_eq_iff _ _).0 e) ∙ q)) (λ k. (y, Memᴰ.head refl, q)))
      (λ e. (y, Memᴰ.head refl, q))
put_best-Holds {r} x (y ∷ ys) (z, Memᴰ.tail m, e) =
    if_cases (Holds r) (str_eq y.reference x.reference) _ _ (λ k. (z, Memᴰ.tail m, e))
      (λ k. later (put_best-Holds x ys (z, m, e)))

best_inheritances-Holds :
    {r : String} (best xs : List InheritanceSection)
    → Holds r best ⊎ Holds r xs
    → Holds r (best_inheritances best xs)
unfolding best_inheritances
best_inheritances-Holds best [] (inl h) = h
best_inheritances-Holds best [] (inr (z, m, e)) = elim m [ ]
best_inheritances-Holds best (x ∷ xs) (inl h) =
    best_inheritances-Holds (put_best x best) xs (inl (put_best-Holds x best h))
best_inheritances-Holds {r} best (x ∷ xs) (inr (z, Memᴰ.head p, e)) =
    best_inheritances-Holds (put_best x best) xs (
      inl (
        subst (λ q. Holds q (put_best x best))
          (ap (λ (u : InheritanceSection). u.reference) (sym p) ∙ e) (put_best-Holds_new x best)))
best_inheritances-Holds best (x ∷ xs) (inr (z, Memᴰ.tail m, e)) =
    best_inheritances-Holds (put_best x best) xs (inr (z, m, e))

-- The dictionary has a section for the reference of each inheritance.
pub best-Holds :
    {r : String} (xs : List InheritanceSection) → Holds r xs → Holds r (best_inheritances [] xs)
best-Holds xs h = best_inheritances-Holds [] xs (inr h)
