-- ===== src/Octopoes/Explanations/Explained.antt =====
-- What get_scan_profile_inheritance of octopoes/octopoes/core/service.py answers.
use nl_kat_coordination.Prelude.{
  ℕ, ◌<◌, String, List, [], ◌∷◌, ◌++◌, map, length, length-append, some, true, false, ltb, ◌≡◌,
  refl, subst, ap, ◌∙◌, arith, Memᴰ, inl, inr, ◌⊎◌,
}
use nl_kat_coordination.Octopoes.Profiles.{ScanProfile, Objects, is_declared}
use nl_kat_coordination.Octopoes.Explanations.{
  InheritanceSection, Explanation, explained, first_explained, last_of, has_declared,
}
use nl_kat_coordination.Octopoes.Explanations.Candidates.{IsInheritance}

abbrev pub references : List InheritanceSection → List String
references xs = map (λ (x : InheritanceSection). x.reference) xs

pub references-append :
    (xs : List InheritanceSection) (x : InheritanceSection)
    → references (xs ++ x ∷ []) ≡ references xs ++ x.reference ∷ []
references-append [] x = refl
references-append (y ∷ ys) x = ap (λ rs. y.reference ∷ rs) (references-append ys x)

pub last_of-append :
    (xs : List InheritanceSection) (x : InheritanceSection) → last_of (xs ++ x ∷ []) ≡ some x
unfolding last_of
last_of-append [] x = refl
last_of-append (y ∷ []) x = refl
last_of-append (y ∷ z ∷ zs) x = last_of-append (z ∷ zs) x

append_one :
    (xs ys : List InheritanceSection) (x : InheritanceSection) → (xs ++ x ∷ []) ++ ys ≡ xs ++ x ∷ ys
append_one [] ys x = refl
append_one (z ∷ zs) ys x = ap (λ us. z ∷ us) (append_one zs ys x)

module _ (obj : Objects) (ps : List ScanProfile) where
  -- Sections from a neighbour to its neighbour and so on, none of an object twice, the last of which
  -- is declared: each level is the level that the next one lets through.
  pub data Explains : String → ℕ → List String → List InheritanceSection → Type 0 where
    by_declared :
        {r : String} {level : ℕ} {visited : List String} {x : InheritanceSection}
        → IsInheritance obj ps r level visited x
        → is_declared x.scan_profile_type ≡ true
        → Explains r level visited (x ∷ [])
    through :
        {r : String} {level : ℕ} {visited : List String} {x : InheritanceSection}
        {xs : List InheritanceSection}
        → IsInheritance obj ps r level visited x
        → Explains x.reference x.level (visited ++ x.reference ∷ []) xs
        → Explains r level visited (x ∷ xs)

  -- The chain goes on to an explanation, or is the answer and there is none.
  abbrev pub IsExplained : String → ℕ → List String → List InheritanceSection → Explanation → Type 0
  IsExplained r level visited chain e =
      ((e ≡ explained chain) × ¬ ((xs : List InheritanceSection) × Explains r level visited xs))
      ⊎ ((xs : List InheritanceSection) × (e ≡ explained (chain ++ xs))
          × Explains r level visited xs)

  Explains-has_declared :
      {r : String} {level : ℕ} {visited : List String} {xs : List InheritanceSection}
      (ys : List InheritanceSection)
      → Explains r level visited xs
      → (has_declared (last_of (ys ++ xs)) ≡ true) × (length ys < length (ys ++ xs))
  Explains-has_declared ys (by_declared {x = x} i d) =
      (rw (last_of-append ys x) d, rw (length-append ys (x ∷ [])) (omega arith))
  Explains-has_declared ys (through {x = x} {xs = zs} i rest) =
      let (d, l) = Explains-has_declared (ys ++ x ∷ []) rest in
      (
        subst (λ us. has_declared (last_of us) ≡ true) (append_one ys zs x) d,
        rw (length-append ys (x ∷ zs)) (omega arith),
      )

  module _ (r : String) (level : ℕ) (chain : List InheritanceSection)
      (explain : InheritanceSection → Explanation) where
    abbrev pub visited_by : InheritanceSection → List String
    visited_by x = references chain ++ x.reference ∷ []

    abbrev pub IsStep : InheritanceSection → Type 0
    IsStep x =
        IsInheritance obj ps r level (references chain) x
        × (is_declared x.scan_profile_type ≡ false)
        × IsExplained x.reference x.level (visited_by x) (chain ++ x ∷ []) (explain x)

    abbrev pub IsChosen : List InheritanceSection → Explanation → Type 0
    IsChosen xs e =
        ((e ≡ explained chain)
          × ((x : InheritanceSection) (ys : List InheritanceSection)
              → Memᴰ x xs
              → Explains x.reference x.level (visited_by x) ys
              → ⊥))
        ⊎ ((ys : List InheritanceSection) × (e ≡ explained (chain ++ ys))
            × Explains r level (references chain) ys)

    first_explained-taken :
        (x : InheritanceSection) (xs e : List InheritanceSection)
        → explain x ≡ explained e
        → (has_declared (last_of e) ≡ true) × (length chain < length e)
        → first_explained explain chain (x ∷ xs) ≡ explained e
    unfolding first_explained
    first_explained-taken x xs e k (d, l) =
        let longer : ltb (length chain) (length e) ≡ true = ground (arith, l) in
        rw (first_explained, k, longer, d) refl

    first_explained-skipped :
        (x : InheritanceSection) (xs e : List InheritanceSection)
        → explain x ≡ explained e
        → has_declared (last_of e) ≡ false
        → first_explained explain chain (x ∷ xs) ≡ first_explained explain chain xs
    unfolding first_explained
    first_explained-skipped x xs e k d = rw (first_explained, k) (ground (arith, d))

    -- Where no neighbour has an explanation, the chain is the answer.
    pub first_explained-IsChosen :
        (xs : List InheritanceSection)
        → ((x : InheritanceSection) → Memᴰ x xs → IsStep x)
        → IsChosen xs (first_explained explain chain xs)
    unfolding first_explained
    first_explained-IsChosen [] f = inl (refl, λ x ys m. elim m [ ])
    first_explained-IsChosen (x ∷ xs) f =
        choose (f x (Memᴰ.head refl)) (first_explained-IsChosen xs (λ y m. f y (Memᴰ.tail m)))
      where
        choose :
            IsStep x
            → IsChosen xs (first_explained explain chain xs)
            → IsChosen (x ∷ xs) (first_explained explain chain (x ∷ xs))
        choose (i, d, inr (ys, e, q)) c =
            let h = Explains-has_declared (chain ++ x ∷ []) q in
            inr (
              x ∷ ys,
              first_explained-taken x xs _ e (h.0, omega (arith, h.1, length-append chain (x ∷ [])))
                  ∙ ap explained (append_one chain ys x),
              through i q,
            )
        choose (i, d, inl (e, q)) c =
            let s = first_explained-skipped x xs _ e (rw (last_of-append chain x) d) in
            elim c [
              | inl (k, g) ↦ inl (s ∙ k, λ y ys m w. none_of q g y ys m w)
              | inr (ys, k, w) ↦ inr (ys, s ∙ k, w)
            ]
          where
            none_of :
                ¬ ((ys : List InheritanceSection) × Explains x.reference x.level (visited_by x) ys)
                → ((y : InheritanceSection) (ys : List InheritanceSection)
                    → Memᴰ y xs
                    → Explains y.reference y.level (visited_by y) ys
                    → ⊥)
                → (y : InheritanceSection) (ys : List InheritanceSection) → Memᴰ y (x ∷ xs)
                → Explains y.reference y.level (visited_by y) ys
                → ⊥
            none_of q g y ys (Memᴰ.head p) w = q (
              ys,
              subst (λ (z : InheritanceSection). Explains z.reference z.level (visited_by z) ys) p
                  w,
            )
            none_of q g y ys (Memᴰ.tail m) w = g y ys m w
