-- ===== src/Octopoes/Explanations/Answered.antt =====
-- get_scan_profile_inheritance of octopoes/octopoes/core/service.py answers with an explanation where
-- there is one.
use nl_kat_coordination.Prelude.{
  ℕ, zero, suc, ◌<◌, String, List, [], ◌∷◌, ◌++◌, keep, any_of, any_of-append, first, length,
  length-keep-le, count_of, count_of_lt, none, some, Bool, sort_by, true, false, not, str_eq,
  str_eq_iff, ◌≡◌, refl, sym, subst, ap, ◌∙◌, arith, Memᴰ, mem-keep, mem-keep_of, mem-sort_by,
  mem_of_sort_by, inl, inr, Bool-cases, Option-cases,
}
use nl_kat_coordination.Octopoes.Profiles.{ScanProfile, Objects, is_declared}
use nl_kat_coordination.Octopoes.Profiles.Pass.{IsStored}
use nl_kat_coordination.Octopoes.Explanations.{
  InheritanceSection, Explanation, first_explained, last_of, sorts_before, best_inheritances,
  scan_profile_of, inheritances, get_scan_profile_inheritance,
}
use nl_kat_coordination.Octopoes.Explanations.Candidates.{
  IsInheritance, inheritances-from, inheritances_mem,
}
use nl_kat_coordination.Octopoes.Explanations.Best.{mem-best_inheritances, best-Holds}
use nl_kat_coordination.Octopoes.Explanations.Explained.{
  references, references-append, last_of-append, Explains, IsExplained, IsStep,
  first_explained-IsChosen,
}

abbrev is_declared_section : InheritanceSection → Bool
is_declared_section x = is_declared x.scan_profile_type

first-mem {ℓ} : {A : Type ℓ} (xs : List A) (x : A) → first xs ≡ some x → Memᴰ x xs
first-mem [] x e = absurd (ground (arith, e))
first-mem (y ∷ ys) x e = Memᴰ.head (ground (arith, e))

first-none {ℓ} : {A : Type ℓ} {x : A} (xs : List A) → first xs ≡ none → Memᴰ x xs → ⊥
first-none [] e m = elim m [ ]
first-none (y ∷ ys) e m = ground (arith, e)

best-mem :
    {z : InheritanceSection} (xs : List InheritanceSection)
    → Memᴰ z (best_inheritances [] xs)
    → Memᴰ z xs
best-mem xs m = elim (mem-best_inheritances [] xs m) [ inl n ↦ elim n [ ] | inr n ↦ n ]

module _ (obj : Objects) (ps : List ScanProfile) where
  section_level :
      {r : String} {level : ℕ} {visited : List String} {x : InheritanceSection}
      → IsInheritance obj ps r level visited x
      → x.level ≡ (scan_profile_of ps x.reference).level
  section_level i = ap (λ (z : InheritanceSection). z.level) i.is_section

  unvisited : List String → ℕ
  unvisited visited = count_of (λ r. not (any_of (str_eq r) visited)) obj.references

  -- A neighbour that is visited leaves fewer objects.
  unvisited-lt :
      IsStored obj
      → (r : String) (level : ℕ) (visited : List String) (x : InheritanceSection)
      → IsInheritance obj ps r level visited x
      → unvisited (visited ++ x.reference ∷ []) < unvisited visited
  unfolding unvisited
  unvisited-lt stored r level visited x i =
      count_of_lt (λ r. not (any_of (str_eq r) visited))
        (λ r. not (any_of (str_eq r) (visited ++ x.reference ∷ [])))
        (λ y h. ground (arith, any_of-append (str_eq y) visited (x.reference ∷ []), h))
        (stored r x.reference i.path i.neighbour) (rw i.unvisited refl)
        (let own : str_eq x.reference x.reference ≡ true = (str_eq_iff _ _).1 refl in
          rw (any_of-append (str_eq x.reference) visited (x.reference ∷ []), i.unvisited, own) refl)

  -- Where no inheritance is declared and the best ones have no explanation, there is none.
  none_by_best :
      (r : String) (level : ℕ) (chain : List InheritanceSection)
      → ((x : InheritanceSection)
          → Memᴰ x (inheritances obj ps r level (references chain))
          → is_declared_section x ≡ false)
      → ((x : InheritanceSection) (ys : List InheritanceSection)
          → Memᴰ x (
              sort_by sorts_before
                (best_inheritances [] (inheritances obj ps r level (references chain))))
          → Explains obj ps x.reference x.level (references chain ++ x.reference ∷ []) ys
          → ⊥)
      → (xs : List InheritanceSection) → Explains obj ps r level (references chain) xs
      → ⊥
  none_by_best r level chain f g xs (Explains.by_declared {x = x} i d) =
      let k = f x (inheritances_mem obj ps r level (references chain) i) in ground (arith, d, k)
  none_by_best r level chain f g xs (Explains.through {x = x} {xs = ys} i w) =
      let m = inheritances_mem obj ps r level (references chain) i in
      let (z, n, e) = best-Holds _ (x, m, refl) in
      let same : z.level ≡ x.level =
        section_level (inheritances-from obj ps r level (references chain) (best-mem _ n))
        ∙ ap (λ s. (scan_profile_of ps s).level) e
        ∙ sym (section_level i) in
      g z ys (mem_of_sort_by sorts_before n) (
        subst (λ s. Explains obj ps s z.level (references chain ++ s ∷ []) ys) (sym e)
          (subst (λ l. Explains obj ps x.reference l (references chain ++ x.reference ∷ []) ys)
            (sym same) w))

  -- The loop over the best inheritances, where each is explained
  first_explained-IsExplained :
      (r : String) (level : ℕ) (chain : List InheritanceSection)
      (explain : InheritanceSection → Explanation)
      → ((x : InheritanceSection)
          → Memᴰ x (inheritances obj ps r level (references chain))
          → is_declared_section x ≡ false)
      → ((x : InheritanceSection)
          → IsInheritance obj ps r level (references chain) x
          → IsExplained obj ps x.reference x.level
              (references chain ++ x.reference ∷ [])
              (chain ++ x ∷ [])
              (explain x))
      → IsExplained obj ps r level (references chain) chain (
          first_explained explain chain (
            sort_by sorts_before
              (best_inheritances [] (inheritances obj ps r level (references chain)))))
  first_explained-IsExplained r level chain explain undeclared explains =
      elim (first_explained-IsChosen obj ps r level chain explain _ step) [
        | inl (h, g) ↦ inl (h, λ (zs, w). none_by_best r level chain undeclared g zs w)
        | inr (zs, h, w) ↦ inr (zs, h, w)
      ]
    where
      xs : List InheritanceSection
      xs = inheritances obj ps r level (references chain)

      step :
          (x : InheritanceSection)
          → Memᴰ x (sort_by sorts_before (best_inheritances [] xs))
          → IsStep obj ps r level chain explain x
      step x m =
          let n = best-mem xs (mem-sort_by sorts_before _ m) in
          let i = inheritances-from obj ps r level (references chain) n in
          (i, undeclared x n, explains x i)

  module _ (stored : IsStored obj) where
    answered :
        (fuel : ℕ) (r : String) (chain : List InheritanceSection) (latest : InheritanceSection)
        → last_of chain ≡ some latest
        → unvisited (references chain) < fuel
        → IsExplained obj ps r latest.level
            (references chain)
            chain
            (get_scan_profile_inheritance obj ps fuel r chain)
    unfolding get_scan_profile_inheritance
    answered zero r chain latest e l = absurd (omega (arith, l))
    answered (suc fuel) r chain latest e l =
        elim (Option-cases (first (keep is_declared_section xs))) [
          | inr (x, k) ↦
              let (m, d) = mem-keep is_declared_section x xs (first-mem _ x k) in
              inr (
                x ∷ [],
                rw (get_scan_profile_inheritance, e, k) refl,
                Explains.by_declared (inheritances-from obj ps r latest.level (references chain) m)
                    d,
              )
          | inl k ↦
              rw (get_scan_profile_inheritance, e, k)
                (first_explained-IsExplained r latest.level chain _
                  (λ x m. elim (Bool-cases (is_declared_section x)) [
                    | inl d ↦ absurd (first-none _ k (mem-keep_of is_declared_section m d))
                    | inr d ↦ d
                  ])
                  (explains
                    (λ x. answered fuel x.reference (chain ++ x ∷ []) x (last_of-append chain x))))
        ]
      where
        xs : List InheritanceSection
        xs = inheritances obj ps r latest.level (references chain)

        explains :
            ((x : InheritanceSection)
              → unvisited (references (chain ++ x ∷ [])) < fuel
              → IsExplained obj ps x.reference x.level
                  (references (chain ++ x ∷ []))
                  (chain ++ x ∷ [])
                  (get_scan_profile_inheritance obj ps fuel x.reference (chain ++ x ∷ [])))
            → (x : InheritanceSection) → IsInheritance obj ps r latest.level (references chain) x
            → IsExplained obj ps x.reference x.level
                (references chain ++ x.reference ∷ [])
                (chain ++ x ∷ [])
                (get_scan_profile_inheritance obj ps fuel x.reference (chain ++ x ∷ []))
        explains later x i =
            let fewer = unvisited-lt stored r latest.level (references chain) x i in
            subst
              (λ v.
                IsExplained obj ps x.reference x.level v (chain ++ x ∷ [])
                  (get_scan_profile_inheritance obj ps fuel x.reference (chain ++ x ∷ [])))
              (references-append chain x)
              (later x (rw (references-append chain x) (omega (arith, fewer, l))))

    -- Where neighbours are stored objects and the fuel is more than the number of objects,
    -- get_scan_profile_inheritance returns the chain followed by an explanation: neighbours that are
    -- not visited, each of which lets exactly the level of the one before through, up to a declared
    -- one. Only where there is no explanation does it return the chain as it was.
    pub get_scan_profile_inheritance-IsExplained :
        (fuel : ℕ) (r : String) (chain : List InheritanceSection) (latest : InheritanceSection)
        → last_of chain ≡ some latest
        → length obj.references < fuel
        → IsExplained obj ps r latest.level
            (references chain)
            chain
            (get_scan_profile_inheritance obj ps fuel r chain)
    unfolding unvisited
    get_scan_profile_inheritance-IsExplained fuel r chain latest e l =
        let few = length-keep-le (λ r. not (any_of (str_eq r) (references chain))) obj.references in
        answered fuel r chain latest e (omega (arith, few, l))
