-- ===== src/Octopoes/Explanations/Candidates.antt =====
-- The inheritances among which get_scan_profile_inheritance of octopoes/octopoes/core/service.py looks.
use nl_kat_coordination.Prelude.{
  ℕ, String, List, [], ◌∷◌, keep, any_of, map, mem-map, mem-map_of, ◌==◌, ==_iff, some, Bool, true,
  false, not, ltb, leb, str_eq, ◌≡◌, refl, sym, subst, ap, ◌∙◌, arith, Memᴰ, inl, inr, Bool-cases,
  Option-cases, mem-keep, mem-keep_of, mem-flat_map, mem-flat_map_of, mem-sort_by, mem_of_sort_by,
}
use nl_kat_coordination.Octopoes.Paths.{Segment, get_paths_to_neighbours}
use nl_kat_coordination.Octopoes.Profiles.{ScanProfile, Objects, check_path_level}
use nl_kat_coordination.Octopoes.Explanations.{
  InheritanceSection, section_of, scan_profile_of, min_level, max_inheritance_level, sorts_before,
  path_can_inherit_level, inheritances_along, inheritances_of, inheritances,
}

module _ (obj : Objects) (ps : List ScanProfile) where
  -- The section is of a neighbour that is not visited, along a path that lets `level` of the
  -- neighbour's level through, and no more.
  pub record IsInheritance (r : String) (level : ℕ) (visited : List String) (x : InheritanceSection)
      : Type 0 where
    pub path : Segment
    pub max_level : ℕ
    pub is_path : Memᴰ path (get_paths_to_neighbours obj.types (obj.class_of r))
    pub passes : max_inheritance_level obj path ≡ some max_level
    pub neighbour : Memᴰ x.reference (obj.neighbours r path)
    pub unvisited : any_of (str_eq x.reference) visited ≡ false
    pub is_section : x ≡ section_of (scan_profile_of ps x.reference) path x.reference max_level
    pub passed : min_level max_level x.level ≡ level

  module _ (level : ℕ) (s : Segment) (max_level : ℕ) where
    abbrev section_at : String → InheritanceSection
    section_at y = section_of (scan_profile_of ps y) s y max_level

    fits : String → Bool
    fits y = min_level max_level (section_at y).level == level

    inheritances_along_lem :
        (rs : List String)
        → inheritances_along obj ps level s max_level rs ≡ map section_at (keep fits rs)
    unfolding inheritances_along fits
    inheritances_along_lem [] = refl
    inheritances_along_lem (y ∷ ys) = ground (arith, inheritances_along_lem ys)

    -- A section along a segment is of a neighbour that is not visited.
    along-from :
        {x : InheritanceSection} (r : String) (visited : List String)
        → Memᴰ s (get_paths_to_neighbours obj.types (obj.class_of r))
        → max_inheritance_level obj s ≡ some max_level
        → Memᴰ x (
            inheritances_along obj ps level s max_level
              (keep (λ n. not (any_of (str_eq n) visited)) (obj.neighbours r s)))
        → IsInheritance r level visited x
    unfolding fits
    along-from {x} r visited p k m =
        let unvisited = λ (n : String). not (any_of (str_eq n) visited) in
        let (y, a, e) = mem-map section_at _ (rw (inheritances_along_lem _) at m) in
        let (b, f) = mem-keep fits y _ a in
        let (c, u) = mem-keep unvisited y _ b in
        record {
          path = s;
          max_level = max_level;
          is_path = p;
          passes = k;
          neighbour = rw e c;
          unvisited = rw e (ground (arith, u));
          is_section = e ∙ ap section_at (sym (ap (λ (z : InheritanceSection). z.reference) e));
          passed = rw e ((==_iff _ _).0 f);
        }

    along-of :
        {x : InheritanceSection} (r : String) (visited : List String)
        → Memᴰ x.reference (obj.neighbours r s)
        → any_of (str_eq x.reference) visited ≡ false
        → x ≡ section_at x.reference
        → min_level max_level x.level ≡ level
        → Memᴰ x (
            inheritances_along obj ps level s max_level
              (keep (λ n. not (any_of (str_eq n) visited)) (obj.neighbours r s)))
    unfolding fits
    along-of {x} r visited n u e p =
        let k = mem-keep_of (λ n. not (any_of (str_eq n) visited)) n (rw u refl) in
        let q : fits x.reference ≡ true =
          (==_iff _ _).1
            (subst (λ (z : InheritanceSection). min_level max_level z.level ≡ level) e p) in
        rw (inheritances_along_lem _) (
          subst
            (λ z. Memᴰ z (
              map section_at (
                keep fits
                  (keep (λ (n : String). not (any_of (str_eq n) visited)) (obj.neighbours r s)))))
            (sym e) (mem-map_of section_at (mem-keep_of fits k q)))

  module _ (r : String) (level : ℕ) (visited : List String) where
    inheritances_of-from :
        {x : InheritanceSection} (s : Segment)
        → Memᴰ s (get_paths_to_neighbours obj.types (obj.class_of r))
        → Memᴰ x (inheritances_of obj ps r level visited s)
        → IsInheritance r level visited x
    unfolding inheritances_of
    inheritances_of-from s p m = elim (Option-cases (max_inheritance_level obj s)) [
      | inl k ↦ elim (rw (inheritances_of, k) at m) [ ]
      | inr (l, k) ↦ elim (Bool-cases (ltb l level)) [
        | inl h ↦ elim (rw (inheritances_of, k, h) at m) [ ]
        | inr h ↦ along-from level s l r visited p k (rw (inheritances_of, k, h) at m)
      ]
    ]

    pub inheritances-from :
        {x : InheritanceSection}
        → Memᴰ x (inheritances obj ps r level visited)
        → IsInheritance r level visited x
    unfolding inheritances
    inheritances-from m =
        let (s, p, n) = mem-flat_map _ _ (mem-sort_by sorts_before _ m) in
        inheritances_of-from s (mem-keep _ s _ p).0 n

    pub inheritances_mem :
        {x : InheritanceSection}
        → IsInheritance r level visited x
        → Memᴰ x (inheritances obj ps r level visited)
    unfolding inheritances inheritances_of path_can_inherit_level check_path_level
    inheritances_mem {x} i =
        let below : leb level i.max_level ≡ true = ground (arith, i.passed) in
        let high : ltb i.max_level level ≡ false = ground (arith, i.passed) in
        mem_of_sort_by sorts_before (
          mem-flat_map_of (inheritances_of obj ps r level visited)
            (mem-keep_of (path_can_inherit_level obj level) i.is_path
              (rw (path_can_inherit_level, i.passes) below))
            (rw (inheritances_of, i.passes, high)
              (along-of level i.path i.max_level r visited i.neighbour i.unvisited i.is_section
                i.passed)))
