-- ===== src/Octopoes/Profiles/Inheritance.antt =====
-- The levels that the four passes assign.
use nl_kat_coordination.Prelude.{
  ℕ, ◌≤◌, String, List, Option, none, some, true, ◌≡◌, arith, Memᴰ, inl, inr, mem-flat_map,
  mem-flat_map_of, mem-keep, mem-keep_of, Option-cases,
}
use nl_kat_coordination.Octopoes.Paths.{
  Segment, get_max_scan_level_issuance, get_paths_to_neighbours,
}
use nl_kat_coordination.Octopoes.Profiles.{
  Objects, ScanProfile, Levels, level_of, neighbours_at, paths_at, issues, check_path_level,
  declared_levels,
}
use nl_kat_coordination.Octopoes.Profiles.Pass.{IsStored, neighbours_at-stored}

module _ (obj : Objects) (ps : List ScanProfile) where
  abbrev pub declared_level : String → Option ℕ
  declared_level r = level_of r (declared_levels ps)

  -- An object that inherits `level` at least: a chain of objects, all but the first without a declared
  -- profile, leads to it from a stored object with a declared level of `level` or more, along
  -- paths that issue `level` or more.
  pub data Inherits (level : ℕ) : String → Type 0 where
    from_declared :
        {r y : String} {l : ℕ}
        → Memᴰ r obj.references
        → declared_level r ≡ some l
        → level ≤ l
        → Memᴰ y (neighbours_at obj level r)
        → declared_level y ≡ none
        → Inherits level y
    from_heir :
        {x y : String}
        → Inherits level x
        → Memᴰ y (neighbours_at obj level x)
        → declared_level y ≡ none
        → Inherits level y

  pub undeclared : {level : ℕ} {y : String} → Inherits level y → declared_level y ≡ none
  undeclared (from_declared m e h k n) = n
  undeclared (from_heir i k n) = n

  issues_lower :
      (low high : ℕ) (s : Segment) → low ≤ high → issues obj high s ≡ true → issues obj low s ≡ true
  unfolding issues check_path_level
  issues_lower low high s h e = elim (Option-cases (get_max_scan_level_issuance obj.types s)) [
    | inl n ↦ absurd (ground (arith, n, e))
    | inr (p, k) ↦ elim (Option-cases p) [
      | inl n ↦ absurd (ground (arith, n, k, e))
      | inr (l, n) ↦ ground (arith, n, k, e, h)
    ]
  ]

  neighbours_lower :
      (low high : ℕ) (r y : String)
      → low ≤ high
      → Memᴰ y (neighbours_at obj high r)
      → Memᴰ y (neighbours_at obj low r)
  unfolding neighbours_at paths_at
  neighbours_lower low high r y h m =
      let (s, n, k) = mem-flat_map (obj.neighbours r) (paths_at obj high (obj.class_of r)) m in
      let (n', e) =
        mem-keep (issues obj high) s (get_paths_to_neighbours obj.types (obj.class_of r)) n in
      mem-flat_map_of (obj.neighbours r)
        (mem-keep_of (issues obj low) n' (issues_lower low high s h e)) k

  pub Inherits-lower : (low high : ℕ) (y : String) → low ≤ high → Inherits high y → Inherits low y
  Inherits-lower low high y h (from_declared {r = r} {l = l} m e g k n) =
      from_declared m e (omega arith) (neighbours_lower low high r y h k) n
  Inherits-lower low high y h (from_heir {x = x} i k n) =
      from_heir (Inherits-lower low high x h i) (neighbours_lower low high x y h k) n

  pub Inherits-stored :
      IsStored obj → (level : ℕ) (y : String) → Inherits level y → Memᴰ y obj.references
  Inherits-stored stored level y (from_declared {r = r} m e g k n) =
      neighbours_at-stored obj level stored r y k
  Inherits-stored stored level y (from_heir {x = x} i k n) =
      neighbours_at-stored obj level stored x y k

  -- After the passes down to `low`: declared levels are there, and an object without one has a
  -- level of `low` or more, and exactly one that says how much it inherits.
  pub record IsLevelled (low : ℕ) (a : Levels) : Type 0 where
    pub declared_kept : (r : String) (l : ℕ) → declared_level r ≡ some l → level_of r a ≡ some l
    pub sound :
        (y : String) (l : ℕ)
        → declared_level y ≡ none
        → level_of y a ≡ some l
        → (low ≤ l) × Inherits l y
    pub complete :
        (y : String) (level : ℕ)
        → low ≤ level
        → level ≤ 4
        → Inherits level y
        → (l : ℕ) × (level_of y a ≡ some l) × (level ≤ l)

  pub IsLevelled-initial : IsLevelled 5 (declared_levels ps)
  IsLevelled-initial = record {
    declared_kept = λ r l e. e;
    sound = λ y l n e. cc (n, e);
    complete = λ y level h k i. absurd (omega arith);
  }
