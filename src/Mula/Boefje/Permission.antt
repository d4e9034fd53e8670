-- ===== src/Mula/Boefje/Permission.antt =====
-- When a boefje may run on an object.
use nl_kat_coordination.Prelude.{
  ℕ, ◌≤◌, Option, none, some, true, ◌≡◌, ◌↔◌, refl, arith, ◌⊎◌, inl, inr, Bool-cases,
}
use nl_kat_coordination.Mula.Boefje.{
  Plugin, ScanProfile, Ooi, level_allows, profile_allows, ooi_allows, scan_level_allows,
  has_boefje_permission_to_run,
}

-- The object has a scan profile with a level that is at least that of the boefje.
pub record IsCleared (level : ℕ) (ooi : Ooi) : Type 0 where
  pub profile : ScanProfile
  pub has_profile : ooi.scan_profile ≡ some profile
  pub clearance : ℕ
  pub has_level : profile.level ≡ some clearance
  pub enough : level ≤ clearance

-- Permitted: the boefje is enabled and has a scan level, and the object, if there is one, is cleared
-- for that level.
pub record IsPermitted (boefje : Plugin) (ooi : Option Ooi) : Type 0 where
  pub enabled : boefje.enabled ≡ true
  pub level : ℕ
  pub has_level : boefje.scan_level ≡ some level
  pub cleared : (ooi ≡ none) ⊎ ((o : Ooi) × (ooi ≡ some o) × IsCleared level o)

IsCleared-of_profile :
    (level : ℕ) (o : Ooi) (p : Option ScanProfile)
    → o.scan_profile ≡ p
    → profile_allows level p ≡ true
    → IsCleared level o
unfolding profile_allows level_allows
IsCleared-of_profile level o none e h = ground (arith, h)
IsCleared-of_profile level o (some p) e h = of_level p.level refl h
  where
    of_level : (l : Option ℕ) → p.level ≡ l → level_allows level l ≡ true → IsCleared level o
    of_level none k h = ground (arith, h)
    of_level (some l) k h = record {
      profile = p;
      has_profile = e;
      clearance = l;
      has_level = k;
      enough = ground arith;
    }

IsCleared-of_ooi :
    (level : ℕ) (ooi : Option Ooi)
    → ooi_allows level ooi ≡ true
    → (ooi ≡ none) ⊎ ((o : Ooi) × (ooi ≡ some o) × IsCleared level o)
unfolding ooi_allows
IsCleared-of_ooi level none h = inl refl
IsCleared-of_ooi level (some o) h =
    inr (o, refl, IsCleared-of_profile level o o.scan_profile refl h)

pub IsPermitted-of_test :
    (boefje : Plugin) (ooi : Option Ooi)
    → has_boefje_permission_to_run boefje ooi ≡ true
    → IsPermitted boefje ooi
unfolding has_boefje_permission_to_run scan_level_allows
IsPermitted-of_test boefje ooi h = elim (Bool-cases boefje.enabled) [
  | inr n ↦ ground (arith, n, h)
  | inl y ↦ of_level y boefje.scan_level refl (ground arith)
]
  where
    of_level :
        boefje.enabled ≡ true
        → (l : Option ℕ) → boefje.scan_level ≡ l
        → scan_level_allows l ooi ≡ true
        → IsPermitted boefje ooi
    of_level y none e k = ground (arith, k)
    of_level y (some l) e k = record {
      enabled = y;
      level = l;
      has_level = e;
      cleared = IsCleared-of_ooi l ooi k;
    }

test_of_permitted :
    (boefje : Plugin) (ooi : Option Ooi)
    → IsPermitted boefje ooi
    → has_boefje_permission_to_run boefje ooi ≡ true
unfolding has_boefje_permission_to_run scan_level_allows ooi_allows profile_allows level_allows
test_of_permitted boefje ooi p = elim p.cleared [
  | inl e ↦ rw (p.enabled, p.has_level, e)
  | inr (o, e, c) ↦ rw (p.enabled, p.has_level, e, c.has_profile, c.has_level) (ground arith)
]

-- A boefje may run exactly when it is permitted: it is enabled and has a scan level, and the object, if
-- there is one, has a scan profile with a level that is at least that scan level.
pub has_boefje_permission_to_run_iff :
    (boefje : Plugin) (ooi : Option Ooi)
    → (has_boefje_permission_to_run boefje ooi ≡ true) ↔ IsPermitted boefje ooi
has_boefje_permission_to_run_iff boefje ooi =
    (IsPermitted-of_test boefje ooi, test_of_permitted boefje ooi)
