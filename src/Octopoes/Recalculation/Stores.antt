-- ===== src/Octopoes/Recalculation/Stores.antt =====
-- What each loop of recalculate_scan_profiles leaves stored.
use nl_kat_coordination.Prelude.{
  String, List, [], ◌∷◌, any_of, some, Bool, true, false, ◌&&◌, ◌≡◌, refl, sym, ap, subst, arith,
  Memᴰ, inl, inr, Bool-cases, str_eq, str_eq_iff, if◌then◌else◌,
}
use nl_kat_coordination.Octopoes.Profiles.{ScanProfileType, ScanProfile}
use nl_kat_coordination.Octopoes.Recalculation.{
  same_type, same_profile, EmptyScanProfile, first_with, profile_of, inherited_of, put, save, reset,
  save_empty,
}

-- There is one profile for each reference, the key of a profile in the database.
abbrev pub IsOne : List ScanProfile → Type 0
IsOne ps = (p q : ScanProfile) → Memᴰ p ps → Memᴰ q ps → p.reference ≡ q.reference → p ≡ q

pub first_with_lem :
    (test : ScanProfile → Bool) (ps : List ScanProfile) (p : ScanProfile)
    → first_with test ps ≡ some p
    → Memᴰ p ps × (test p ≡ true)
unfolding first_with
first_with_lem test [] p e = absurd (ground arith)
first_with_lem test (q ∷ qs) p e = elim (Bool-cases (test q)) [
  | inl k ↦
      let same : p ≡ q = ground (arith, rw k at e) in
      (Memᴰ.head same, subst (λ z. test z ≡ true) (sym same) k)
  | inr k ↦ let (m, h) = first_with_lem test qs p (rw k at e) in (Memᴰ.tail m, h)
]

pub first_with_of :
    (test : ScanProfile → Bool) (ps : List ScanProfile) (p : ScanProfile)
    → Memᴰ p ps
    → test p ≡ true
    → (q : ScanProfile) × (first_with test ps ≡ some q)
unfolding first_with
first_with_of test [] p m h = elim m [ ]
first_with_of test (q ∷ qs) p (Memᴰ.head e) h = (q, rw (subst (λ z. test z ≡ true) e h) refl)
first_with_of test (q ∷ qs) p (Memᴰ.tail m) h = elim (Bool-cases (test q)) [
  | inl k ↦ (q, rw k refl)
  | inr k ↦ let (z, e) = first_with_of test qs p m h in (z, rw k e)
]

pub profile_of-put :
    (y : String) (p : ScanProfile) (s : List ScanProfile)
    → profile_of y (put p s) ≡ (if str_eq p.reference y then some p else profile_of y s)
unfolding first_with put
profile_of-put y p [] = ground arith
profile_of-put y p (q ∷ qs) = elim (Bool-cases (str_eq q.reference p.reference)) [
  | inl k ↦ rw k (
      ground (
        arith,
        (str_eq_iff q.reference p.reference).0 k,
        str_eq_iff q.reference y,
        str_eq_iff p.reference y,
      ))
  | inr k ↦ rw k (
      ground (
        arith,
        k,
        profile_of-put y p qs,
        str_eq_iff q.reference p.reference,
        str_eq_iff q.reference y,
        str_eq_iff p.reference y,
      ))
]

pub profile_of-save_empty :
    (y : String) (rs : List String) (s : List ScanProfile)
    → profile_of y (save_empty rs s)
      ≡ (if any_of (str_eq y) rs then some (EmptyScanProfile y) else profile_of y s)
unfolding save_empty save
profile_of-save_empty y [] s = refl
profile_of-save_empty y (r ∷ rs) s = ground (
  arith,
  profile_of-save_empty y rs (put (EmptyScanProfile r) s),
  profile_of-put y (EmptyScanProfile r) s,
  str_eq_iff r y,
  str_eq_iff y r,
)

same_profile-empty :
    (r : String) (t : ScanProfileType) (old : ScanProfile)
    → old.scan_profile_type ≡ t
    → same_type t ScanProfileType.inherited ≡ true
    → same_profile old (EmptyScanProfile r) ≡ false
unfolding same_profile
same_profile-empty r ScanProfileType.declared old e h = absurd (ground arith)
same_profile-empty r ScanProfileType.inherited old e h = rw e refl
same_profile-empty r ScanProfileType.empty old e h = absurd (ground arith)

-- The profile that inherited_scan_profiles has for a reference
pub inherited_of_lem :
    (ps : List ScanProfile) (r : String) (old : ScanProfile)
    → inherited_of r ps ≡ some old
    → Memᴰ old ps
      × (same_type old.scan_profile_type ScanProfileType.inherited ≡ true)
      × (old.reference ≡ r)
inherited_of_lem ps r old e =
    let (m, h) =
      first_with_lem
        (λ p. same_type p.scan_profile_type ScanProfileType.inherited && str_eq p.reference r) ps
        old e in
    (m, ground (arith, h), (str_eq_iff old.reference r).0 (ground (arith, h)))

save-empty :
    (ps : List ScanProfile) (r : String) (old : ScanProfile) (s : List ScanProfile)
    → inherited_of r ps ≡ some old
    → save (some old) (EmptyScanProfile r) s ≡ put (EmptyScanProfile r) s
unfolding save
save-empty ps r old s e =
    rw (same_profile-empty r old.scan_profile_type old refl (inherited_of_lem ps r old e).1) refl

pub profile_of-reset :
    (ps : List ScanProfile) (y : String) (rs : List String) (s : List ScanProfile)
    → ((r : String) → Memᴰ r rs → (old : ScanProfile) × (inherited_of r ps ≡ some old))
    → (s' : List ScanProfile) × (reset ps rs s ≡ some s')
      × (profile_of y s'
          ≡ (if any_of (str_eq y) rs then some (EmptyScanProfile y) else profile_of y s))
unfolding reset
profile_of-reset ps y [] s f = (s, refl, refl)
profile_of-reset ps y (r ∷ rs) s f =
    let (old, e) = f r (Memᴰ.head refl) in
    let (s', k, h) =
      profile_of-reset ps y rs (save (some old) (EmptyScanProfile r) s)
        (λ z m. f z (Memᴰ.tail m)) in
    (
      s',
      rw (reset, e) k,
      ground (
        arith,
        h,
        ap (profile_of y) (save-empty ps r old s e),
        profile_of-put y (EmptyScanProfile r) s,
        str_eq_iff r y,
        str_eq_iff y r,
      ),
    )
