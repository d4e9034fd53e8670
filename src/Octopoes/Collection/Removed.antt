-- ===== src/Octopoes/Collection/Removed.antt =====
-- What _on_delete_ooi of octopoes/octopoes/core/service.py leaves stored about the object.
use nl_kat_coordination.Prelude.{
  String, List, [], ◌∷◌, ◌++◌, keep, any_of, any_of_mem, any_of_exists, mem-keep, mem-keep_of, none,
  Bool, true, false, ◌||◌, not, ◌≡◌, refl, ap, sym, arith, ◌∙◌, str_eq, str_eq_iff, inl, inr,
  Bool-cases, Option-cases,
}
use nl_kat_coordination.Octopoes.Profiles.{ScanProfile}
use nl_kat_coordination.Octopoes.Recalculation.{profile_of, first_with}
use nl_kat_coordination.Octopoes.Recalculation.Stores.{first_with_lem}
use nl_kat_coordination.Octopoes.Origins.{Ooi, Origin, OriginParameter, id, same_id, same_parameter}
use nl_kat_coordination.Octopoes.Session.{Store, apply, apply_all, each_session}
use nl_kat_coordination.Octopoes.Repositories.{
  list_by_source, list_by_reference, remove_origin, remove_parameter, remove_profile,
}
use nl_kat_coordination.Octopoes.Handlers.{delete_profile_of, on_delete_ooi}
use nl_kat_coordination.Octopoes.Collection.Ids.{same_id_refl}
use nl_kat_coordination.Octopoes.Collection.Deleted.{apply_all-append}

abbrev without_origins : List Origin → Store → Store
without_origins os t = record t {
  origins = keep (λ p. not (any_of (λ (o : Origin). same_id (id o) (id p)) os)) t.origins;
}

keep_all : {A : Type 0} (xs : List A) → keep (λ x. true) xs ≡ xs
keep_all [] = refl
keep_all (x ∷ xs) = ground (arith, keep_all xs)

keep_neither :
    {A : Type 0} (p q : A → Bool) (xs : List A)
    → keep (λ x. not (q x)) (keep (λ x. not (p x)) xs) ≡ keep (λ x. not (p x || q x)) xs
keep_neither p q [] = refl
keep_neither p q (x ∷ xs) = ground (arith, keep_neither p q xs)

removes_origins :
    (os : List Origin) (t : Store)
    → apply_all (each_session remove_origin os).operations t ≡ without_origins os t
unfolding each_session remove_origin apply_all apply
removes_origins [] t = rw (keep_all t.origins) refl
removes_origins (o ∷ os) t =
    removes_origins os
      (record t { origins = keep (λ (p : Origin). not (same_id (id o) (id p))) t.origins })
    ∙ rw
        (keep_neither (λ (p : Origin). same_id (id o) (id p))
          (λ p. any_of (λ (o : Origin). same_id (id o) (id p)) os) t.origins)
        refl

abbrev without_parameters : List OriginParameter → Store → Store
without_parameters ps t = record t {
  parameters = keep (λ q. not (any_of (λ p. same_parameter p q) ps)) t.parameters;
}

removes_parameters :
    (ps : List OriginParameter) (t : Store)
    → apply_all (each_session remove_parameter ps).operations t ≡ without_parameters ps t
unfolding each_session remove_parameter apply_all apply
removes_parameters [] t = rw (keep_all t.parameters) refl
removes_parameters (p ∷ ps) t =
    removes_parameters ps
      (record t { parameters = keep (λ q. not (same_parameter p q)) t.parameters })
    ∙ rw
        (keep_neither (λ q. same_parameter p q) (λ q. any_of (λ p. same_parameter p q) ps)
          t.parameters)
        refl

same_parameter_refl : (p : OriginParameter) → same_parameter p p ≡ true
unfolding same_parameter
same_parameter_refl p = rw (same_id_refl p.origin_id) ((str_eq_iff p.reference p.reference).1 refl)

profile_of-drop :
    (r : String) (ps : List ScanProfile)
    → profile_of r (keep (λ (q : ScanProfile). not (str_eq r q.reference)) ps) ≡ none
unfolding first_with
profile_of-drop r [] = refl
profile_of-drop r (p ∷ ps) =
    ground (arith, profile_of-drop r ps, str_eq_iff r p.reference, str_eq_iff p.reference r)

after_profile :
    (s t : Store) (r : String)
    → t.profiles ≡ s.profiles
    → profile_of r (apply_all (delete_profile_of s r).operations t).profiles ≡ none
unfolding delete_profile_of remove_profile apply_all apply
after_profile s t r e = elim (Option-cases (profile_of r s.profiles)) [
  | inl n ↦ rw (delete_profile_of, n, e) n
  | inr (p, n) ↦
      let i : p.reference ≡ r =
        (str_eq_iff p.reference r).0
          (first_with_lem (λ (q : ScanProfile). str_eq q.reference r) s.profiles p n).1 in
      rw (delete_profile_of, n, i) (profile_of-drop r t.profiles)
]

profile_operations :
    (s t : Store) (r : String)
    → ((apply_all (delete_profile_of s r).operations t).origins ≡ t.origins)
      × ((apply_all (delete_profile_of s r).operations t).parameters ≡ t.parameters)
unfolding delete_profile_of remove_profile apply_all apply
profile_operations s t r = elim (Option-cases (profile_of r s.profiles)) [
  | inl n ↦ rw (delete_profile_of, n) (refl, refl)
  | inr (p, n) ↦ rw (delete_profile_of, n) (refl, refl)
]

-- No member of a list is left that was kept out for being like one of them.
none_like :
    {A : Type 0} (like : A → A → Bool) (p : A → Bool) (xs : List A)
    → ((x : A) → like x x ≡ true)
    → any_of p (keep (λ x. not (any_of (λ y. like y x) (keep p xs))) xs) ≡ false
none_like like p xs f =
    elim (Bool-cases (any_of p (keep (λ x. not (any_of (λ y. like y x) (keep p xs))) xs))) [
      | inr k ↦ k
      | inl k ↦
          let (x, m, h) =
            any_of_exists p (keep (λ x. not (any_of (λ y. like y x) (keep p xs))) xs) k in
          let (n, g) = mem-keep (λ x. not (any_of (λ y. like y x) (keep p xs))) x xs m in
          let j = any_of_mem (λ y. like y x) (mem-keep_of p n h) (f x) in
          absurd (ground (arith, g, j))
    ]

left : Store → Ooi → Store
left s x =
    without_parameters (list_by_reference x.reference s.parameters)
      (without_origins (list_by_source x.reference s.origins) s)

on_delete_ooi-left :
    (s : Store) (x : Ooi)
    → apply_all (on_delete_ooi s x).operations s
      ≡ apply_all (delete_profile_of s x.reference).operations (left s x)
unfolding on_delete_ooi left
on_delete_ooi-left s x =
    let os = list_by_source x.reference s.origins in
    let ps = list_by_reference x.reference s.parameters in
    let rest =
      (each_session remove_parameter ps).operations
      ++ (delete_profile_of s x.reference).operations in
    apply_all-append (each_session remove_origin os).operations rest s
    ∙ ap (apply_all rest) (removes_origins os s)
    ∙ apply_all-append (each_session remove_parameter ps).operations
        (delete_profile_of s x.reference).operations (without_origins os s)
    ∙ ap (apply_all (delete_profile_of s x.reference).operations)
        (removes_parameters ps (without_origins os s))

-- Once the event of a deleted object is handled, no origin has it as its source, no origin parameter
-- is of it, and it has no scan profile.
pub on_delete_ooi-removes :
    (s : Store) (x : Ooi) (t : Store)
    → apply_all (on_delete_ooi s x).operations s ≡ t
    → (any_of (λ (o : Origin). str_eq o.source x.reference) t.origins ≡ false)
      × (any_of (λ (p : OriginParameter). str_eq p.reference x.reference) t.parameters ≡ false)
      × (profile_of x.reference t.profiles ≡ none)
unfolding left
on_delete_ooi-removes s x t e =
    let r = x.reference in
    let same = sym e ∙ on_delete_ooi-left s x in
    let (f, g) = profile_operations s (left s x) r in
    (
      ap (λ (z : Store). any_of (λ (o : Origin). str_eq o.source r) z.origins) same
          ∙ ap (any_of (λ (o : Origin). str_eq o.source r)) f
          ∙ none_like (λ o p. same_id (id o) (id p)) (λ (o : Origin). str_eq o.source r) s.origins
              (λ o. same_id_refl (id o)),
      ap (λ (z : Store). any_of (λ (p : OriginParameter). str_eq p.reference r) z.parameters) same
          ∙ ap (any_of (λ (p : OriginParameter). str_eq p.reference r)) g
          ∙ none_like same_parameter (λ (p : OriginParameter). str_eq p.reference r) s.parameters
              same_parameter_refl,
      ap (λ (z : Store). profile_of r z.profiles) same ∙ after_profile s (left s x) r refl,
    )
