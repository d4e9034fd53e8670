-- ===== src/Octopoes/Collection/Attached.antt =====
-- The handlers of octopoes/octopoes/core/service.py that run no bit write lawful sessions.
use nl_kat_coordination.Prelude.{
  String, List, [], ◌∷◌, Option, none, some, true, false, not, refl, mem-keep, inl, inr, if_cases,
  Option-cases, length, any_of,
}
use nl_kat_coordination.Octopoes.Recalculation.{profile_of}
use nl_kat_coordination.Octopoes.Origins.{
  Ooi, OriginId, OriginParameter, id, from_keys, same_parameter,
}
use nl_kat_coordination.Octopoes.Session.{Store, Session, each_session}
use nl_kat_coordination.Octopoes.Repositories.{
  get_parameter, list_by_source, list_by_result, remove_origin, save_parameter, remove_parameter,
  save_profile, remove_profile,
}
use nl_kat_coordination.Octopoes.Service.{counts, delete_ooi}
use nl_kat_coordination.Octopoes.Bits.{BitDefinition, BitParameterDefinition, Environment}
use nl_kat_coordination.Octopoes.Handlers.{
  bit_instance, Attached, and_then, attach_parameter, attach_parameters, attach_instance,
  attach_bits, create_profile, on_create_ooi, delete_profile_of, on_delete_ooi, save_ancestor,
}
use nl_kat_coordination.Octopoes.Collection.{IsLawful, IsKeyed}
use nl_kat_coordination.Octopoes.Collection.Lawful.{
  then-IsLawful, unchanged-IsLawful, each_session-IsLawful, remove_origin-IsLawful,
  store_origin-IsLawful,
}
use nl_kat_coordination.Octopoes.Collection.Saved.{delete_if_exists-IsLawful}

unfoldable pub no_results : OriginId → List String
no_results k = []

module _ (env : Environment) (s : Store) (keyed : IsKeyed s) where
  abbrev pub Quiet : Session → Type 0
  Quiet w = IsLawful env s no_results w

  save_parameter-IsLawful : (p : OriginParameter) → Quiet (save_parameter s p)
  unfolding save_parameter
  save_parameter-IsLawful p = elim (Option-cases (get_parameter p s.parameters)) [
    | inl n ↦ rw (save_parameter, n) record { lawful = (tt, tt) }
    | inr (old, n) ↦
        rw (save_parameter, n)
          (if_cases Quiet (same_parameter old p) _ _ (λ k. unchanged-IsLawful env s no_results)
            (λ k. record { lawful = (tt, tt) }))
  ]

  save_ancestor-IsLawful : (b r : String) (a : Option String) → Quiet (save_ancestor env s b r a)
  unfolding save_ancestor
  save_ancestor-IsLawful b r none = unchanged-IsLawful env s no_results
  save_ancestor-IsLawful b r (some a) =
      save_parameter-IsLawful record { origin_id = id (bit_instance b a); reference = r }

  and_then-IsLawful : (a b : Attached) → Quiet a.0 → Quiet b.0 → Quiet (and_then a b).0
  unfolding and_then
  and_then-IsLawful (v, true) (w, g) l k = then-IsLawful env s no_results v w l k
  and_then-IsLawful (v, false) b l k = l

  attach_parameter-IsLawful :
      (x : Ooi) (b : String) (p : BitParameterDefinition) → Quiet (attach_parameter env s x b p).0
  unfolding attach_parameter
  attach_parameter-IsLawful x b p =
      if_cases (λ (a : Attached). Quiet a.0) (env.is_instance x.object_type p.ooi_type) _ _
        (λ k. elim (Option-cases (env.get_tree s x.reference (length p.relation_path))) [
          | inl n ↦ rw n (unchanged-IsLawful env s no_results)
          | inr (tree, n) ↦ rw n (save_ancestor-IsLawful b x.reference _)
        ])
        (λ k. unchanged-IsLawful env s no_results)

  attach_parameters-IsLawful :
      (x : Ooi) (b : String) (ps : List BitParameterDefinition)
      → Quiet (attach_parameters env s x b ps).0
  unfolding attach_parameters
  attach_parameters-IsLawful x b [] = unchanged-IsLawful env s no_results
  attach_parameters-IsLawful x b (p ∷ ps) =
      and_then-IsLawful (attach_parameter env s x b p) (attach_parameters env s x b ps)
        (attach_parameter-IsLawful x b p) (attach_parameters-IsLawful x b ps)

  attach_instance-IsLawful : (x : Ooi) (b : BitDefinition) → Quiet (attach_instance env s x b)
  unfolding attach_instance no_results from_keys
  attach_instance-IsLawful x b =
      if_cases Quiet (env.is_instance x.object_type b.consumes) _ _
        (λ k.
          store_origin-IsLawful env s no_results keyed (bit_instance b.id x.reference) refl refl)
        (λ k. unchanged-IsLawful env s no_results)

  attach_bits-IsLawful : (x : Ooi) (bs : List BitDefinition) → Quiet (attach_bits env s x bs).0
  unfolding attach_bits
  attach_bits-IsLawful x [] = unchanged-IsLawful env s no_results
  attach_bits-IsLawful x (b ∷ bs) =
      and_then-IsLawful (attach_instance env s x b, true)
        (and_then (attach_parameters env s x b.id b.parameters) (attach_bits env s x bs))
        (attach_instance-IsLawful x b)
        (and_then-IsLawful (attach_parameters env s x b.id b.parameters) (attach_bits env s x bs)
          (attach_parameters-IsLawful x b.id b.parameters) (attach_bits-IsLawful x bs))

  create_profile-IsLawful : (r : String) → Quiet (create_profile s r)
  unfolding create_profile save_profile
  create_profile-IsLawful r = elim (Option-cases (profile_of r s.profiles)) [
    | inl n ↦ rw (create_profile, n) record { lawful = (tt, tt) }
    | inr (p, n) ↦ rw (create_profile, n) (unchanged-IsLawful env s no_results)
  ]

  pub on_create_ooi-IsLawful : (x : Ooi) → Quiet (on_create_ooi env s x)
  unfolding on_create_ooi
  on_create_ooi-IsLawful x =
      then-IsLawful env s no_results (create_profile s x.reference) _
        (create_profile-IsLawful x.reference) (attach_bits-IsLawful x env.bit_definitions)

  delete_profile_of-IsLawful : (r : String) → Quiet (delete_profile_of s r)
  unfolding delete_profile_of remove_profile
  delete_profile_of-IsLawful r = elim (Option-cases (profile_of r s.profiles)) [
    | inl n ↦ rw (delete_profile_of, n) (unchanged-IsLawful env s no_results)
    | inr (p, n) ↦ rw (delete_profile_of, n) record { lawful = (tt, tt) }
  ]

  remove_parameter-IsLawful : (p : OriginParameter) → Quiet (remove_parameter p)
  unfolding remove_parameter
  remove_parameter-IsLawful p = record { lawful = (tt, tt) }

  pub on_delete_ooi-IsLawful : (x : Ooi) → Quiet (on_delete_ooi s x)
  unfolding on_delete_ooi no_results
  on_delete_ooi-IsLawful x =
      then-IsLawful env s no_results _ _
        (each_session-IsLawful env s no_results remove_origin (list_by_source x.reference s.origins)
          (λ o m.
            remove_origin-IsLawful env s no_results keyed o (mem-keep _ o s.origins m).0 refl))
        (then-IsLawful env s no_results _ _
          (each_session-IsLawful env s no_results remove_parameter _
            (λ p m. remove_parameter-IsLawful p))
          (delete_profile_of-IsLawful x.reference))

  delete_ooi-IsLawful : (r : String) → Quiet (delete_ooi s r)
  unfolding delete_ooi
  delete_ooi-IsLawful r =
      if_cases Quiet (not (any_of (counts r) (list_by_result r s.origins))) _ _
        (λ k. delete_if_exists-IsLawful env s no_results r)
        (λ k. unchanged-IsLawful env s no_results)

  pub deletes-IsLawful : (rs : List String) → Quiet (each_session (delete_ooi s) rs)
  deletes-IsLawful rs =
      each_session-IsLawful env s no_results (delete_ooi s) rs (λ r m. delete_ooi-IsLawful r)
