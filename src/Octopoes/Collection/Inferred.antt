-- ===== src/Octopoes/Collection/Inferred.antt =====
-- _run_inference of octopoes/octopoes/core/service.py writes a lawful session.
use nl_kat_coordination.Prelude.{
  String, List, [], map, true, false, ◌||◌, ◌≡◌, refl, subst, arith, str_eq, str_eq_iff, is_some,
  inl, inr, Bool-cases, if_cases, Option-cases,
}
use nl_kat_coordination.Octopoes.Origins.{Ooi, Origin, OriginId, id, member, from_keys}
use nl_kat_coordination.Octopoes.Session.{Store}
use nl_kat_coordination.Octopoes.Repositories.{get_object}
use nl_kat_coordination.Octopoes.Service.{counts}
use nl_kat_coordination.Octopoes.Bits.{BitDefinition, Environment, bit_with}
use nl_kat_coordination.Octopoes.Inference.{
  Inferred, inferred, raised, infer, run_inference, is_disabled, is_below, run_on_source,
  run_bit_at, source_of, method_of, save_inferred,
}
use nl_kat_coordination.Octopoes.Collection.{stores, IsKeyed, runs_affirmed}
use nl_kat_coordination.Octopoes.Collection.Saved.{save_origin-IsLawful}
use nl_kat_coordination.Octopoes.Collection.Lawful.{unchanged-IsLawful}
use nl_kat_coordination.Octopoes.Collection.Outcomes.{IsLawfulOutcome}

module _ (env : Environment) (s : Store) where
  abbrev references : Inferred → List String
  references (inferred oois) = map (λ (x : Ooi). x.reference) oois
  references (raised f) = []

  -- The results that a run saves under an id
  abbrev pub run_results : OriginId → List String
  run_results k = from_keys (references (infer env s k))

  -- A bit that has results has run on its source.
  abbrev NeedsSource : OriginId → Inferred → Type 0
  NeedsSource k i =
      (r : String) → member r (references i) ≡ true → stores s (source_of env k) ≡ true

  nothing_needed : (k : OriginId) → NeedsSource k (inferred [])
  nothing_needed k r h = absurd (ground (arith, h))

  run_on_source_lem : (k : OriginId) (b : BitDefinition) → NeedsSource k (run_on_source env s k b)
  unfolding run_on_source
  run_on_source_lem k b r h = elim (Option-cases (get_object (source_of env k) s.objects)) [
    | inl n ↦ absurd (ground (arith, rw (run_on_source, references, n) at h))
    | inr (x, n) ↦ rw n refl
  ]

  stored_source : (k : OriginId) (b : BitDefinition) → NeedsSource k (run_bit_at env s k b)
  unfolding run_bit_at
  stored_source k b =
      if_cases (NeedsSource k) (is_disabled env b) _ _ (λ q. nothing_needed k)
        (λ q.
          if_cases (NeedsSource k) (is_below env s k b) _ _ (λ z. nothing_needed k)
            (λ z. run_on_source_lem k b))

  infer_source :
      (k : OriginId) (r : String)
      → member r (references (infer env s k)) ≡ true
      → (is_some (bit_with (method_of env k) env.bit_definitions) ≡ true)
        × (stores s (source_of env k) ≡ true)
  unfolding infer
  infer_source k r h = elim (Option-cases (bit_with (method_of env k) env.bit_definitions)) [
    | inl n ↦ absurd (ground (arith, rw (infer, references, n) at h))
    | inr (b, n) ↦ (rw n refl, stored_source k b r (rw (infer, references, n) at h))
  ]

  counted :
      (o : Origin) (r : String)
      → runs_affirmed env o ≡ false
      → member r (references (infer env s (id o))) ≡ true
      → (stores s r || counts r o) ≡ true
  unfolding counts
  counted o r u h =
      let (b, k) = infer_source (id o) r h in
      elim (Bool-cases (str_eq o.source r)) [
        | inl e ↦ rw (subst (λ z. stores s z ≡ true) ((str_eq_iff o.source r).0 e) k) refl
        | inr e ↦ ground (arith, u, b, e)
      ]

  pub run_inference-IsLawful :
      IsKeyed s
      → (o : Origin) → runs_affirmed env o ≡ false
      → IsLawfulOutcome env s run_results (run_inference env s o)
  unfolding run_inference save_inferred
  run_inference-IsLawful keyed o u = by_inferred (infer env s (id o)) refl
    where
      by_inferred :
          (i : Inferred)
          → infer env s (id o) ≡ i
          → IsLawfulOutcome env s run_results (save_inferred env s o i)
      by_inferred (raised f) e = unchanged-IsLawful env s run_results
      by_inferred (inferred oois) e =
          save_origin-IsLawful env s run_results keyed o oois (rw e refl) u
            (λ r m a. counted o r u (rw e m))
