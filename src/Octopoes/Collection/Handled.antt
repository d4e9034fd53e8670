-- ===== src/Octopoes/Collection/Handled.antt =====
-- process_event of octopoes/octopoes/core/service.py writes a lawful session for each event.
use nl_kat_coordination.Prelude.{
  String, List, [], ◌∷◌, ◌++◌, keep, true, false, ◌≡◌, refl, arith, Memᴰ, mem-keep, inl, inr,
  if_cases, Option-cases,
}
use nl_kat_coordination.Octopoes.Profiles.{ScanProfile}
use nl_kat_coordination.Octopoes.Origins.{Ooi, Origin, OriginId, OriginType, OriginParameter, minus}
use nl_kat_coordination.Octopoes.Session.{Store, Event, Outcome, written, failed, Failure, each}
use nl_kat_coordination.Octopoes.Repositories.{
  list_by_method, get_origin, list_by_source, list_by_reference,
}
use nl_kat_coordination.Octopoes.Service.{is_inference}
use nl_kat_coordination.Octopoes.Bits.{Environment}
use nl_kat_coordination.Octopoes.Inference.{run_inference}
use nl_kat_coordination.Octopoes.Handlers.{
  relevant_bit_ids, get_origins, inference_origins, on_update_ooi, on_create_origin,
  on_update_origin, on_delete_origin, caught, on_origin_parameter, run_inferences, process_event,
  run_each,
}
use nl_kat_coordination.Octopoes.Collection.{IsKeyed, runs_affirmed}
use nl_kat_coordination.Octopoes.Collection.Keyed.{IsUnaffirmed}
use nl_kat_coordination.Octopoes.Collection.Lawful.{unchanged-IsLawful, get_origin_lem}
use nl_kat_coordination.Octopoes.Collection.Outcomes.{IsLawfulOutcome, each-IsLawful}
use nl_kat_coordination.Octopoes.Collection.Inferred.{run_results, run_inference-IsLawful}
use nl_kat_coordination.Octopoes.Collection.Attached.{
  no_results, on_create_ooi-IsLawful, on_delete_ooi-IsLawful, deletes-IsLawful,
}

mem-list_by_method :
    (ms : List String) (o : Origin) (os : List Origin) → Memᴰ o (list_by_method ms os) → Memᴰ o os
mem-list_by_method [] o os m = m
mem-list_by_method (x ∷ ms) o os m = (mem-keep _ o os m).0

module _ (env : Environment) (s : Store) (keyed : IsKeyed s) where
  -- The runs of bits, for origins that are stored or are inferred
  module _ (free : IsUnaffirmed env s) where
    abbrev Runs : Outcome → Type 0
    Runs a = IsLawfulOutcome env s (run_results env s) a

    inference-runs_affirmed : (o : Origin) → is_inference o ≡ true → runs_affirmed env o ≡ false
    inference-runs_affirmed o h = by_type o.origin_type refl
      where
        by_type : (t : OriginType) → o.origin_type ≡ t → runs_affirmed env o ≡ false
        by_type OriginType.declaration e = rw e refl
        by_type OriginType.observation e = rw e refl
        by_type OriginType.inference e = rw e refl
        by_type OriginType.affirmation e = absurd (ground (arith, rw e at h))

    each-run_inference-IsLawful :
        (os : List Origin)
        → ((o : Origin) → Memᴰ o os → runs_affirmed env o ≡ false)
        → Runs (each (run_inference env s) os)
    each-run_inference-IsLawful os f =
        each-IsLawful env s (run_results env s) (run_inference env s) os
          (λ o m. run_inference-IsLawful env s keyed o (f o m))

    inferences-IsLawful :
        (os : List Origin) → Runs (each (run_inference env s) (keep is_inference os))
    inferences-IsLawful os =
        each-run_inference-IsLawful (keep is_inference os)
          (λ o m. inference-runs_affirmed o (mem-keep is_inference o os m).1)

    on_update_ooi-IsLawful : (x : Ooi) → Runs (on_update_ooi env s x)
    unfolding on_update_ooi run_each inference_origins
    on_update_ooi-IsLawful x =
        if_cases (λ os. Runs (run_each env s os)) (env.is_instance x.object_type "Config") _ _
          (λ k.
            each-run_inference-IsLawful _
              (λ o m. free.unaffirmed o (mem-list_by_method (relevant_bit_ids env) o s.origins m)))
          (λ k. elim (Option-cases (get_origins s (list_by_reference x.reference s.parameters))) [
            | inl n ↦ rw n (unchanged-IsLawful env s (run_results env s))
            | inr (os, n) ↦ rw n (inferences-IsLawful (list_by_source x.reference s.origins ++ os))
          ])

    on_create_origin-IsLawful : (o : Origin) → Runs (on_create_origin env s o)
    unfolding on_create_origin
    on_create_origin-IsLawful o =
        if_cases Runs (is_inference o) _ _
          (λ k. run_inference-IsLawful env s keyed o (inference-runs_affirmed o k))
          (λ k. unchanged-IsLawful env s (run_results env s))

    caught-IsLawful : (a : Outcome) → Runs a → Runs (caught a)
    unfolding caught
    caught-IsLawful (written w) l = l
    caught-IsLawful (failed Failure.object_not_found w) l = l
    caught-IsLawful (failed Failure.value_error w) l = l
    caught-IsLawful (failed Failure.bit_failed w) l = l

    on_origin_parameter-IsLawful : (p : OriginParameter) → Runs (on_origin_parameter env s p)
    unfolding on_origin_parameter
    on_origin_parameter-IsLawful p = elim (Option-cases (get_origin p.origin_id s.origins)) [
      | inl n ↦ rw (on_origin_parameter, n) (unchanged-IsLawful env s (run_results env s))
      | inr (o, n) ↦
          rw (on_origin_parameter, n)
            (caught-IsLawful (run_inference env s o) (
              run_inference-IsLawful env s keyed o
                (free.unaffirmed o (get_origin_lem env s no_results p.origin_id s.origins o n).0)))
    ]

    run_inferences-IsLawful : (p : ScanProfile) → Runs (run_inferences env s p)
    unfolding run_inferences
    run_inferences-IsLawful p = inferences-IsLawful (list_by_source p.reference s.origins)

    -- With the results that the handler saves under an id
    pub process_event-IsLawful :
        (e : Event) → (ρ : OriginId → List String) × IsLawfulOutcome env s ρ (process_event env s e)
    unfolding process_event on_update_origin on_delete_origin
    process_event-IsLawful (Event.created_object x) =
        (no_results, on_create_ooi-IsLawful env s keyed x)
    process_event-IsLawful (Event.updated_object x y) =
        (run_results env s, on_update_ooi-IsLawful y)
    process_event-IsLawful (Event.deleted_object x) =
        (no_results, on_delete_ooi-IsLawful env s keyed x)
    process_event-IsLawful (Event.created_origin o) =
        (run_results env s, on_create_origin-IsLawful o)
    process_event-IsLawful (Event.updated_origin o p) =
        (no_results, deletes-IsLawful env s keyed (minus o.result p.result))
    process_event-IsLawful (Event.deleted_origin o) =
        (no_results, deletes-IsLawful env s keyed o.result)
    process_event-IsLawful (Event.created_parameter p) =
        (run_results env s, on_origin_parameter-IsLawful p)
    process_event-IsLawful (Event.updated_parameter p q) =
        (no_results, unchanged-IsLawful env s no_results)
    process_event-IsLawful (Event.deleted_parameter p) =
        (run_results env s, on_origin_parameter-IsLawful p)
    process_event-IsLawful (Event.created_profile p) =
        (run_results env s, run_inferences-IsLawful p)
    process_event-IsLawful (Event.updated_profile p q) =
        (run_results env s, run_inferences-IsLawful q)
    process_event-IsLawful (Event.deleted_profile p) =
        (run_results env s, run_inferences-IsLawful p)
