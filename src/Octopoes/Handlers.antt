-- ===== src/Octopoes/Handlers.antt =====
-- octopoes/octopoes/core/service.py: process_event with the handlers of the events. A handler's
-- check that the event has its data is in the type of the event.
use nl_kat_coordination.Prelude.{
  String, List, [], ◌∷◌, ◌++◌, map, keep, Option, none, some, Bool, true, false, is_some,
  if◌then◌else◌, length, first,
}
use nl_kat_coordination.Octopoes.Profiles.{ScanProfile}
use nl_kat_coordination.Octopoes.Recalculation.{EmptyScanProfile, profile_of}
use nl_kat_coordination.Octopoes.Origins.{Ooi, Origin, OriginType, OriginParameter, id, minus}
use nl_kat_coordination.Octopoes.Session.{
  Store, Event, Session, unchanged, ◌then◌, Outcome, written, failed, Failure, each, each_session,
}
use nl_kat_coordination.Octopoes.Repositories.{
  get_origin, list_by_source, list_by_method, list_by_reference, store_origin, remove_origin,
  save_parameter, remove_parameter, save_profile, remove_profile,
}
use nl_kat_coordination.Octopoes.Service.{delete_ooi, is_inference}
use nl_kat_coordination.Octopoes.Bits.{
  BitDefinition, BitParameterDefinition, Environment, find_relation_in_tree,
}
use nl_kat_coordination.Octopoes.Inference.{run_inference}

-- Origin(origin_type=OriginType.INFERENCE, method=bit_id, source=source)
abbrev pub bit_instance : String → String → Origin
bit_instance bit_id source = record {
  origin_type = OriginType.inference;
  method = bit_id;
  source = source;
  source_method = none;
  result = [];
  task_id = none;
}

-- What a loop has written, and whether it has not returned from the handler
abbrev pub Attached : Type 0
Attached = Session × Bool

unfoldable pub and_then : Attached → Attached → Attached
and_then (v, true) (w, goes_on) = (v then w, goes_on)
and_then (v, false) b = (v, false)

unfoldable pub create_profile : Store → String → Session
unfolding save_profile
create_profile s r = elim (profile_of r s.profiles) [
  | none ↦ save_profile none (EmptyScanProfile r)
  | some p ↦ unchanged
]

-- `origin_repository.get` for each parameter; none is an ObjectNotFoundException.
unfoldable pub get_origins : Store → List OriginParameter → Option (List Origin)
unfolding get_origin
get_origins s [] = some []
get_origins s (p ∷ ps) = elim (get_origin p.origin_id s.origins) [
  | none ↦ none
  | some o ↦ elim (get_origins s ps) [ none ↦ none | some os ↦ some (o ∷ os) ]
]

-- "delete scan profile"
unfoldable pub delete_profile_of : Store → String → Session
unfolding remove_profile
delete_profile_of s r = elim (profile_of r s.profiles) [
  | none ↦ unchanged
  | some p ↦ remove_profile p
]

unfoldable pub on_delete_ooi : Store → Ooi → Session
unfolding each_session remove_origin remove_parameter delete_profile_of
on_delete_ooi s old =
    each_session remove_origin (list_by_source old.reference s.origins)
    then (each_session remove_parameter (list_by_reference old.reference s.parameters)
        then delete_profile_of s old.reference)

unfoldable pub on_update_origin : Store → Origin → Origin → Session
unfolding each_session delete_ooi
on_update_origin s old new = each_session (delete_ooi s) (minus old.result new.result)

unfoldable pub on_delete_origin : Store → Origin → Session
unfolding each_session delete_ooi
on_delete_origin s old = each_session (delete_ooi s) old.result

-- _run_inference may raise ObjectNotFoundException, which is caught here too.
unfoldable pub caught : Outcome → Outcome
caught (written w) = written w
caught (failed Failure.object_not_found w) = written w
caught (failed f w) = failed f w

module _ (env : Environment) where
  unfoldable pub save_ancestor : Store → String → String → Option String → Session
  unfolding save_parameter
  save_ancestor s bit_id reference none = unchanged
  save_ancestor s bit_id reference (some ancestor) =
      save_parameter s
        record { origin_id = id (bit_instance bit_id ancestor); reference = reference }

  -- "attach bit parameters", for one of them
  unfoldable pub attach_parameter : Store → Ooi → String → BitParameterDefinition → Attached
  unfolding save_ancestor find_relation_in_tree
  attach_parameter s ooi bit_id p =
      if env.is_instance ooi.object_type p.ooi_type
      then elim (env.get_tree s ooi.reference (length p.relation_path)) [
        | none ↦ (unchanged, false)
        | some tree ↦ (
          save_ancestor s bit_id ooi.reference (first (find_relation_in_tree p.relation_path tree)),
          true,
        )
      ]
      else (unchanged, true)

  unfoldable pub attach_parameters : Store → Ooi → String → List BitParameterDefinition → Attached
  unfolding attach_parameter and_then
  attach_parameters s ooi bit_id [] = (unchanged, true)
  attach_parameters s ooi bit_id (p ∷ ps) =
      and_then (attach_parameter s ooi bit_id p) (attach_parameters s ooi bit_id ps)

  -- "attach bit instances"
  unfoldable pub attach_instance : Store → Ooi → BitDefinition → Session
  unfolding store_origin
  attach_instance s ooi b =
      if env.is_instance ooi.object_type b.consumes
      then store_origin s (bit_instance b.id ooi.reference)
      else unchanged

  unfoldable pub attach_bits : Store → Ooi → List BitDefinition → Attached
  unfolding attach_instance attach_parameters and_then
  attach_bits s ooi [] = (unchanged, true)
  attach_bits s ooi (b ∷ bs) =
      and_then (attach_instance s ooi b, true)
        (and_then (attach_parameters s ooi b.id b.parameters) (attach_bits s ooi bs))

  unfoldable pub on_create_ooi : Store → Ooi → Session
  unfolding create_profile attach_bits
  on_create_ooi s ooi =
      create_profile s ooi.reference then (attach_bits s ooi env.bit_definitions).0

  unfoldable pub relevant_bit_ids : List String
  relevant_bit_ids =
      map (λ (b : BitDefinition). b.id)
        (keep (λ (b : BitDefinition). is_some b.config_ooi_relation_path) env.bit_definitions)

  unfoldable pub inference_origins : Store → Ooi → Option (List Origin)
  unfolding get_origins relevant_bit_ids
  inference_origins s ooi =
      if env.is_instance ooi.object_type "Config"
      then some (list_by_method relevant_bit_ids s.origins)
      else elim (get_origins s (list_by_reference ooi.reference s.parameters)) [
        | none ↦ none
        | some os ↦ some (keep is_inference (list_by_source ooi.reference s.origins ++ os))
      ]

  unfoldable pub run_each : Store → Option (List Origin) → Outcome
  unfolding each run_inference
  run_each s none = failed Failure.object_not_found unchanged
  run_each s (some os) = each (run_inference env s) os

  unfoldable pub on_update_ooi : Store → Ooi → Outcome
  unfolding run_each inference_origins
  on_update_ooi s new = run_each s (inference_origins s new)

  unfoldable pub on_create_origin : Store → Origin → Outcome
  unfolding run_inference
  on_create_origin s o = if is_inference o then run_inference env s o else written unchanged

  -- _on_create_origin_parameter and _on_delete_origin_parameter
  unfoldable pub on_origin_parameter : Store → OriginParameter → Outcome
  unfolding get_origin run_inference caught
  on_origin_parameter s p = elim (get_origin p.origin_id s.origins) [
    | none ↦ written unchanged
    | some o ↦ caught (run_inference env s o)
  ]

  unfoldable pub run_inferences : Store → ScanProfile → Outcome
  unfolding each run_inference
  run_inferences s p =
      each (run_inference env s) (keep is_inference (list_by_source p.reference s.origins))

  unfoldable pub process_event : Store → Event → Outcome
  unfolding on_create_ooi on_update_ooi on_delete_ooi on_create_origin on_update_origin
      on_delete_origin on_origin_parameter run_inferences
  process_event s (Event.created_object new) = written (on_create_ooi s new)
  process_event s (Event.updated_object old new) = on_update_ooi s new
  process_event s (Event.deleted_object old) = written (on_delete_ooi s old)
  process_event s (Event.created_origin new) = on_create_origin s new
  process_event s (Event.updated_origin old new) = written (on_update_origin s old new)
  process_event s (Event.deleted_origin old) = written (on_delete_origin s old)
  process_event s (Event.created_parameter new) = on_origin_parameter s new
  process_event s (Event.updated_parameter old new) = written unchanged
  process_event s (Event.deleted_parameter old) = on_origin_parameter s old
  process_event s (Event.created_profile new) = run_inferences s new
  process_event s (Event.updated_profile old new) = run_inferences s new
  process_event s (Event.deleted_profile old) = run_inferences s old
