-- ===== src/Octopoes/Repositories.antt =====
-- octopoes/octopoes/repositories: what ooi_repository.py, origin_repository.py,
-- origin_parameter_repository.py and scan_profile_repository.py read, save and delete. Reads are of
-- the store as it was committed last, and an object is saved without an end time.
use nl_kat_coordination.Prelude.{
  String, List, [], ◌∷◌, keep, any_of, Option, none, some, Bool, str_eq, option_str_eq,
  if◌then◌else◌,
}
use nl_kat_coordination.Octopoes.Profiles.{ScanProfile}
use nl_kat_coordination.Octopoes.Recalculation.{same_profile}
use nl_kat_coordination.Octopoes.Origins.{
  Ooi, Origin, OriginId, OriginType, OriginParameter, id, member, same_id, same_origin,
  same_origin_type, same_parameter, from_keys, merge_ooi,
}
use nl_kat_coordination.Octopoes.Session.{
  Store, Operation, Event, Session, unchanged, Outcome, written, failed, Failure,
}

-- OOIRepository.get; none is an ObjectNotFoundException, here and below.
unfoldable pub get_object : String → List Ooi → Option Ooi
get_object r [] = none
get_object r (o ∷ os) = let rest = get_object r os in if str_eq r o.reference then some o else rest

unfoldable pub get_origin : OriginId → List Origin → Option Origin
unfolding same_id
get_origin k [] = none
get_origin k (o ∷ os) = let rest = get_origin k os in if same_id k (id o) then some o else rest

unfoldable pub get_parameter : OriginParameter → List OriginParameter → Option OriginParameter
unfolding same_parameter
get_parameter p [] = none
get_parameter p (q ∷ qs) =
    let rest = get_parameter p qs in if same_parameter p q then some q else rest

-- list_origins by the filters that the service sets
abbrev pub list_by_source : String → List Origin → List Origin
list_by_source r = keep (λ (o : Origin). str_eq o.source r)

abbrev pub list_by_result : String → List Origin → List Origin
list_by_result r = keep (λ (o : Origin). member r o.result)

abbrev pub list_by_type : List OriginType → List Origin → List Origin
list_by_type ts = keep (λ (o : Origin). any_of (same_origin_type o.origin_type) ts)

-- `if method`: an empty list filters nothing.
abbrev pub list_by_method : List String → List Origin → List Origin
list_by_method [] os = os
list_by_method (m ∷ ms) os = keep (λ (o : Origin). member o.method (m ∷ ms)) os

abbrev pub list_by_origin : OriginId → List OriginParameter → List OriginParameter
list_by_origin k = keep (λ (p : OriginParameter). same_id k p.origin_id)

abbrev pub list_by_reference : String → List OriginParameter → List OriginParameter
list_by_reference r = keep (λ (p : OriginParameter). str_eq p.reference r)

-- OOIRepository.save
put_merged : Ooi → Ooi × Bool → Session
put_merged old (merged, changed) =
    if changed
    then record {
      operations = Operation.put_object merged ∷ [];
      post_commit = Event.updated_object old merged ∷ [];
    }
    else unchanged

put_if_changed : Ooi → Option Ooi → Session
unfolding put_merged merge_ooi
put_if_changed ooi none = record {
  operations = Operation.put_object ooi ∷ [];
  post_commit = Event.created_object ooi ∷ [];
}
put_if_changed ooi (some old) = put_merged old (merge_ooi ooi old)

unfoldable pub save_ooi : Store → Ooi → Session
unfolding put_if_changed get_object
save_ooi s ooi = put_if_changed ooi (get_object ooi.reference s.objects)

-- OOIRepository.delete
unfoldable pub remove_ooi : Store → String → Outcome
unfolding get_object
remove_ooi s r = elim (get_object r s.objects) [
  | none ↦ failed Failure.object_not_found unchanged
  | some ooi ↦ written record {
    operations = Operation.delete_object r ∷ [];
    post_commit = Event.deleted_object ooi ∷ [];
  }
]

unfoldable pub delete_if_exists : Store → String → Session
unfolding remove_ooi
delete_if_exists s r = elim (remove_ooi s r) [ failed f w ↦ unchanged | written w ↦ w ]

-- OriginRepository.serialize
unfoldable pub serialize : Origin → Origin
unfolding from_keys
serialize o = record o { result = from_keys o.result }

-- OriginRepository.save
store_over : Origin → Option Origin → Session
unfolding serialize same_origin
store_over o none = record {
  operations = Operation.put_origin (serialize o) ∷ [];
  post_commit = Event.created_origin o ∷ [];
}
store_over o (some old) =
    if same_origin old o
    then if option_str_eq o.task_id old.task_id then unchanged else record {
      operations = Operation.delete_origin (id old) ∷ Operation.put_origin (serialize o) ∷ [];
      post_commit = [];
    }
    else record {
      operations = Operation.put_origin (serialize o) ∷ [];
      post_commit = Event.updated_origin old o ∷ [];
    }

unfoldable pub store_origin : Store → Origin → Session
unfolding store_over get_origin
store_origin s o = store_over o (get_origin (id o) s.origins)

-- OriginRepository.delete
unfoldable pub remove_origin : Origin → Session
remove_origin o = record {
  operations = Operation.delete_origin (id o) ∷ [];
  post_commit = Event.deleted_origin o ∷ [];
}

-- OriginParameterRepository.save
unfoldable pub save_parameter : Store → OriginParameter → Session
unfolding get_parameter same_parameter
save_parameter s p = elim (get_parameter p s.parameters) [
  | none ↦ record {
    operations = Operation.put_parameter p ∷ [];
    post_commit = Event.created_parameter p ∷ [];
  }
  | some old ↦ if same_parameter old p then unchanged else record {
    operations = Operation.put_parameter p ∷ [];
    post_commit = Event.updated_parameter old p ∷ [];
  }
]

unfoldable pub remove_parameter : OriginParameter → Session
remove_parameter p = record {
  operations = Operation.delete_parameter p ∷ [];
  post_commit = Event.deleted_parameter p ∷ [];
}

-- ScanProfileRepository.save
unfoldable pub save_profile : Option ScanProfile → ScanProfile → Session
unfolding same_profile
save_profile none new = record {
  operations = Operation.put_profile new ∷ [];
  post_commit = Event.created_profile new ∷ [];
}
save_profile (some old) new = if same_profile old new then unchanged else record {
  operations = Operation.put_profile new ∷ [];
  post_commit = Event.updated_profile old new ∷ [];
}

unfoldable pub remove_profile : ScanProfile → Session
remove_profile p = record {
  operations = Operation.delete_profile p.reference ∷ [];
  post_commit = Event.deleted_profile p ∷ [];
}
