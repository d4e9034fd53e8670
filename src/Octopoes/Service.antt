-- ===== src/Octopoes/Service.antt =====
-- octopoes/octopoes/core/service.py: the origins of objects. _delete_ooi, save_origin,
-- _run_inference and the handlers of process_event. Metrics are off, and an iteration over a set is
-- in the order of a list.
use nl_kat_coordination.Prelude.{
  String, List, [], ◌∷◌, map, any_of, Bool, true, false, ◌||◌, ◌&&◌, not, str_eq, is_some,
  if◌then◌else◌,
}
use nl_kat_coordination.Octopoes.Origins.{Ooi, Origin, OriginType, member, same_origin_type}
use nl_kat_coordination.Octopoes.Session.{
  Store, Session, unchanged, ◌then◌, Outcome, written, failed, Failure, each_session,
}
use nl_kat_coordination.Octopoes.Repositories.{
  get_object, list_by_result, list_by_type, save_ooi, delete_if_exists, store_origin, remove_origin,
}

-- Whether an origin keeps an object that is among its results
unfoldable pub counts : String → Origin → Bool
counts reference o = not (
    same_origin_type o.origin_type OriginType.affirmation
    || (same_origin_type o.origin_type OriginType.inference && str_eq o.source reference))

-- _delete_ooi
unfoldable pub delete_ooi : Store → String → Session
unfolding counts delete_if_exists
delete_ooi s r =
    if not (any_of (counts r) (list_by_result r s.origins)) then delete_if_exists s r else unchanged

-- `[other_origin.source] == other_origin.result`
abbrev only_source : Origin → Bool
only_source o = elim o.result [
  | [] ↦ false
  | r ∷ rs ↦ elim rs [ [] ↦ str_eq o.source r | _ ∷ _ ↦ false ]
]

-- Whether the source of an affirmation has an origin of another kind
unfoldable pub is_affirmable : Store → String → Bool
is_affirmable s source =
    any_of
      (λ (o : Origin). not (same_origin_type o.origin_type OriginType.inference && only_source o))
      (list_by_type (OriginType.declaration ∷ OriginType.observation ∷ OriginType.inference ∷ [])
        (list_by_result source s.origins))

abbrev pub is_affirmation : Origin → Bool
is_affirmation o = same_origin_type o.origin_type OriginType.affirmation

abbrev pub is_inference : Origin → Bool
is_inference o = same_origin_type o.origin_type OriginType.inference

-- `origin.result = [ooi.reference for ooi in oois]`
abbrev pub with_result : Origin → List Ooi → Origin
with_result o oois = record o { result = map (λ (x : Ooi). x.reference) oois }

abbrev pub is_nil : List String → Bool
is_nil [] = true
is_nil (r ∷ rs) = false

abbrev pub is_stale : Origin → Bool
is_stale o = is_nil o.result && not (is_inference o)

-- "Origins that are stale, eg have no results and are not inferenced need to be deleted."
unfoldable pub delete_stale : Origin → Session
unfolding remove_origin
delete_stale o = if is_stale o then remove_origin o else unchanged

unfoldable pub save_results : Store → Origin → List Ooi → Session
unfolding delete_stale each_session save_ooi store_origin
save_results s o oois = each_session (save_ooi s) oois then (store_origin s o then delete_stale o)

save_checked : Store → Origin → List Ooi → Outcome
unfolding save_results is_affirmable delete_if_exists
save_checked s o oois =
    let missing = not (is_some (get_object o.source s.objects)) in
    let exempt = same_origin_type o.origin_type OriginType.declaration || is_affirmation o in
    if missing && (not exempt && not (member o.source o.result))
    then failed Failure.value_error unchanged
    else if missing && is_affirmation o
    then written unchanged
    else if is_affirmation o && not (is_affirmable s o.source)
    then written (delete_if_exists s o.source)
    else written (save_results s o oois)

unfoldable pub save_origin : Store → Origin → List Ooi → Outcome
unfolding save_checked
save_origin s o oois = save_checked s (with_result o oois) oois
