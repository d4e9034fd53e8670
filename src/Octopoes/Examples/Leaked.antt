-- ===== src/Octopoes/Examples/Leaked.antt =====
-- A handler that raises, and what its session leaves in the store with the next event: handle_event of
-- octopoes/octopoes/tasks/tasks.py.
use nl_kat_coordination.Prelude.{
  String, List, [], ◌∷◌, any_of, Option, none, some, Bool, true, false, ◌≡◌, refl, str_eq, is_some,
  ◌&&◌, if◌then◌else◌,
}
use nl_kat_coordination.Octopoes.Origins.{Ooi, OriginId, id, set_field}
use nl_kat_coordination.Octopoes.Session.{
  Store, Event, Session, Outcome, written, failed, commit, ◌then◌,
}
use nl_kat_coordination.Octopoes.Bits.{Environment}
use nl_kat_coordination.Octopoes.Handlers.{process_event, bit_instance}
use nl_kat_coordination.Octopoes.Requests.{Statement, Request}
use nl_kat_coordination.Octopoes.Recalculation.{first_with}
use nl_kat_coordination.Octopoes.Collection.{stores, supports}
use nl_kat_coordination.Octopoes.Collection.Reachable.{State, Step, Run, is_allowed}
use nl_kat_coordination.Octopoes.Collection.Runs.{
  initial, drain, drain-Run, requested, requested-Run,
}
use nl_kat_coordination.Octopoes.Examples.Collected.{host, network, bit}

-- An object with an optional field that has no value at first
abbrev with_alias : Ooi → String → Option String → Ooi
with_alias x name alias = record x { fields = ("name", some name) ∷ ("alias", alias) ∷ [] }

abbrev is_renamed : Ooi → Bool
is_renamed x = any_of (λ (f : String × Option String). str_eq f.0 "alias" && is_some f.1) x.fields

-- The first bit infers a network, and the second raises for a host with an alias.
abbrev infer_for : String → Bool → Option (List Ooi)
infer_for bit_id false = some (if str_eq bit_id "net" then with_alias network "n" none ∷ [] else [])
infer_for bit_id true =
    if str_eq bit_id "net" then some (with_alias network "n" (some "b") ∷ []) else none

abbrev environment : Environment
environment = record {
  bit_definitions = bit ∷ record bit { id = "raises" } ∷ [];
  bits_enabled = [];
  bits_disabled = [];
  is_instance = str_eq;
  run_bit = λ b x ps c. infer_for b.id (is_renamed x);
  get_bit_configs = λ s x b. [];
  get_tree = λ s r d. none;
}

abbrev statement : Ooi → Statement
statement x = record { method = none; ooi = x; source_method = none; task_id = "t" }

abbrev updated : State
updated =
    requested environment (Request.save_declaration (statement (with_alias host "a" (some "b")))) (
      drain environment 12 (
        requested environment (Request.save_declaration (statement (with_alias host "a" none)))
          initial))

lost_by : State → List Event → Outcome → State
lost_by a after (written w) = a
lost_by a after (failed f w) = record {
  store = a.store;
  events = after;
  pending = a.pending then w;
}

-- The first event is lost, where its handler raises.
lost : List Event → State → State
unfolding lost_by process_event
lost [] a = a
lost (e ∷ after) a = lost_by a after (process_event environment a.store e)

network_id : OriginId
network_id = id (bit_instance "net" "Hostname|a")

abbrev left_behind : State
unfolding lost network_id
left_behind = drain environment 12 (
    requested environment (Request.delete_object "Network|n")
      (requested environment (Request.delete_origin network_id) (lost updated.events updated)))

-- The bit's object is stored again after it was deleted, and no origin has it.
leaked_test :
    (left_behind.events ≡ [])
    × (stores left_behind.store "Network|n" ≡ true)
    × (any_of (supports "Network|n") left_behind.store.origins ≡ false)
unfolding left_behind updated drain requested commit first_with set_field
leaked_test = (refl, refl, refl)

lost_by-Run :
    (s : Store) (e : Event) (after : List Event) (pending : Session) (o : Outcome)
    → process_event environment s e ≡ o
    → Run environment
        record { store = s; events = e ∷ after; pending = pending }
        (lost_by record { store = s; events = e ∷ after; pending = pending } after o)
unfolding lost_by
lost_by-Run s e after pending (written w) p = Run.done
lost_by-Run s e after pending (failed f w) p = Run.next (Step.lose [] e after f w p) Run.done

lost-Run :
    (s : Store) (events : List Event) (pending : Session)
    → Run environment
        record { store = s; events = events; pending = pending }
        (lost events record { store = s; events = events; pending = pending })
unfolding lost
lost-Run s [] pending = Run.done
lost-Run s (e ∷ after) pending = lost_by-Run s e after pending (process_event environment s e) refl

joined : {a b c : State} → Run environment a b → Run environment b c → Run environment a c
joined Run.done r = r
joined (Run.next t q) r = Run.next t (joined q r)

-- Requests and events lead there from an empty store.
left_behind-Run : Run environment initial left_behind
unfolding left_behind updated is_allowed
left_behind-Run =
    let declare = λ (x : Ooi). Request.save_declaration (statement x) in
    let drop = Request.delete_origin network_id in
    let delete = Request.delete_object "Network|n" in
    let first = requested environment (declare (with_alias host "a" none)) initial in
    let gone = lost updated.events updated in
    let undeclared = requested environment drop gone in
    joined (requested-Run environment (declare (with_alias host "a" none)) initial refl).0 (
      joined (drain-Run environment 12 first).0 (
        joined
          (requested-Run environment (declare (with_alias host "a" (some "b")))
            (drain environment 12 first) refl).0
          (joined (lost-Run updated.store updated.events updated.pending) (
            joined (requested-Run environment drop gone refl).0 (
              joined (requested-Run environment delete undeclared refl).0
                (drain-Run environment 12 (requested environment delete undeclared)).0)))))
