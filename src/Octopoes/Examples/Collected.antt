-- ===== src/Octopoes/Examples/Collected.antt =====
-- A declared host of which a bit infers a network: the requests and events about it.
use nl_kat_coordination.Prelude.{
  List, [], ◌∷◌, ◌++◌, any_of, none, some, true, false, ◌&&◌, not, ◌≡◌, refl, str_eq,
}
use nl_kat_coordination.Octopoes.Origins.{
  Ooi, Origin, OriginId, OriginParameter, id, member, field_of, merge_ooi,
}
use nl_kat_coordination.Octopoes.Session.{Store, Event, Session, written, commit, apply_all}
use nl_kat_coordination.Octopoes.Bits.{BitDefinition, Environment}
use nl_kat_coordination.Octopoes.Requests.{Statement, Request, declared, serve}
use nl_kat_coordination.Octopoes.Handlers.{process_event, on_delete_origin, on_delete_ooi}
use nl_kat_coordination.Octopoes.Recalculation.{first_with, profile_of}
use nl_kat_coordination.Octopoes.Origins.Merged.{merge_ooi-unchanged}
use nl_kat_coordination.Octopoes.Requests.Refused.{is_failed, is_refused, serve-is_refused}
use nl_kat_coordination.Octopoes.Collection.Deleted.{on_delete_origin_iff}
use nl_kat_coordination.Octopoes.Collection.Removed.{on_delete_ooi-removes}
use nl_kat_coordination.Octopoes.Collection.{stores, supports}
use nl_kat_coordination.Octopoes.Collection.Reachable.{State, IsSound, is_allowed}
use nl_kat_coordination.Octopoes.Collection.Runs.{
  initial, initial-IsSound, Run-IsSound, Run-supported, unsupported-deleted, drain, drain-Run,
  RegularRun, Run-append, requested, requested-Run,
}

abbrev pub host : Ooi
host = record {
  reference = "Hostname|a";
  object_type = "Hostname";
  fields = ("name", some "a") ∷ [];
}

abbrev pub network : Ooi
network = record {
  reference = "Network|n";
  object_type = "Network";
  fields = ("name", some "n") ∷ [];
}

abbrev pub bit : BitDefinition
bit = record {
  id = "net";
  consumes = "Hostname";
  parameters = [];
  min_scan_level = 0;
  default_enabled = true;
  config_ooi_relation_path = none;
}

abbrev environment : Environment
environment = record {
  bit_definitions = bit ∷ [];
  bits_enabled = [];
  bits_disabled = [];
  is_instance = str_eq;
  run_bit = λ b x ps c. some (network ∷ []);
  get_bit_configs = λ s x b. [];
  get_tree = λ s r d. none;
}

abbrev statement : Statement
statement = record { method = none; ooi = host; source_method = none; task_id = "t" }

abbrev host_id : OriginId
host_id = id (declared statement)

abbrev settled : State
unfolding drain requested
settled = drain environment 8 (requested environment (Request.save_declaration statement) initial)

settled-Run : RegularRun environment initial settled
unfolding settled is_allowed
settled-Run =
    Run-append environment
      (requested-Run environment (Request.save_declaration statement) initial refl)
      (drain-Run environment 8 (requested environment (Request.save_declaration statement) initial))

Run-supported_example : any_of (supports "Network|n") settled.store.origins ≡ true
unfolding settled commit first_with
Run-supported_example = Run-supported environment "Network|n" settled-Run.0 settled-Run.1 refl refl

abbrev undeclared : State
undeclared = requested environment (Request.delete_origin host_id) settled

undeclared-Run : RegularRun environment initial undeclared
unfolding undeclared settled commit first_with is_allowed
undeclared-Run =
    Run-append environment settled-Run
      (requested-Run environment (Request.delete_origin host_id) settled refl)

unsupported-deleted_example :
    (before : List Event) × (e : Event) × (after : List Event) × (w : Session) × (undeclared.events
      ≡ before ++ e ∷ after)
    × (process_event environment undeclared.store e ≡ written w)
    × (stores (commit w undeclared.store).0 "Hostname|a" ≡ false)
unfolding undeclared settled commit first_with is_allowed
unsupported-deleted_example =
    unsupported-deleted environment undeclared "Hostname|a" undeclared-Run.0 undeclared-Run.1 refl
      refl

-- The deletion of the declaration, with its events, deletes the network as well.
all_deleted_test : (drain environment 8 undeclared).store.objects ≡ []
unfolding undeclared settled drain commit first_with
all_deleted_test = refl

Run-IsSound_example : IsSound environment undeclared
Run-IsSound_example =
    Run-IsSound environment undeclared-Run.0 undeclared-Run.1 (initial-IsSound environment)

on_delete_origin_example :
    stores
      (apply_all
        (on_delete_origin undeclared.store (declared statement)).operations
        undeclared.store)
      "Hostname|a"
    ≡ (stores undeclared.store "Hostname|a"
        && not (
            member "Hostname|a" ("Hostname|a" ∷ [])
            && not (any_of (supports "Hostname|a") undeclared.store.origins)))
on_delete_origin_example = on_delete_origin_iff undeclared.store (declared statement) "Hostname|a"

abbrev cleaned : Store
cleaned = apply_all (on_delete_ooi settled.store host).operations settled.store

on_delete_ooi-removes_example :
    (any_of (λ (o : Origin). str_eq o.source "Hostname|a") cleaned.origins ≡ false)
    × (any_of (λ (p : OriginParameter). str_eq p.reference "Hostname|a") cleaned.parameters ≡ false)
    × (profile_of "Hostname|a" cleaned.profiles ≡ none)
on_delete_ooi-removes_example = on_delete_ooi-removes settled.store host cleaned refl

serve-is_refused_example :
    is_failed (serve settled.store (Request.delete_origin host_id))
    ≡ is_refused settled.store (Request.delete_origin host_id)
serve-is_refused_example = serve-is_refused settled.store (Request.delete_origin host_id)

abbrev renamed : Ooi
renamed = record {
  reference = "Hostname|a";
  object_type = "Hostname";
  fields = ("name", none) ∷ ("network", some "n") ∷ [];
}

merge_ooi-unchanged_example : field_of "name" (merge_ooi renamed host).0.fields ≡ some (some "a")
unfolding merge_ooi
merge_ooi-unchanged_example = merge_ooi-unchanged renamed host "name" (some "a") refl refl
