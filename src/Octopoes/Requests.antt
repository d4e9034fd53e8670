-- ===== src/Octopoes/Requests.antt =====
-- octopoes/octopoes/api/router.py: the requests that save and delete origins and objects, each of
-- which is one session. `ooi` and `result` stand for validated objects, and a request without a task
-- comes with the id that uuid4 makes for it.
pub mod Refused
use nl_kat_coordination.Prelude.{String, List, [], ◌∷◌, map, Option, none, some}
use nl_kat_coordination.Octopoes.Origins.{Ooi, Origin, OriginId, OriginType}
use nl_kat_coordination.Octopoes.Session.{Store, unchanged, Outcome, written, failed, Failure}
use nl_kat_coordination.Octopoes.Repositories.{get_origin, remove_ooi, remove_origin}
use nl_kat_coordination.Octopoes.Service.{save_origin}

pub record Observation : Type 0 where
  pub method : String
  pub source : String
  pub source_method : Option String
  pub result : List Ooi
  pub task_id : String

-- A declaration or an affirmation
pub record Statement : Type 0 where
  pub method : Option String
  pub ooi : Ooi
  pub source_method : Option String
  pub task_id : String

pub data Request : Type 0 where
  save_observation : Observation → Request
  save_declaration : Statement → Request
  save_affirmation : Statement → Request
  delete_object : String → Request
  delete_origin : OriginId → Request

abbrev pub method_or : String → Option String → String
method_or default none = default
method_or default (some m) = m

abbrev pub observed : Observation → Origin
observed o = record {
  origin_type = OriginType.observation;
  method = o.method;
  source = o.source;
  source_method = o.source_method;
  result = map (λ (x : Ooi). x.reference) o.result;
  task_id = some o.task_id;
}

abbrev pub stated : OriginType → String → Statement → Origin
stated t default d = record {
  origin_type = t;
  method = method_or default d.method;
  source = d.ooi.reference;
  source_method = d.source_method;
  result = d.ooi.reference ∷ [];
  task_id = some d.task_id;
}

abbrev pub declared : Statement → Origin
declared = stated OriginType.declaration "manual"

abbrev pub affirmed : Statement → Origin
affirmed = stated OriginType.affirmation "hydration"

unfoldable pub serve : Store → Request → Outcome
unfolding save_origin remove_ooi get_origin remove_origin
serve s (Request.save_observation o) = save_origin s (observed o) o.result
serve s (Request.save_declaration d) = save_origin s (declared d) (d.ooi ∷ [])
serve s (Request.save_affirmation a) = save_origin s (affirmed a) (a.ooi ∷ [])
serve s (Request.delete_object r) = remove_ooi s r
serve s (Request.delete_origin k) = elim (get_origin k s.origins) [
  | none ↦ failed Failure.object_not_found unchanged
  | some o ↦ written (remove_origin o)
]
