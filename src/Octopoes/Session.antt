-- ===== src/Octopoes/Session.antt =====
-- octopoes/octopoes/xtdb/client.py: XTDBSession, with the entities that it stores and the events of
-- octopoes/octopoes/events/events.py. All is at one valid time, and an entity has one value under
-- its key. The operations of a session are run and its events published when it commits.
use nl_kat_coordination.Prelude.{String, List, [], ◌∷◌, ◌++◌, keep, not, str_eq, if◌then◌else◌}
use nl_kat_coordination.Octopoes.Profiles.{ScanProfile}
use nl_kat_coordination.Octopoes.Origins.{
  Ooi, Origin, OriginId, OriginParameter, id, same_id, same_parameter,
}

pub record Store : Type 0 where
  pub objects : List Ooi
  pub origins : List Origin
  pub parameters : List OriginParameter
  pub profiles : List ScanProfile

pub data Operation : Type 0 where
  put_object : Ooi → Operation
  delete_object : String → Operation
  put_origin : Origin → Operation
  delete_origin : OriginId → Operation
  put_parameter : OriginParameter → Operation
  delete_parameter : OriginParameter → Operation
  put_profile : ScanProfile → Operation
  delete_profile : String → Operation

pub data Event : Type 0 where
  created_object : Ooi → Event
  updated_object : Ooi → Ooi → Event
  deleted_object : Ooi → Event
  created_origin : Origin → Event
  updated_origin : Origin → Origin → Event
  deleted_origin : Origin → Event
  created_parameter : OriginParameter → Event
  updated_parameter : OriginParameter → OriginParameter → Event
  deleted_parameter : OriginParameter → Event
  created_profile : ScanProfile → Event
  updated_profile : ScanProfile → ScanProfile → Event
  deleted_profile : ScanProfile → Event

unfoldable pub apply : Operation → Store → Store
unfolding same_id same_parameter
apply (put_object o) s = record s {
  objects = o ∷ keep (λ (p : Ooi). not (str_eq o.reference p.reference)) s.objects;
}
apply (delete_object r) s = record s {
  objects = keep (λ (p : Ooi). not (str_eq r p.reference)) s.objects;
}
apply (put_origin o) s = record s {
  origins = o ∷ keep (λ (p : Origin). not (same_id (id o) (id p))) s.origins;
}
apply (delete_origin k) s = record s {
  origins = keep (λ (p : Origin). not (same_id k (id p))) s.origins;
}
apply (put_parameter p) s = record s {
  parameters = p ∷ keep (λ q. not (same_parameter p q)) s.parameters;
}
apply (delete_parameter p) s = record s {
  parameters = keep (λ q. not (same_parameter p q)) s.parameters;
}
apply (put_profile p) s = record s {
  profiles = p ∷ keep (λ (q : ScanProfile). not (str_eq p.reference q.reference)) s.profiles;
}
apply (delete_profile r) s = record s {
  profiles = keep (λ (q : ScanProfile). not (str_eq r q.reference)) s.profiles;
}

-- `submit_transaction`: the operations in their order
unfoldable pub apply_all : List Operation → Store → Store
unfolding apply
apply_all [] s = s
apply_all (op ∷ ops) s = apply_all ops (apply op s)

-- What a session has collected
pub record Session : Type 0 where
  pub operations : List Operation
  pub post_commit : List Event

-- The store and the events that are published. A session with no operations publishes none.
unfoldable pub commit : Session → Store → Store × List Event
unfolding apply_all
commit w s = elim w.operations [ [] ↦ (s, []) | op ∷ ops ↦ (apply_all (op ∷ ops) s, w.post_commit) ]

abbrev pub unchanged : Session
unchanged = record { operations = []; post_commit = [] }

-- Two parts of a request or a handler, which add to one session
infixr 40 ◌then◌
abbrev pub ◌then◌ : Session → Session → Session
v then w = record {
  operations = v.operations ++ w.operations;
  post_commit = v.post_commit ++ w.post_commit;
}

pub data Failure : Type 0 where
  value_error object_not_found bit_failed : Failure

-- What a request or handler has written to its session when it returns or raises
pub data Outcome : Type 0 where
  written : Session → Outcome
  failed : Failure → Session → Outcome

-- The session of an outcome
abbrev pub held : Outcome → Session
held (written w) = w
held (failed f w) = w

unfoldable pub both : Outcome → Outcome → Outcome
both (failed f v) b = failed f v
both (written v) (failed f w) = failed f (v then w)
both (written v) (written w) = written (v then w)

unfoldable pub each {ℓ} : {A : Type ℓ} → (A → Outcome) → List A → Outcome
unfolding both
each f [] = written unchanged
each f (x ∷ xs) = both (f x) (each f xs)

unfoldable pub each_session {ℓ} : {A : Type ℓ} → (A → Session) → List A → Session
each_session f [] = unchanged
each_session f (x ∷ xs) = f x then each_session f xs
