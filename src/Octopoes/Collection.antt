-- ===== src/Octopoes/Collection.antt =====
-- What octopoes/octopoes/core/service.py means by an object that has an origin: _delete_ooi deletes
-- the objects that have none, when the events of the origins that had them are handled.
pub mod Ids
pub mod Commit
pub mod Committed
pub mod Keyed
pub mod Lawful
pub mod Outcomes
pub mod Saved
pub mod Inferred
pub mod Attached
pub mod Handled
pub mod Deleted
pub mod Reachable
pub mod Runs
pub mod Removed
use nl_kat_coordination.Prelude.{
  String, List, [], ◌∷◌, any_of, Option, none, some, Bool, true, false, ◌||◌, ◌&&◌, not, ◌≡◌, Memᴰ,
  is_some, str_eq, ◌⊎◌,
}
use nl_kat_coordination.Octopoes.Origins.{
  Ooi, Origin, OriginId, OriginType, id, member, same_origin_type,
}
use nl_kat_coordination.Octopoes.Session.{Store, Event, Operation, Session}
use nl_kat_coordination.Octopoes.Repositories.{get_object}
use nl_kat_coordination.Octopoes.Service.{counts, is_inference}
use nl_kat_coordination.Octopoes.Bits.{Environment, bit_with}

abbrev pub stores : Store → String → Bool
stores s r = is_some (get_object r s.objects)

-- The object is a result of the origin, which counts for it.
abbrev pub supports : String → Origin → Bool
supports r o = member r o.result && counts r o

-- The object is to be deleted when the event is handled, unless another origin has it.
unfoldable pub mentions : String → Event → Bool
mentions r (Event.deleted_origin old) = member r old.result
mentions r (Event.updated_origin old new) = member r old.result && not (member r new.result)
mentions r _ = false

abbrev pub promises : String → Operation → Bool
promises r (Operation.put_origin o) = supports r o
promises r _ = false

-- An object without a supporting origin is mentioned by an event that is to be handled.
pub record IsCollected (s : Store) (events : List Event) : Type 0 where
  pub collected :
      (r : String)
      → stores s r ≡ true
      → (any_of (supports r) s.origins || any_of (mentions r) events) ≡ true

-- There is one origin under each id.
abbrev pub IsKeyed : Store → Type 0
IsKeyed s = (o p : Origin) → Memᴰ o s.origins → Memᴰ p s.origins → id o ≡ id p → o ≡ p

-- A bit does not run for an affirmation.
abbrev pub runs_affirmed : Environment → Origin → Bool
runs_affirmed env o =
    same_origin_type o.origin_type OriginType.affirmation
    && is_some (bit_with o.method env.bit_definitions)

-- A later operation puts an origin under this id.
abbrev pub Replaces : OriginId → List Operation → Type 0
Replaces k ops = (o : Origin) × Memᴰ (Operation.put_origin o) ops × (id o ≡ k)

module _ (env : Environment) (s : Store) (ρ : OriginId → List String) (w : Session) where
  -- What an operation of a session may do before `later` ones, so that no object loses its origins
  -- unnoticed: ρ has the results that the session saves under an id.
  abbrev pub IsLawfulOperation : Operation → List Operation → Type 0
  IsLawfulOperation (Operation.put_object x) later =
      (stores s x.reference
        || (any_of (supports x.reference) s.origins || any_of (promises x.reference) w.operations))
      ≡ true
  IsLawfulOperation (Operation.put_origin o) later =
      (o.result ≡ ρ (id o))
      × (runs_affirmed env o ≡ false)
      × ((p : Origin) (r : String)
          → Memᴰ p s.origins
          → id p ≡ id o
          → member r p.result ≡ true
          → (member r o.result || any_of (mentions r) w.post_commit) ≡ true)
  IsLawfulOperation (Operation.delete_origin k) later =
      ((ρ k ≡ [])
        × ((p : Origin) (r : String)
            → Memᴰ p s.origins
            → id p ≡ k
            → member r p.result ≡ true
            → any_of (mentions r) w.post_commit ≡ true))
      ⊎ Replaces k later
  IsLawfulOperation _ later = Unit

  abbrev pub AreLawful : List Operation → Type 0
  AreLawful [] = Unit
  AreLawful (op ∷ ops) = IsLawfulOperation op ops × AreLawful ops

  pub record IsLawful : Type 0 where
    pub lawful : AreLawful w.operations
