-- ===== src/Octopoes/Origins.antt =====
-- octopoes/octopoes/models/origin.py and merge_ooi of repositories/ooi_repository.py: origins, their
-- parameters and the objects. The text of an origin's id is taken to tell two origins apart exactly
-- where its parts do.
pub mod Merged
use nl_kat_coordination.Prelude.{
  String, List, [], ◌∷◌, keep, any_of, Option, none, some, Bool, true, false, ◌&&◌, ◌||◌, not,
  str_eq, option_str_eq, is_some, if◌then◌else◌,
}

pub data OriginType : Type 0 where
  declaration observation inference affirmation : OriginType

pub record Origin : Type 0 where
  pub origin_type : OriginType
  pub method : String
  pub source : String
  pub source_method : Option String
  pub result : List String
  pub task_id : Option String

-- An object is its reference, its class and its fields with the texts of their values.
pub record Ooi : Type 0 where
  pub reference : String
  pub object_type : String
  pub fields : List (String × Option String)

abbrev pub same_origin_type : OriginType → OriginType → Bool
same_origin_type OriginType.declaration OriginType.declaration = true
same_origin_type OriginType.observation OriginType.observation = true
same_origin_type OriginType.inference OriginType.inference = true
same_origin_type OriginType.affirmation OriginType.affirmation = true
same_origin_type _ _ = false

abbrev pub member : String → List String → Bool
member r rs = any_of (str_eq r) rs

-- `set(xs) - set(ys)`
abbrev pub minus : List String → List String → List String
minus xs ys = keep (λ r. not (member r ys)) xs

abbrev empty : List String → Bool
empty [] = true
empty (x ∷ xs) = false

-- `set(xs) == set(ys)`
unfoldable pub same_set : List String → List String → Bool
unfolding empty
same_set xs ys = empty (minus xs ys) && empty (minus ys xs)

-- `list(dict.fromkeys(xs))`
unfoldable pub from_keys : List String → List String
from_keys [] = []
from_keys (x ∷ xs) = x ∷ keep (λ y. not (str_eq x y)) (from_keys xs)

-- The parts of Origin.id
abbrev pub OriginId : Type 0
OriginId = OriginType × String × Option String × String

abbrev pub id : Origin → OriginId
id o = (o.origin_type, o.method, o.source_method, o.source)

unfoldable pub same_id : OriginId → OriginId → Bool
same_id (t, m, s, r) (t', m', s', r') =
    same_origin_type t t' && (str_eq m m' && (option_str_eq s s' && str_eq r r'))

-- Origin.__eq__
unfoldable pub same_origin : Origin → Origin → Bool
unfolding same_id same_set
same_origin o p = same_id (id o) (id p) && same_set o.result p.result

pub record OriginParameter : Type 0 where
  pub origin_id : OriginId
  pub reference : String

unfoldable pub same_parameter : OriginParameter → OriginParameter → Bool
unfolding same_id
same_parameter p q = same_id p.origin_id q.origin_id && str_eq p.reference q.reference

-- `data_old[key]`, where the key is there
unfoldable pub field_of : String → List (String × Option String) → Option (Option String)
field_of k [] = none
field_of k ((k', v) ∷ rest) = if str_eq k' k then some v else field_of k rest

-- "Trim new None values"
unfoldable pub clean : List (String × Option String) → List (String × Option String)
clean fields = keep (λ (f : String × Option String). is_some f.1) fields

-- `data_old[key] = value`
unfoldable pub set_field :
    String → Option String → List (String × Option String) → List (String × Option String)
set_field k v [] = (k, v) ∷ []
set_field k v ((k', v') ∷ rest) =
    let later = set_field k v rest in if str_eq k' k then (k', v) ∷ rest else (k', v') ∷ later

-- `data_old.update(clean_new)`
unfoldable pub update_fields :
    List (String × Option String) → List (String × Option String) → List (String × Option String)
update_fields [] old = old
update_fields ((k, v) ∷ new) old = update_fields new (set_field k v old)

unfoldable pub differs : Option String → Option (Option String) → Bool
differs v none = false
differs v (some w) = not (option_str_eq v w)

-- `any(key in data_old and data_old[key] != value)` over the fields
unfoldable pub is_changed : List (String × Option String) → List (String × Option String) → Bool
unfolding field_of differs
is_changed new old = any_of (λ (f : String × Option String). differs f.1 (field_of f.0 old)) new

-- The reference is of the new object: the old one is the object that is stored under it.
unfoldable pub merge_ooi : Ooi → Ooi → Ooi × Bool
unfolding clean update_fields is_changed
merge_ooi new old =
    let clean_new = clean new.fields in
    (
      record {
        reference = new.reference;
        object_type = new.object_type;
        fields = update_fields clean_new old.fields;
      },
      is_changed clean_new old.fields,
    )
