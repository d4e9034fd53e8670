-- ===== src/Octopoes/Paths.antt =====
-- octopoes/octopoes/models/path.py: segments between types of objects, and the scan levels that pass
-- along them. The types of objects and their fields are an argument, `Types`; a result of none is the
-- ValueError of a segment without a target type.
pub mod Reversed
use nl_kat_coordination.Prelude.{
  ℕ, String, List, [], ◌∷◌, ◌++◌, map, flat_map, Option, none, some, ◌≡◌, refl, ap, arith, ◌⊎◌, inl,
  inr, Option-cases, any_of, str_eq, if◌then◌else◌,
}

pub data Direction : Type 0 where
  outgoing incoming : Direction

pub record Segment : Type 0 where
  pub source_type : String
  pub direction : Direction
  pub property_name : String
  pub target_type : Option String

-- `relations` is get_relations: the names of a type's references and the types they point to;
-- `concretes` is to_concrete of one type; the levels are in `json_schema_extra` of a field.
pub record Types : Type 0 where
  pub concrete_types : List String
  pub relations : String → List (String × String)
  pub concretes : String → List String
  pub max_issue_scan_level : String → String → Option ℕ
  pub max_inherit_scan_level : String → String → Option ℕ

abbrev opposite : Direction → Direction
opposite outgoing = incoming
opposite incoming = outgoing

-- The reversed segment, where there is a target
abbrev reversed_by : Segment → String → Segment
reversed_by s target = record {
  source_type = target;
  direction = opposite s.direction;
  property_name = s.property_name;
  target_type = some s.source_type;
}

reverse_to : Segment → Option String → Option Segment
reverse_to s none = none
reverse_to s (some target) = some (reversed_by s target)

unfoldable pub reverse : Segment → Option Segment
unfolding reverse_to
reverse s = reverse_to s s.target_type

-- The type that has the field of the segment
field_owner : Direction → String → Option String → Option String
field_owner outgoing source target = some source
field_owner incoming source target = target

opposite_twice : (d : Direction) → opposite (opposite d) ≡ d
opposite_twice outgoing = refl
opposite_twice incoming = refl

Direction-cases : (d : Direction) → (d ≡ outgoing) ⊎ (d ≡ incoming)
Direction-cases outgoing = inl refl
Direction-cases incoming = inr refl

reverse_lem :
    (s r : Segment)
    → reverse s ≡ some r
    → (t : String) × (s.target_type ≡ some t) × (r ≡ reversed_by s t)
unfolding reverse
reverse_lem s r e = elim (Option-cases s.target_type) [
  | inl k ↦ absurd (ground (arith, k, e))
  | inr (t, k) ↦ (t, k, ground (arith, k, e))
]

abbrev map_option : {A B : Type 0} → (A → B) → Option A → Option B
map_option f none = none
map_option f (some a) = some (f a)

module _ (types : Types) where
  inheritance_of : Direction → String → String → Option ℕ
  inheritance_of outgoing owner field = types.max_inherit_scan_level owner field
  inheritance_of incoming owner field = types.max_issue_scan_level owner field

  issuance_of : Direction → String → String → Option ℕ
  issuance_of outgoing owner field = types.max_issue_scan_level owner field
  issuance_of incoming owner field = types.max_inherit_scan_level owner field

  unfoldable pub get_max_scan_level_inheritance : Segment → Option (Option ℕ)
  unfolding field_owner inheritance_of
  get_max_scan_level_inheritance s =
      map_option (λ owner. inheritance_of s.direction owner s.property_name)
        (field_owner s.direction s.source_type s.target_type)

  unfoldable pub get_max_scan_level_issuance : Segment → Option (Option ℕ)
  unfolding field_owner issuance_of
  get_max_scan_level_issuance s =
      map_option (λ owner. issuance_of s.direction owner s.property_name)
        (field_owner s.direction s.source_type s.target_type)

  abbrev outgoing_segment : String → String × String → Segment
  outgoing_segment source (name, related) = record {
    source_type = source;
    direction = outgoing;
    property_name = name;
    target_type = some related;
  }

  -- The relations of `other` that may point to `source`
  incoming_segments : String → String → List (String × String) → List Segment
  incoming_segments source other [] = []
  incoming_segments source other ((name, related) ∷ rest) =
      let later = incoming_segments source other rest in
      if any_of (str_eq source) (types.concretes related)
      then record {
        source_type = source;
        direction = incoming;
        property_name = name;
        target_type = some other;
      }
        ∷ later
      else later

  -- A path to a neighbour has one segment.
  unfoldable pub get_paths_to_neighbours : String → List Segment
  unfolding incoming_segments
  get_paths_to_neighbours source =
      map (outgoing_segment source) (types.relations source)
      ++ flat_map (λ other. incoming_segments source other (types.relations other))
          types.concrete_types

  -- What an object issues along a segment is what it inherits along the reversed segment, and the
  -- other way round.
  pub issuance-reverse :
      (s r : Segment)
      → reverse s ≡ some r
      → (get_max_scan_level_issuance r ≡ get_max_scan_level_inheritance s)
        × (get_max_scan_level_inheritance r ≡ get_max_scan_level_issuance s)
  unfolding reverse get_max_scan_level_issuance get_max_scan_level_inheritance
  issuance-reverse s r e =
      let (t, k, l) = reverse_lem s r e in
      elim (Direction-cases s.direction) [
        | inl d ↦ rw (l, k, d) (refl, refl)
        | inr d ↦ rw (l, k, d) (refl, refl)
      ]

-- A reversed segment reverses back.
pub reverse_twice : (s r : Segment) → reverse s ≡ some r → reverse r ≡ some s
unfolding reverse
reverse_twice s r e = let (t, k, l) = reverse_lem s r e in rw l (ap some (twice t k))
  where
    twice : (t : String) → s.target_type ≡ some t → reversed_by (reversed_by s t) s.source_type ≡ s
    twice t k = rw⁻¹ k (ap (λ d. record s { direction = d }) (opposite_twice s.direction))
