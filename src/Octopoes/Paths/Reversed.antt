-- ===== src/Octopoes/Paths/Reversed.antt =====
-- The paths to neighbours of octopoes/octopoes/models/path.py and their reverses.
use nl_kat_coordination.Prelude.{
  String, List, [], ◌∷◌, map, any_of, some, true, str_eq, ◌≡◌, refl, subst, ap, arith, Memᴰ,
  mem-append, mem-append_right, mem-map, mem-flat_map, mem-flat_map_of, Bool-cases, inl, inr,
}
use nl_kat_coordination.Octopoes.Paths.{
  outgoing, incoming, Segment, Types, reverse, reversed_by, reverse_twice, get_paths_to_neighbours,
  outgoing_segment, incoming_segments,
}

abbrev incoming_segment : String → String → String → Segment
incoming_segment source name other = record {
  source_type = source;
  direction = incoming;
  property_name = name;
  target_type = some other;
}

module _ (types : Types) where
  incoming-direction :
      (source other : String) (rs : List (String × String)) (s : Segment)
      → Memᴰ s (incoming_segments types source other rs)
      → s.direction ≡ incoming
  unfolding incoming_segments
  incoming-direction source other [] s m = elim m [ ]
  incoming-direction source other ((name, related) ∷ rest) s m =
      elim (Bool-cases (any_of (str_eq source) (types.concretes related))) [
        | inl e ↦ at_head (incoming-direction source other rest s) (rw e at m)
        | inr e ↦ incoming-direction source other rest s (rw e at m)
      ]
    where
      at_head :
          (Memᴰ s (incoming_segments types source other rest) → s.direction ≡ incoming)
          → Memᴰ s (incoming_segment source name other ∷ incoming_segments types source other rest)
          → s.direction ≡ incoming
      at_head f (Memᴰ.head k) = ap (λ (z : Segment). z.direction) k
      at_head f (Memᴰ.tail n) = f n

  incoming-mem :
      (source other name : String) (rs : List (String × String))
      → any_of (str_eq source) (types.concretes source) ≡ true
      → Memᴰ (name, source) rs
      → Memᴰ (incoming_segment source name other) (incoming_segments types source other rs)
  unfolding incoming_segments
  incoming-mem source other name [] c m = elim m [ ]
  incoming-mem source other name ((n, related) ∷ rest) c (Memᴰ.head e) =
      subst
        (λ (z : String × String).
          Memᴰ (incoming_segment source name other)
            (incoming_segments types source other (z ∷ rest)))
        e (rw c (Memᴰ.head refl))
  incoming-mem source other name ((n, related) ∷ rest) c (Memᴰ.tail m) =
      elim (Bool-cases (any_of (str_eq source) (types.concretes related))) [
        | inl k ↦ rw k (Memᴰ.tail (incoming-mem source other name rest c m))
        | inr k ↦ rw k (incoming-mem source other name rest c m)
      ]

  -- An outgoing path from a concrete type to a concrete type reverses to a path of the target, which
  -- reverses back to it.
  pub reverse-outgoing :
      (source target : String) (s : Segment)
      → Memᴰ source types.concrete_types
      → any_of (str_eq target) (types.concretes target) ≡ true
      → Memᴰ s (get_paths_to_neighbours types source)
      → s.direction ≡ outgoing
      → s.target_type ≡ some target
      → (r : Segment) × (reverse s ≡ some r)
        × Memᴰ r (get_paths_to_neighbours types target)
        × (reverse r ≡ some s)
  unfolding get_paths_to_neighbours reverse
  reverse-outgoing source target s concrete c m d t =
      elim (mem-append (map (outgoing_segment types source) (types.relations source)) _ m) [
        | inr n ↦
            let (other, o, k) = mem-flat_map _ _ n in
            absurd (ground (arith, d, incoming-direction source other (types.relations other) s k))
        | inl n ↦
            let ((name, related), o, e) = mem-map (outgoing_segment types source) _ n in
            let same : related ≡ target =
              ground (arith, t, ap (λ (z : Segment). z.target_type) e) in
            let back : reverse s ≡ some (reversed_by s target) = rw (reverse, t) refl in
            (
              reversed_by s target,
              back,
              mem-append_right _ (
                  mem-flat_map_of
                    (λ other. incoming_segments types target other (types.relations other)) concrete
                    (rw e (
                      incoming-mem target source name (types.relations source) c
                        (subst (λ z. Memᴰ (name, z) (types.relations source)) same o)))),
              reverse_twice s (reversed_by s target) back,
            )
      ]
