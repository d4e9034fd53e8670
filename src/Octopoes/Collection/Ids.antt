-- ===== src/Octopoes/Collection/Ids.antt =====
-- The comparisons of octopoes/octopoes/models/origin.py
use nl_kat_coordination.Prelude.{
  String, List, [], ◌∷◌, keep, Option, none, some, true, false, not, ◌≡◌, refl, ap, subst, arith,
  Memᴰ, str_eq, str_eq_iff, option_str_eq, inl, inr, Bool-cases,
}
use nl_kat_coordination.Octopoes.Origins.{
  Origin, OriginId, OriginType, member, minus, same_id, same_set, same_origin, same_origin_type,
  from_keys,
}

same_origin_type_sound : (t u : OriginType) → same_origin_type t u ≡ true → t ≡ u
same_origin_type_sound t u h = ground arith

option_str_eq_sound : (a b : Option String) → option_str_eq a b ≡ true → a ≡ b
option_str_eq_sound none none h = refl
option_str_eq_sound none (some b) h = absurd (ground arith)
option_str_eq_sound (some a) none h = absurd (ground arith)
option_str_eq_sound (some a) (some b) h = ap some ((str_eq_iff a b).0 h)

pub same_id_sound : (k l : OriginId) → same_id k l ≡ true → k ≡ l
unfolding same_id
same_id_sound (t, m, n, r) (t', m', n', r') h =
    let e : t ≡ t' = same_origin_type_sound t t' (ground (arith, h)) in
    let f : m ≡ m' = (str_eq_iff m m').0 (ground (arith, h)) in
    let g : n ≡ n' = option_str_eq_sound n n' (ground (arith, h)) in
    let i : r ≡ r' = (str_eq_iff r r').0 (ground (arith, h)) in cc

same_origin_type_refl : (t : OriginType) → same_origin_type t t ≡ true
same_origin_type_refl t = ground arith

option_str_eq_refl : (a : Option String) → option_str_eq a a ≡ true
option_str_eq_refl none = refl
option_str_eq_refl (some a) = (str_eq_iff a a).1 refl

pub same_id_refl : (k : OriginId) → same_id k k ≡ true
unfolding same_id
same_id_refl (t, m, n, r) = ground (
  arith,
  same_origin_type_refl t,
  (str_eq_iff m m).1 refl,
  option_str_eq_refl n,
  (str_eq_iff r r).1 refl,
)

pub same_id-not : (k l : OriginId) → same_id k l ≡ false → k ≡ l → ⊥
same_id-not k l h e =
    let g : same_id k l ≡ true = subst (λ z. same_id k z ≡ true) e (same_id_refl k) in
    absurd (ground arith)

pub mem-member : (r : String) (rs : List String) → Memᴰ r rs → member r rs ≡ true
mem-member r (x ∷ xs) (Memᴰ.head e) = ground (arith, (str_eq_iff r x).1 e)
mem-member r (x ∷ xs) (Memᴰ.tail m) = ground (arith, mem-member r xs m)
mem-member r [] m = elim m [ ]

pub member-mem : (r : String) (rs : List String) → member r rs ≡ true → Memᴰ r rs
member-mem r [] h = absurd (ground arith)
member-mem r (x ∷ xs) h = elim (Bool-cases (str_eq r x)) [
  | inl e ↦ Memᴰ.head ((str_eq_iff r x).0 e)
  | inr e ↦ Memᴰ.tail (member-mem r xs (ground (arith, h, e)))
]

member-keep_other :
    (r x : String) (xs : List String)
    → str_eq x r ≡ false
    → member r (keep (λ y. not (str_eq x y)) xs) ≡ member r xs
member-keep_other r x [] h = refl
member-keep_other r x (y ∷ ys) h =
    ground (arith, member-keep_other r x ys h, str_eq_iff r y, str_eq_iff x y, str_eq_iff x r)

pub member-from_keys : (r : String) (xs : List String) → member r (from_keys xs) ≡ member r xs
unfolding from_keys
member-from_keys r [] = refl
member-from_keys r (x ∷ xs) = ground (
  arith,
  member-from_keys r xs,
  member-keep_other r x (from_keys xs),
  str_eq_iff r x,
  str_eq_iff x r,
)

pub member-minus :
    (r : String) (xs ys : List String)
    → member r xs ≡ true
    → member r ys ≡ false
    → member r (minus xs ys) ≡ true
member-minus r [] ys h k = absurd (ground arith)
member-minus r (x ∷ xs) ys h k = ground (arith, h, k, member-minus r xs ys, str_eq_iff r x)

-- An equal origin has the same results.
pub member-same_origin :
    (r : String) (o p : Origin)
    → same_origin o p ≡ true
    → member r o.result ≡ true
    → member r p.result ≡ true
unfolding same_origin same_set
member-same_origin r o p h m = elim (Bool-cases (member r p.result)) [
  | inl e ↦ e
  | inr e ↦ let k = member-minus r o.result p.result m e in ground (arith, h, k)
]

pub member-same_origin_back :
    (r : String) (o p : Origin)
    → same_origin o p ≡ true
    → member r p.result ≡ true
    → member r o.result ≡ true
unfolding same_origin same_set
member-same_origin_back r o p h m = elim (Bool-cases (member r o.result)) [
  | inl e ↦ e
  | inr e ↦ let k = member-minus r p.result o.result m e in ground (arith, h, k)
]
