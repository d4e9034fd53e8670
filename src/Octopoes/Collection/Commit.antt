-- ===== src/Octopoes/Collection/Commit.antt =====
-- What the commit of a lawful session leaves stored.
use nl_kat_coordination.Prelude.{
  String, List, [], ◌∷◌, any_of, true, ◌||◌, not, ◌≡◌, refl, ap, sym, subst, arith, ◌∙◌, Memᴰ,
  mem-keep, mem-keep_of, ◌⊎◌, inl, inr, Bool-cases, any_of_mem, or_left, or_right,
}
use nl_kat_coordination.Octopoes.Origins.{Origin, OriginId, OriginType, id, member, same_id}
use nl_kat_coordination.Octopoes.Session.{Store, Operation, Session, apply, apply_all}
use nl_kat_coordination.Octopoes.Service.{counts}
use nl_kat_coordination.Octopoes.Bits.{Environment}
use nl_kat_coordination.Octopoes.Collection.{
  supports, mentions, promises, IsLawfulOperation, AreLawful,
}
use nl_kat_coordination.Octopoes.Collection.Ids.{same_id_sound}

abbrev Puts : Operation → Origin → Type 0
Puts op p = (o : Origin) × (op ≡ Operation.put_origin o) × (id p ≡ id o)

abbrev Deletes : Operation → Origin → Type 0
Deletes op p = (k : OriginId) × (op ≡ Operation.delete_origin k) × (id p ≡ k)

survives :
    (op : Operation) (t : Store) (p : Origin)
    → Memᴰ p t.origins
    → Memᴰ p (apply op t).origins ⊎ (Puts op p ⊎ Deletes op p)
unfolding apply
survives (Operation.put_object x) t p m = inl m
survives (Operation.delete_object x) t p m = inl m
survives (Operation.put_origin o) t p m = elim (Bool-cases (same_id (id o) (id p))) [
  | inl h ↦ inr (inl (o, refl, sym (same_id_sound (id o) (id p) h)))
  | inr h ↦
      inl (Memᴰ.tail (mem-keep_of (λ (q : Origin). not (same_id (id o) (id q))) m (rw h refl)))
]
survives (Operation.delete_origin k) t p m = elim (Bool-cases (same_id k (id p))) [
  | inl h ↦ inr (inr (k, refl, sym (same_id_sound k (id p) h)))
  | inr h ↦ inl (mem-keep_of (λ (q : Origin). not (same_id k (id q))) m (rw h refl))
]
survives (Operation.put_parameter x) t p m = inl m
survives (Operation.delete_parameter x) t p m = inl m
survives (Operation.put_profile x) t p m = inl m
survives (Operation.delete_profile x) t p m = inl m

-- Where an origin of the store after an operation is from
pub origin_after :
    (op : Operation) (t : Store) (p : Origin)
    → Memᴰ p (apply op t).origins
    → Memᴰ p t.origins ⊎ (op ≡ Operation.put_origin p)
unfolding apply
origin_after (Operation.put_object x) t p m = inl m
origin_after (Operation.delete_object x) t p m = inl m
origin_after (Operation.put_origin o) t p (Memᴰ.head e) = inr (ap Operation.put_origin (sym e))
origin_after (Operation.put_origin o) t p (Memᴰ.tail m) =
    inl (mem-keep (λ (q : Origin). not (same_id (id o) (id q))) p t.origins m).0
origin_after (Operation.delete_origin k) t p m =
    inl (mem-keep (λ (q : Origin). not (same_id k (id q))) p t.origins m).0
origin_after (Operation.put_parameter x) t p m = inl m
origin_after (Operation.delete_parameter x) t p m = inl m
origin_after (Operation.put_profile x) t p m = inl m
origin_after (Operation.delete_profile x) t p m = inl m

type_of : OriginId → OriginType
type_of (t, m, n, r) = t

source_of : OriginId → String
source_of (t, m, n, r) = r

pub supports-same :
    (r : String) (o p : Origin)
    → id o ≡ id p
    → member r o.result ≡ member r p.result
    → supports r o ≡ supports r p
unfolding counts type_of source_of
supports-same r o p e h =
    let t : o.origin_type ≡ p.origin_type = ap type_of e in
    let s : o.source ≡ p.source = ap source_of e in rw (t, s, h) refl

-- Whether an origin with this result supports the object after the operations
abbrev pub Holds : String → Store → Type 0
Holds r t = any_of (supports r) t.origins ≡ true

pub supports-member : (r : String) (o : Origin) → supports r o ≡ true → member r o.result ≡ true
supports-member r o h = ground (arith, h)

supports-nil : (r : String) (o : Origin) → o.result ≡ [] → supports r o ≡ true → ⊥
supports-nil r o e h = let k = ap (member r) e in ground (arith, h, k)

supports_as :
    (r : String) (o o' : Origin)
    → id o ≡ id o'
    → o'.result ≡ o.result
    → supports r o ≡ true
    → supports r o' ≡ true
supports_as r o o' i same h = sym (supports-same r o o' i (ap (member r) (sym same))) ∙ h

pub promised :
    (r : String) (op : Operation)
    → promises r op ≡ true
    → (o : Origin) × (op ≡ Operation.put_origin o) × (supports r o ≡ true)
promised r (Operation.put_origin o) h = (o, refl, h)
promised r (Operation.put_object o) h = absurd (ground (arith, h))
promised r (Operation.delete_object o) h = absurd (ground (arith, h))
promised r (Operation.delete_origin o) h = absurd (ground (arith, h))
promised r (Operation.put_parameter o) h = absurd (ground (arith, h))
promised r (Operation.delete_parameter o) h = absurd (ground (arith, h))
promised r (Operation.put_profile o) h = absurd (ground (arith, h))
promised r (Operation.delete_profile o) h = absurd (ground (arith, h))

module _ (env : Environment) (s : Store) (ρ : OriginId → List String) (w : Session) where
  pub lawful_at :
      (op : Operation) (ops : List Operation)
      → AreLawful env s ρ w ops
      → Memᴰ op ops
      → (later : List Operation) × IsLawfulOperation env s ρ w op later
  lawful_at op [] l m = elim m [ ]
  lawful_at op (q ∷ ops) l (Memᴰ.head e) =
      (ops, subst (λ z. IsLawfulOperation env s ρ w z ops) (sym e) l.0)
  lawful_at op (q ∷ ops) l (Memᴰ.tail m) = lawful_at op ops l.1 m

  abbrev pub IsKept : String → Store → List Operation → Type 0
  IsKept r t ops =
      ((o : Origin) × Memᴰ o t.origins × (supports r o ≡ true) × (o.result ≡ ρ (id o)))
      ⊎ ((o : Origin) × Memᴰ (Operation.put_origin o) ops × (supports r o ≡ true))

  -- What the operations save under an id stays, or is replaced by the same.
  pub keeps :
      (ops : List Operation)
      → AreLawful env s ρ w ops
      → (t : Store) (r : String) → IsKept r t ops
      → Holds r (apply_all ops t)
  unfolding apply_all
  keeps [] l t r (inl (o, m, h, e)) = any_of_mem (supports r) m h
  keeps [] l t r (inr (o, m, h)) = elim m [ ]
  keeps (op ∷ ops) l t r (inr (o, Memᴰ.tail m, h)) = keeps ops l.1 (apply op t) r (inr (o, m, h))
  keeps (op ∷ ops) l t r (inr (o, Memᴰ.head e, h)) =
      let g = subst (λ z. IsLawfulOperation env s ρ w z ops) (sym e) l.0 in
      keeps ops l.1 (apply op t) r (inl (o, rw (sym e, apply) (Memᴰ.head refl), h, g.0))
  keeps (op ∷ ops) l t r (inl (o, m, h, e)) = elim (survives op t o m) [
    | inl n ↦ keeps ops l.1 (apply op t) r (inl (o, n, h, e))
    | inr (inl (o', k, i)) ↦
        let g = subst (λ z. IsLawfulOperation env s ρ w z ops) k l.0 in
        let same : o'.result ≡ o.result = rw (g.0, e, i) refl in
        keeps ops l.1 (apply op t) r
          (inl (o', rw (k, apply) (Memᴰ.head refl), supports_as r o o' i same h, g.0))
    | inr (inr (k', k, i)) ↦ elim (subst (λ z. IsLawfulOperation env s ρ w z ops) k l.0) [
      | inl (g, told) ↦
          let none_left : o.result ≡ [] = rw (e, i, g) refl in absurd (supports-nil r o none_left h)
      | inr (o', n, j) ↦
          let (later, g) = lawful_at (Operation.put_origin o') ops l.1 n in
          let same : o'.result ≡ o.result = rw (g.0, e, i, j) refl in
          keeps ops l.1 (apply op t) r (inr (o', n, supports_as r o o' (i ∙ sym j) same h))
    ]
  ]

  -- Where an origin of before is put again, it goes on to hold the object or the session tells.
  replaced :
      (ops : List Operation)
      → AreLawful env s ρ w ops
      → (t : Store) (r : String) (p o : Origin) (later : List Operation) → Memᴰ p s.origins
      → supports r p ≡ true
      → id p ≡ id o
      → IsLawfulOperation env s ρ w (Operation.put_origin o) later
      → (supports r o ≡ true → IsKept r t ops)
      → (any_of (supports r) (apply_all ops t).origins || any_of (mentions r) w.post_commit) ≡ true
  replaced ops l t r p o later m h i g kept =
      let hp = supports-member r p h in
      elim (Bool-cases (member r o.result)) [
        | inl j ↦
            or_left _ _ (keeps ops l t r (kept (sym (supports-same r p o i (hp ∙ sym j)) ∙ h)))
        | inr j ↦
            let k : any_of (mentions r) w.post_commit ≡ true = ground (arith, g.2 p r m i hp, j) in
            or_right _ _ k
      ]

  -- An origin goes on to hold the object, or the session tells that it does not.
  pub carries :
      (ops : List Operation)
      → AreLawful env s ρ w ops
      → (t : Store) (r : String) (p : Origin) → Memᴰ p s.origins
      → Memᴰ p t.origins
      → supports r p ≡ true
      → (any_of (supports r) (apply_all ops t).origins || any_of (mentions r) w.post_commit) ≡ true
  unfolding apply_all
  carries [] l t r p m n h = rw (any_of_mem (supports r) n h) refl
  carries (op ∷ ops) l t r p m n h = elim (survives op t p n) [
    | inl n' ↦ carries ops l.1 (apply op t) r p m n' h
    | inr (inl (o, k, i)) ↦
        let g = subst (λ z. IsLawfulOperation env s ρ w z ops) k l.0 in
        replaced ops l.1 (apply op t) r p o ops m h i g
          (λ q. inl (o, rw (k, apply) (Memᴰ.head refl), q, g.0))
    | inr (inr (k', k, i)) ↦ elim (subst (λ z. IsLawfulOperation env s ρ w z ops) k l.0) [
      | inl (g, told) ↦ or_right _ _ (told p r m i (supports-member r p h))
      | inr (o, a, j) ↦
          let (later, g) = lawful_at (Operation.put_origin o) ops l.1 a in
          replaced ops l.1 (apply op t) r p o later m h (i ∙ sym j) g (λ q. inr (o, a, q))
    ]
  ]
