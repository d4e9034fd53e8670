-- ===== src/Octopoes/Collection/Committed.antt =====
-- The store after a commit keeps the invariant of Collection.
use nl_kat_coordination.Prelude.{
  String, List, [], ◌∷◌, ◌++◌, keep, any_of, Bool, true, ◌||◌, not, ◌≡◌, refl, sym, subst, arith,
  Memᴰ, is_some, str_eq, str_eq_iff, ◌⊎◌, inl, inr, Bool-cases, or_left, any_of-append,
  any_of_exists,
}
use nl_kat_coordination.Octopoes.Origins.{Ooi, OriginId}
use nl_kat_coordination.Octopoes.Session.{
  Store, Event, Operation, Session, apply, apply_all, commit,
}
use nl_kat_coordination.Octopoes.Repositories.{get_object}
use nl_kat_coordination.Octopoes.Bits.{Environment}
use nl_kat_coordination.Octopoes.Collection.{
  stores, supports, mentions, promises, IsLawful, IsCollected,
}
use nl_kat_coordination.Octopoes.Collection.Commit.{carries, keeps, lawful_at, promised}

pub stores-keep :
    (r : String) (p : Ooi → Bool) (os : List Ooi)
    → is_some (get_object r (keep p os)) ≡ true
    → is_some (get_object r os) ≡ true
unfolding get_object
stores-keep r p [] h = h
stores-keep r p (o ∷ os) h = ground (arith, h, stores-keep r p os)

PutsUnder : String → Operation → Type 0
PutsUnder r op = (x : Ooi) × (op ≡ Operation.put_object x) × (r ≡ x.reference)

object_after :
    (op : Operation) (t : Store) (r : String)
    → stores (apply op t) r ≡ true
    → (stores t r ≡ true) ⊎ PutsUnder r op
unfolding apply get_object PutsUnder
object_after (Operation.put_object x) t r h = elim (Bool-cases (str_eq r x.reference)) [
  | inl e ↦ inr (x, refl, (str_eq_iff r x.reference).0 e)
  | inr e ↦ inl (
      stores-keep r (λ (p : Ooi). not (str_eq x.reference p.reference)) t.objects
        (ground (arith, h, e)))
]
object_after (Operation.delete_object x) t r h =
    inl (stores-keep r (λ (p : Ooi). not (str_eq x p.reference)) t.objects h)
object_after (Operation.put_origin o) t r h = inl h
object_after (Operation.delete_origin k) t r h = inl h
object_after (Operation.put_parameter x) t r h = inl h
object_after (Operation.delete_parameter x) t r h = inl h
object_after (Operation.put_profile x) t r h = inl h
object_after (Operation.delete_profile x) t r h = inl h

object_from :
    (ops : List Operation) (t : Store) (r : String)
    → stores (apply_all ops t) r ≡ true
    → (stores t r ≡ true) ⊎ ((x : Ooi) × Memᴰ (Operation.put_object x) ops × (r ≡ x.reference))
unfolding apply_all PutsUnder
object_from [] t r h = inl h
object_from (op ∷ ops) t r h = elim (object_from ops (apply op t) r h) [
  | inl k ↦ elim (object_after op t r k) [
    | inl j ↦ inl j
    | inr (x, e, i) ↦ inr (x, Memᴰ.head (sym e), i)
  ]
  | inr (x, m, i) ↦ inr (x, Memᴰ.tail m, i)
]

module _ (env : Environment) (s : Store) (ρ : OriginId → List String) (w : Session)
    (law : IsLawful env s ρ w) where
  -- An object that was supported before is so after, or an event tells that it is not.
  supported_after :
      (r : String)
      → any_of (supports r) s.origins ≡ true
      → (any_of (supports r) (apply_all w.operations s).origins
          || any_of (mentions r) w.post_commit)
        ≡ true
  supported_after r h =
      let (p, m, k) = any_of_exists (supports r) s.origins h in
      carries env s ρ w w.operations law.lawful s r p m m k

  put_after :
      (x : Ooi)
      → Memᴰ (Operation.put_object x) w.operations
      → (stores s x.reference ≡ true)
        ⊎ ((any_of (supports x.reference) (apply_all w.operations s).origins
              || any_of (mentions x.reference) w.post_commit)
            ≡ true)
  put_after x m =
      let (later, h) = lawful_at env s ρ w (Operation.put_object x) w.operations law.lawful m in
      elim (Bool-cases (stores s x.reference)) [
        | inl k ↦ inl k
        | inr k ↦ elim (Bool-cases (any_of (supports x.reference) s.origins)) [
          | inl j ↦ inr (supported_after x.reference j)
          | inr j ↦
              let (op, n, q) =
                any_of_exists (promises x.reference) w.operations (ground (arith, h, j, k)) in
              let (o, e, i) = promised x.reference op q in
              inr (
                or_left _ _ (
                  keeps env s ρ w w.operations law.lawful s x.reference
                    (inr (o, subst (λ z. Memᴰ z w.operations) e n, i))))
        ]
      ]

  -- `told` is what the event that is handled mentions, and `rest` are the events that are still to be
  -- handled.
  module _ (told : String → Bool) (rest : List Event)
      (c : (r : String)
        → stores s r ≡ true
        → (any_of (supports r) s.origins || (told r || any_of (mentions r) rest)) ≡ true)
      (handled : (r : String)
        → told r ≡ true
        → stores (apply_all w.operations s) r ≡ true
        → any_of (supports r) s.origins ≡ true) where
    IsHeld : String → Type 0
    IsHeld r =
        (any_of (supports r) (apply_all w.operations s).origins
          || (any_of (mentions r) rest || any_of (mentions r) w.post_commit))
        ≡ true

    weaken :
        (r : String)
        → (any_of (supports r) (apply_all w.operations s).origins
            || any_of (mentions r) w.post_commit)
          ≡ true
        → IsHeld r
    unfolding IsHeld
    weaken r h = ground (arith, h)

    stored_after :
        (r : String) → stores (apply_all w.operations s) r ≡ true → stores s r ≡ true → IsHeld r
    unfolding IsHeld
    stored_after r h k = elim (Bool-cases (any_of (supports r) s.origins)) [
      | inl j ↦ weaken r (supported_after r j)
      | inr j ↦ elim (Bool-cases (told r)) [
        | inl i ↦ weaken r (supported_after r (handled r i h))
        | inr i ↦ ground (arith, c r k, j, i)
      ]
    ]

    held : (r : String) → stores (apply_all w.operations s) r ≡ true → IsHeld r
    held r h = elim (object_from w.operations s r h) [
      | inl k ↦ stored_after r h k
      | inr (x, m, i) ↦ subst IsHeld (sym i) (elim (put_after x m) [
        | inl k ↦
            stored_after x.reference (subst (λ z. stores (apply_all w.operations s) z ≡ true) i h) k
        | inr k ↦ weaken x.reference k
      ])
    ]

    pub apply_all-IsCollected : IsCollected (apply_all w.operations s) (rest ++ w.post_commit)
    unfolding IsHeld
    apply_all-IsCollected = record {
      collected = λ r h. rw (any_of-append (mentions r) rest w.post_commit) (held r h);
    }

    commit_nil : w.operations ≡ [] → IsCollected (commit w s).0 (rest ++ (commit w s).1)
    unfolding apply_all commit
    commit_nil n =
        rw (commit, n)
          record {
            collected = λ r h. elim (Bool-cases (told r)) [
              | inl i ↦ or_left _ _ (handled r i (rw (n, apply_all) h))
              | inr i ↦ rw (any_of-append (mentions r) rest []) (ground (arith, c r h, i))
            ];
          }

    commit_cons :
        (op : Operation) (ops : List Operation)
        → w.operations ≡ op ∷ ops
        → IsCollected (commit w s).0 (rest ++ (commit w s).1)
    unfolding commit apply_all
    commit_cons op ops n =
        rw (commit, n)
          (subst (λ z. IsCollected (apply_all z s) (rest ++ w.post_commit)) n apply_all-IsCollected)

    commit_by :
        (ops : List Operation)
        → w.operations ≡ ops
        → IsCollected (commit w s).0 (rest ++ (commit w s).1)
    commit_by [] n = commit_nil n
    commit_by (op ∷ ops) n = commit_cons op ops n

    pub commit-IsCollected : IsCollected (commit w s).0 (rest ++ (commit w s).1)
    commit-IsCollected = commit_by w.operations refl
