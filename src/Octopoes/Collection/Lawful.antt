-- ===== src/Octopoes/Collection/Lawful.antt =====
-- Lawful sessions: how they combine, and those of the repositories.
use nl_kat_coordination.Prelude.{
  String, List, [], ◌∷◌, ◌++◌, any_of, none, some, true, false, ◌||◌, ◌≡◌, refl, ap, sym, subst,
  arith, ◌∙◌, Memᴰ, mem-append_left, any_of-append, option_str_eq, if◌then◌else◌, inl, inr,
  Bool-cases, or_left, or_right, Option-cases,
}
use nl_kat_coordination.Octopoes.Origins.{
  Origin, OriginId, id, member, same_id, same_origin, from_keys,
}
use nl_kat_coordination.Octopoes.Session.{
  Store, Event, Operation, Session, unchanged, ◌then◌, each_session,
}
use nl_kat_coordination.Octopoes.Repositories.{get_origin, store_origin, remove_origin, serialize}
use nl_kat_coordination.Octopoes.Bits.{Environment}
use nl_kat_coordination.Octopoes.Collection.{
  mentions, promises, Replaces, IsLawfulOperation, AreLawful, IsLawful, IsKeyed, runs_affirmed,
}
use nl_kat_coordination.Octopoes.Collection.Ids.{
  same_id_sound, same_id-not, member-from_keys, member-same_origin,
}

module _ (env : Environment) (s : Store) (ρ : OriginId → List String) where
  -- A session with all that another promises and tells
  abbrev pub Extends : Session → Session → Type 0
  Extends w v =
      ((r : String)
        → any_of (promises r) w.operations ≡ true
        → any_of (promises r) v.operations ≡ true)
      × ((r : String)
          → any_of (mentions r) w.post_commit ≡ true
          → any_of (mentions r) v.post_commit ≡ true)

  extend :
      (w v : Session)
      → Extends w v
      → (op : Operation) (later extra : List Operation)
      → ((k : OriginId) → Replaces k later → Replaces k extra)
      → IsLawfulOperation env s ρ w op later
      → IsLawfulOperation env s ρ v op extra
  extend w v x (Operation.put_object o) later extra f l =
      let g = x.0 o.reference in ground (arith, l, g)
  extend w v x (Operation.delete_object r) later extra f l = tt
  extend w v x (Operation.put_origin o) later extra f l =
      (l.0, l.1, λ p r m i h. let g = l.2 p r m i h in let t = x.1 r in ground (arith, g, t))
  extend w v x (Operation.delete_origin k) later extra f (inl (e, told)) =
      inl (e, λ p r m i h. x.1 r (told p r m i h))
  extend w v x (Operation.delete_origin k) later extra f (inr (o, m, i)) = inr (f k (o, m, i))
  extend w v x (Operation.put_parameter p) later extra f l = tt
  extend w v x (Operation.delete_parameter p) later extra f l = tt
  extend w v x (Operation.put_profile p) later extra f l = tt
  extend w v x (Operation.delete_profile r) later extra f l = tt

  pub extend_all :
      (w v : Session)
      → Extends w v
      → (ops extra : List Operation) → AreLawful env s ρ w ops
      → AreLawful env s ρ v extra
      → AreLawful env s ρ v (ops ++ extra)
  extend_all w v x [] extra l k = k
  extend_all w v x (op ∷ ops) extra l k = (
    extend w v x op ops (ops ++ extra) (λ k (o, m, i). (o, mem-append_left extra m, i)) l.0,
    extend_all w v x ops extra l.1 k,
  )

  pub extend_same :
      (w v : Session)
      → Extends w v
      → (ops : List Operation) → AreLawful env s ρ w ops
      → AreLawful env s ρ v ops
  extend_same w v x [] l = tt
  extend_same w v x (op ∷ ops) l =
      (extend w v x op ops ops (λ k m. m) l.0, extend_same w v x ops l.1)

  pub then-IsLawful :
      (v w : Session) → IsLawful env s ρ v → IsLawful env s ρ w → IsLawful env s ρ (v then w)
  then-IsLawful v w l k = record {
    lawful =
        extend_all v (v then w)
          (
            λ r h. rw (any_of-append (promises r) v.operations w.operations, h) refl,
            λ r h. rw (any_of-append (mentions r) v.post_commit w.post_commit, h) refl,
          )
          v.operations w.operations l.lawful
          (extend_same w (v then w)
            (
              λ r h. rw (any_of-append (promises r) v.operations w.operations) (or_right _ _ h),
              λ r h. rw (any_of-append (mentions r) v.post_commit w.post_commit) (or_right _ _ h),
            )
            w.operations k.lawful);
  }

  pub unchanged-IsLawful : IsLawful env s ρ unchanged
  unchanged-IsLawful = record { lawful = tt }

  pub each_session-IsLawful {ℓ} :
      {A : Type ℓ} (f : A → Session) (xs : List A)
      → ((x : A) → Memᴰ x xs → IsLawful env s ρ (f x))
      → IsLawful env s ρ (each_session f xs)
  unfolding each_session
  each_session-IsLawful f [] g = unchanged-IsLawful
  each_session-IsLawful f (x ∷ xs) g =
      then-IsLawful (f x) (each_session f xs) (g x (Memᴰ.head refl))
        (each_session-IsLawful f xs (λ y m. g y (Memᴰ.tail m)))

  pub get_origin_lem :
      (k : OriginId) (os : List Origin) (o : Origin)
      → get_origin k os ≡ some o
      → Memᴰ o os × (id o ≡ k)
  unfolding get_origin
  get_origin_lem k [] o e = absurd (ground arith)
  get_origin_lem k (p ∷ ps) o e = elim (Bool-cases (same_id k (id p))) [
    | inl h ↦
        let same : o ≡ p = ground (arith, rw h at e) in
        (Memᴰ.head same, ap id same ∙ sym (same_id_sound k (id p) h))
    | inr h ↦ let (m, i) = get_origin_lem k ps o (rw h at e) in (Memᴰ.tail m, i)
  ]

  pub get_origin-none :
      (k : OriginId) (os : List Origin) (p : Origin)
      → get_origin k os ≡ none
      → Memᴰ p os
      → id p ≡ k
      → ⊥
  unfolding get_origin
  get_origin-none k (q ∷ os) p e (Memᴰ.head f) i = elim (Bool-cases (same_id k (id q))) [
    | inl h ↦ ground (arith, rw h at e)
    | inr h ↦ same_id-not k (id q) h (sym i ∙ ap id f)
  ]
  get_origin-none k (q ∷ os) p e (Memᴰ.tail m) i = elim (Bool-cases (same_id k (id q))) [
    | inl h ↦ ground (arith, rw h at e)
    | inr h ↦ get_origin-none k os p (rw h at e) m i
  ]
  get_origin-none k [] p e m i = elim m [ ]

  module _ (keyed : IsKeyed s) where
    -- A stored origin that is deleted, where the session saves no results under its id
    pub remove_origin-IsLawful :
        (o : Origin) → Memᴰ o s.origins → ρ (id o) ≡ [] → IsLawful env s ρ (remove_origin o)
    unfolding remove_origin mentions
    remove_origin-IsLawful o m e = record {
      lawful = (
        inl (
          e,
          λ p r n i h. or_left _ _ (subst (λ z. member r z.result ≡ true) (keyed p o n m i) h),
        ),
        tt,
      );
    }

    told :
        (r : String) (old o : Origin)
        → member r old.result ≡ true
        → (member r (from_keys o.result) || (mentions r (Event.updated_origin old o) || false))
          ≡ true
    unfolding mentions
    told r old o h = rw (member-from_keys r o.result) (ground (arith, h))

    module _ (o : Origin) (e : from_keys o.result ≡ ρ (id o))
        (u : runs_affirmed env o ≡ false) where
      store_new : get_origin (id o) s.origins ≡ none → IsLawful env s ρ (store_origin s o)
      unfolding store_origin serialize
      store_new n = rw n record {
        lawful = ((e, u, λ p r m i h. absurd (get_origin-none (id o) s.origins p n m i)), tt);
      }

      -- The stored origin is the one that is read.
      store_old :
          (old : Origin)
          → get_origin (id o) s.origins ≡ some old
          → IsLawful env s ρ (store_origin s o)
      unfolding store_origin serialize mentions
      store_old old n =
          let (a, j) = get_origin_lem (id o) s.origins old n in
          let read : (p : Origin) → Memᴰ p s.origins → id p ≡ id o → p ≡ old =
            λ p m i. keyed p old m a (i ∙ sym j) in
          elim (Bool-cases (same_origin old o)) [
            | inl h ↦ elim (Bool-cases (option_str_eq o.task_id old.task_id)) [
              | inl k ↦ rw (n, h, k) unchanged-IsLawful
              | inr k ↦
                  rw (n, h, k)
                    record {
                      lawful = (
                        inr (serialize o, Memᴰ.head refl, sym j),
                        (
                          (
                            e,
                            u,
                            λ p r m i q. or_left _ _ (
                                member-from_keys r o.result
                                ∙ member-same_origin r old o h
                                    (subst (λ z. member r z.result ≡ true) (read p m i) q)),
                          ),
                          tt,
                        ),
                      );
                    }
            ]
            | inr h ↦
                rw (n, h)
                  record {
                    lawful = (
                      (
                        e,
                        u,
                        λ p r m i q.
                            told r old o (subst (λ z. member r z.result ≡ true) (read p m i) q),
                      ),
                      tt,
                    );
                  }
          ]

      pub store_origin-IsLawful : IsLawful env s ρ (store_origin s o)
      store_origin-IsLawful = elim (Option-cases (get_origin (id o) s.origins)) [
        | inl n ↦ store_new n
        | inr (old, n) ↦ store_old old n
      ]
