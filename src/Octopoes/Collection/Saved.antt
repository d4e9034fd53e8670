-- ===== src/Octopoes/Collection/Saved.antt =====
-- save_origin of octopoes/octopoes/core/service.py writes a lawful session.
use nl_kat_coordination.Prelude.{
  String, List, [], ◌∷◌, map, any_of, Bool, true, false, ◌||◌, ◌&&◌, not, ◌≡◌, refl, ap, sym, subst,
  arith, ◌∙◌, Memᴰ, any_of-append, str_eq_iff, if◌then◌else◌, inl, inr, Bool-cases, if_cases,
  or_left, or_right, Option-cases, any_of_mem,
}
use nl_kat_coordination.Octopoes.Origins.{
  Ooi, Origin, OriginId, OriginType, id, member, same_origin, from_keys, same_origin_type,
}
use nl_kat_coordination.Octopoes.Session.{Store, Event, unchanged, ◌then◌, each_session}
use nl_kat_coordination.Octopoes.Repositories.{
  get_object, get_origin, store_origin, remove_origin, serialize, save_ooi, delete_if_exists,
  remove_ooi,
}
use nl_kat_coordination.Octopoes.Service.{
  counts, is_affirmable, is_affirmation, is_stale, with_result, delete_stale, save_results,
  save_origin,
}
use nl_kat_coordination.Octopoes.Bits.{Environment}
use nl_kat_coordination.Octopoes.Collection.{
  stores, supports, mentions, promises, IsLawful, IsKeyed, runs_affirmed,
}
use nl_kat_coordination.Octopoes.Collection.Ids.{
  member-from_keys, member-same_origin, member-same_origin_back,
}
use nl_kat_coordination.Octopoes.Collection.Commit.{supports-same, supports-member}
use nl_kat_coordination.Octopoes.Collection.Lawful.{
  extend_all, extend_same, then-IsLawful, unchanged-IsLawful, store_origin-IsLawful, get_origin_lem,
  get_origin-none,
}
use nl_kat_coordination.Octopoes.Collection.Outcomes.{IsLawfulOutcome, saves-AreLawful, IsExpected}

module _ (env : Environment) (s : Store) (ρ : OriginId → List String) where
  -- The origin that is saved is stored already, or put.
  stored_or_put :
      (r : String) (o : Origin)
      → supports r o ≡ true
      → (any_of (supports r) s.origins || any_of (promises r) (store_origin s o).operations) ≡ true
  unfolding store_origin serialize
  stored_or_put r o h =
      let put : supports r (serialize o) ≡ true =
        supports-same r (serialize o) o refl (member-from_keys r o.result) ∙ h in
      elim (Option-cases (get_origin (id o) s.origins)) [
        | inl n ↦ rw n (or_right _ _ (or_left _ _ put))
        | inr (old, n) ↦ elim (Bool-cases (same_origin old o)) [
          | inr k ↦ rw (n, k) (or_right _ _ (or_left _ _ put))
          | inl k ↦ or_left _ _ (
              let (m, i) = get_origin_lem env s ρ (id o) s.origins old n in
              any_of_mem (supports r) m (
                supports-same r old o i (
                  member-same_origin_back r old o k (supports-member r o h)
                  ∙ sym (supports-member r o h))
                ∙ h))
        ]
      ]

  -- Where an origin is saved without results, an event tells of those that it had.
  emptied :
      (o p : Origin) (r : String)
      → IsKeyed s
      → o.result ≡ []
      → Memᴰ p s.origins
      → id p ≡ id o
      → member r p.result ≡ true
      → any_of (mentions r) (store_origin s o).post_commit ≡ true
  unfolding store_origin mentions
  emptied o p r keyed e m i h = elim (Option-cases (get_origin (id o) s.origins)) [
    | inl n ↦ absurd (get_origin-none env s ρ (id o) s.origins p n m i)
    | inr (old, n) ↦
        let (a, j) = get_origin_lem env s ρ (id o) s.origins old n in
        let k = subst (λ (z : Origin). member r z.result ≡ true) (keyed p old m a (i ∙ sym j)) h in
        let gone : member r o.result ≡ false = rw e refl in
        elim (Bool-cases (same_origin old o)) [
          | inl q ↦ let z = member-same_origin r old o q k in absurd (ground (arith, z, gone))
          | inr q ↦
              rw (n, q)
                (or_left (mentions r (Event.updated_origin old o)) false (ground (arith, k, gone)))
        ]
  ]

  module _ (keyed : IsKeyed s) (o : Origin) (e : from_keys o.result ≡ ρ (id o))
      (u : runs_affirmed env o ≡ false) where
    kept : IsLawful env s ρ (store_origin s o)
    kept = store_origin-IsLawful env s ρ keyed o e u

    nil_of_stale : (q : Origin) → is_stale q ≡ true → q.result ≡ []
    nil_of_stale q h = nil q.result refl
      where
        nil : (rs : List String) → q.result ≡ rs → rs ≡ []
        nil [] k = refl
        nil (r ∷ rs) k = absurd (ground (arith, rw k at h))

    kept_part-IsLawful : IsLawful env s ρ (store_origin s o then delete_stale o)
    unfolding delete_stale remove_origin mentions from_keys
    kept_part-IsLawful = elim (Bool-cases (is_stale o)) [
      | inr k ↦
          rw k
            (then-IsLawful env s ρ (store_origin s o) unchanged kept (unchanged-IsLawful env s ρ))
      | inl k ↦ rw k record {
        lawful =
            extend_all env s ρ (store_origin s o) (store_origin s o then remove_origin o)
              (
                λ r h.
                    rw
                      (any_of-append (promises r) (store_origin s o).operations
                        (remove_origin o).operations)
                      (or_left _ _ h),
                λ r h.
                    rw
                      (any_of-append (mentions r) (store_origin s o).post_commit
                        (remove_origin o).post_commit)
                      (or_left _ _ h),
              )
              (store_origin s o).operations (remove_origin o).operations kept.lawful
              (
                inl (
                  sym e ∙ ap from_keys (nil_of_stale o k),
                  λ p r m i h.
                      rw
                        (any_of-append (mentions r) (store_origin s o).post_commit
                          (remove_origin o).post_commit)
                        (or_left _ _ (emptied o p r keyed (nil_of_stale o k) m i h)),
                ),
                tt,
              );
      }
    ]

    promised_by :
        (oois : List Ooi) (r : String)
        → any_of (promises r) (store_origin s o).operations ≡ true
        → any_of (promises r) (save_results s o oois).operations ≡ true
    unfolding save_results
    promised_by oois r h =
        rw
          (any_of-append (promises r) (each_session (save_ooi s) oois).operations
            (store_origin s o then delete_stale o).operations)
          (or_right (any_of (promises r) (each_session (save_ooi s) oois).operations)
            (any_of (promises r) (store_origin s o then delete_stale o).operations)
            (rw
              (any_of-append (promises r) (store_origin s o).operations (delete_stale o).operations)
              (or_left _ _ h)))

    expected :
        (oois : List Ooi)
        → ((r : String) → member r o.result ≡ true → (stores s r || counts r o) ≡ true)
        → (r : String) → member r o.result ≡ true
        → IsExpected env s ρ (save_results s o oois) r
    expected oois g r m = elim (Bool-cases (stores s r)) [
      | inl k ↦ or_left _ _ k
      | inr k ↦
          let h : supports r o ≡ true = ground (arith, g r m, k, m) in
          let p = promised_by oois r in or_right _ _ (weaken _ _ _ (stored_or_put r o h) p)
    ]
      where
        weaken : (a b c : Bool) → (a || b) ≡ true → (b ≡ true → c ≡ true) → (a || c) ≡ true
        weaken a b c h f = ground (arith, h, f)

    save_results-IsLawful :
        (oois : List Ooi)
        → ((x : Ooi) → Memᴰ x oois → member x.reference o.result ≡ true)
        → ((r : String) → member r o.result ≡ true → (stores s r || counts r o) ≡ true)
        → IsLawful env s ρ (save_results s o oois)
    unfolding save_results
    save_results-IsLawful oois f g = record {
      lawful =
          extend_all env s ρ (save_results s o oois) (save_results s o oois) (λ r h. h, λ r h. h)
            (each_session (save_ooi s) oois).operations
            (store_origin s o then delete_stale o).operations
            (saves-AreLawful env s ρ (save_results s o oois) oois
              (λ x m. expected oois g x.reference (f x m)))
            (extend_same env s ρ (store_origin s o then delete_stale o) (save_results s o oois)
              (
                λ r h.
                    rw
                      (any_of-append (promises r) (each_session (save_ooi s) oois).operations
                        (store_origin s o then delete_stale o).operations)
                      (or_right _ _ h),
                λ r h.
                    rw
                      (any_of-append (mentions r) (each_session (save_ooi s) oois).post_commit
                        (store_origin s o then delete_stale o).post_commit)
                      (or_right _ _ h),
              )
              (store_origin s o then delete_stale o).operations kept_part-IsLawful.lawful);
    }

  member_of_results :
      (oois : List Ooi) (x : Ooi)
      → Memᴰ x oois
      → member x.reference (map (λ (y : Ooi). y.reference) oois) ≡ true
  member_of_results (y ∷ ys) x (Memᴰ.head e) =
      or_left _ _ ((str_eq_iff x.reference y.reference).1 (ap (λ (z : Ooi). z.reference) e))
  member_of_results (y ∷ ys) x (Memᴰ.tail m) = or_right _ _ (member_of_results ys x m)
  member_of_results [] x m = elim m [ ]

  pub delete_if_exists-IsLawful : (r : String) → IsLawful env s ρ (delete_if_exists s r)
  unfolding delete_if_exists remove_ooi
  delete_if_exists-IsLawful r = elim (Option-cases (get_object r s.objects)) [
    | inl n ↦ rw (delete_if_exists, n) (unchanged-IsLawful env s ρ)
    | inr (ooi, n) ↦ rw (delete_if_exists, n) record { lawful = (tt, tt) }
  ]

  -- Each result of the origin is stored, or the origin counts for it.
  pub save_origin-IsLawful :
      IsKeyed s
      → (o : Origin) (oois : List Ooi) → from_keys (with_result o oois).result ≡ ρ (id o)
      → runs_affirmed env o ≡ false
      → ((r : String)
          → member r (with_result o oois).result ≡ true
          → (is_affirmation o ≡ true → stores s o.source ≡ true)
          → (stores s r || counts r o) ≡ true)
      → IsLawfulOutcome env s ρ (save_origin s o oois)
  unfolding save_origin counts
  save_origin-IsLawful keyed o oois e u g =
      let missing = not (stores s o.source) in
      let exempt = same_origin_type o.origin_type OriginType.declaration || is_affirmation o in
      if_cases (IsLawfulOutcome env s ρ)
        (missing && (not exempt && not (member o.source (with_result o oois).result))) _ _
        (λ k. unchanged-IsLawful env s ρ)
        (λ k.
          if_cases (IsLawfulOutcome env s ρ) (missing && is_affirmation o) _ _
            (λ k. unchanged-IsLawful env s ρ)
            (λ found.
              if_cases (IsLawfulOutcome env s ρ)
                (is_affirmation o && not (is_affirmable s o.source)) _ _
                (λ k. delete_if_exists-IsLawful o.source)
                (λ k.
                  save_results-IsLawful keyed (with_result o oois) e u oois (member_of_results oois)
                    (λ r m. g r m (λ a. ground (arith, found, a))))))
