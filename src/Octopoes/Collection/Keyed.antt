-- ===== src/Octopoes/Collection/Keyed.antt =====
-- A commit keeps one origin under each id, and no affirmation for which a bit runs.
use nl_kat_coordination.Prelude.{
  String, List, [], ◌∷◌, keep, Bool, true, false, not, ◌≡◌, refl, sym, ◌∙◌, subst, Memᴰ, mem-keep,
  inl, inr, arith,
}
use nl_kat_coordination.Octopoes.Origins.{Origin, OriginId, id, same_id}
use nl_kat_coordination.Octopoes.Session.{Store, Operation, Session, apply, apply_all, commit}
use nl_kat_coordination.Octopoes.Bits.{Environment}
use nl_kat_coordination.Octopoes.Collection.{
  IsLawfulOperation, AreLawful, IsLawful, IsKeyed, runs_affirmed,
}
use nl_kat_coordination.Octopoes.Collection.Ids.{same_id_refl}
use nl_kat_coordination.Octopoes.Collection.Commit.{origin_after}

kept-IsKeyed :
    (p : Origin → Bool) (t : Store)
    → IsKeyed t
    → (a b : Origin) → Memᴰ a (keep p t.origins)
    → Memᴰ b (keep p t.origins)
    → id a ≡ id b
    → a ≡ b
kept-IsKeyed p t k a b m n e = k a b (mem-keep p a t.origins m).0 (mem-keep p b t.origins n).0 e

-- What is kept beside an origin that is put has another id.
other :
    (o a : Origin) (os : List Origin)
    → Memᴰ a (keep (λ (p : Origin). not (same_id (id o) (id p))) os)
    → id o ≡ id a
    → ⊥
other o a os m e =
    let h = (mem-keep (λ (p : Origin). not (same_id (id o) (id p))) a os m).1 in
    let k : same_id (id o) (id a) ≡ true =
      subst (λ z. same_id (id o) z ≡ true) e (same_id_refl (id o)) in
    ground (arith, h, k)

apply-IsKeyed : (op : Operation) (t : Store) → IsKeyed t → IsKeyed (apply op t)
unfolding apply
apply-IsKeyed (Operation.put_object x) t k a b m n i = k a b m n i
apply-IsKeyed (Operation.delete_object x) t k a b m n i = k a b m n i
apply-IsKeyed (Operation.put_origin o) t k a b (Memᴰ.head e) (Memᴰ.head f) i = e ∙ sym f
apply-IsKeyed (Operation.put_origin o) t k a b (Memᴰ.head e) (Memᴰ.tail n) i =
    absurd (other o b t.origins n (rw (sym e) i))
apply-IsKeyed (Operation.put_origin o) t k a b (Memᴰ.tail m) (Memᴰ.head f) i =
    absurd (other o a t.origins m (rw (sym f) (sym i)))
apply-IsKeyed (Operation.put_origin o) t k a b (Memᴰ.tail m) (Memᴰ.tail n) i =
    kept-IsKeyed (λ (p : Origin). not (same_id (id o) (id p))) t k a b m n i
apply-IsKeyed (Operation.delete_origin l) t k a b m n i =
    kept-IsKeyed (λ (p : Origin). not (same_id l (id p))) t k a b m n i
apply-IsKeyed (Operation.put_parameter x) t k a b m n i = k a b m n i
apply-IsKeyed (Operation.delete_parameter x) t k a b m n i = k a b m n i
apply-IsKeyed (Operation.put_profile x) t k a b m n i = k a b m n i
apply-IsKeyed (Operation.delete_profile x) t k a b m n i = k a b m n i

apply_all-IsKeyed : (ops : List Operation) (t : Store) → IsKeyed t → IsKeyed (apply_all ops t)
unfolding apply_all
apply_all-IsKeyed [] t k = k
apply_all-IsKeyed (op ∷ ops) t k = apply_all-IsKeyed ops (apply op t) (apply-IsKeyed op t k)

pub commit-apply_all : (w : Session) (s : Store) → (commit w s).0 ≡ apply_all w.operations s
unfolding commit apply_all
commit-apply_all w s = by_operations w.operations refl
  where
    by_operations :
        (ops : List Operation) → w.operations ≡ ops → (commit w s).0 ≡ apply_all w.operations s
    by_operations [] n = rw (commit, n, apply_all) refl
    by_operations (op ∷ ops) n = rw (commit, n) refl

pub commit-IsKeyed : (w : Session) (s : Store) → IsKeyed s → IsKeyed (commit w s).0
commit-IsKeyed w s k =
    subst IsKeyed (sym (commit-apply_all w s)) (apply_all-IsKeyed w.operations s k)

-- A bit does not run for any affirmation.
pub record IsUnaffirmed (env : Environment) (s : Store) : Type 0 where
  pub unaffirmed : (o : Origin) → Memᴰ o s.origins → runs_affirmed env o ≡ false

module _ (env : Environment) (s : Store) (ρ : OriginId → List String) (w : Session) where
  apply_all-IsUnaffirmed :
      (ops : List Operation)
      → AreLawful env s ρ w ops
      → (t : Store) → IsUnaffirmed env t
      → IsUnaffirmed env (apply_all ops t)
  unfolding apply_all
  apply_all-IsUnaffirmed [] f t u = u
  apply_all-IsUnaffirmed (op ∷ ops) f t u = apply_all-IsUnaffirmed ops f.1 (apply op t) record {
    unaffirmed = λ o m. elim (origin_after op t o m) [
      | inl n ↦ u.unaffirmed o n
      | inr e ↦ (subst (λ z. IsLawfulOperation env s ρ w z ops) e f.0).1
    ];
  }

  pub commit-IsUnaffirmed :
      IsLawful env s ρ w → IsUnaffirmed env s → IsUnaffirmed env (commit w s).0
  commit-IsUnaffirmed law u =
      subst (IsUnaffirmed env) (sym (commit-apply_all w s))
        (apply_all-IsUnaffirmed w.operations law.lawful s u)
