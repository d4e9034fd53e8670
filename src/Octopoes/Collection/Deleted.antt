-- ===== src/Octopoes/Collection/Deleted.antt =====
-- _delete_ooi of octopoes/octopoes/core/service.py, and what the handlers of updated and deleted
-- origins leave stored of the objects that the event mentions.
use nl_kat_coordination.Prelude.{
  String, List, [], ◌∷◌, ◌++◌, keep, any_of, any_of-keep, Bool, ◌||◌, ◌&&◌, not, ◌≡◌, refl, ap, sym,
  subst, arith, ◌∙◌, is_some, str_eq, str_eq_iff, inl, inr, Bool-cases, Option-cases,
}
use nl_kat_coordination.Octopoes.Origins.{Ooi, Origin, member, minus}
use nl_kat_coordination.Octopoes.Session.{Store, Operation, apply, apply_all, each_session}
use nl_kat_coordination.Octopoes.Repositories.{get_object, delete_if_exists, remove_ooi}
use nl_kat_coordination.Octopoes.Service.{counts, delete_ooi}
use nl_kat_coordination.Octopoes.Handlers.{on_update_origin, on_delete_origin}
use nl_kat_coordination.Octopoes.Collection.{stores, supports}

pub apply_all-append :
    (ops more : List Operation) (t : Store)
    → apply_all (ops ++ more) t ≡ apply_all more (apply_all ops t)
unfolding apply_all
apply_all-append [] more t = refl
apply_all-append (op ∷ ops) more t = apply_all-append ops more (apply op t)

stores-drop :
    (r x : String) (os : List Ooi)
    → is_some (get_object r (keep (λ (p : Ooi). not (str_eq x p.reference)) os))
      ≡ (not (str_eq x r) && is_some (get_object r os))
unfolding get_object
stores-drop r x [] = ground arith
stores-drop r x (o ∷ os) =
    ground (
      arith,
      stores-drop r x os,
      str_eq_iff x o.reference,
      str_eq_iff r o.reference,
      str_eq_iff x r,
    )

-- One object is deleted, if it is stored and no origin supports it.
stores-delete_ooi :
    (s t : Store) (x r : String)
    → stores (apply_all (delete_ooi s x).operations t) r
      ≡ (stores t r && not (str_eq x r && (stores s x && not (any_of (supports x) s.origins))))
unfolding delete_ooi delete_if_exists remove_ooi apply_all apply
stores-delete_ooi s t x r = elim (Bool-cases (any_of (supports x) s.origins)) [
  | inl k ↦
      rw (delete_ooi, any_of-keep (counts x) (λ (o : Origin). member x o.result) s.origins, k)
        (ground arith)
  | inr k ↦ elim (Option-cases (get_object x s.objects)) [
    | inl n ↦
        rw (delete_ooi, any_of-keep (counts x) (λ (o : Origin). member x o.result) s.origins, k, n)
          (rw (delete_if_exists, n) (ground arith))
    | inr (ooi, n) ↦
        rw (delete_ooi, any_of-keep (counts x) (λ (o : Origin). member x o.result) s.origins, k, n)
          (rw (delete_if_exists, n) (ground (arith, stores-drop r x t.objects)))
  ]
]

deletes_step :
    (s t : Store) (x r : String) (m : Bool)
    → (stores (apply_all (delete_ooi s x).operations t) r
        && not (m && (stores s r && not (any_of (supports r) s.origins))))
      ≡ (stores t r
          && not ((str_eq r x || m) && (stores s r && not (any_of (supports r) s.origins))))
deletes_step s t x r m = elim (Bool-cases (str_eq r x)) [
  | inl e ↦
      let same : r ≡ x = (str_eq_iff r x).0 e in
      let h =
        subst
          (λ z. stores (apply_all (delete_ooi s z).operations t) r ≡ (
            stores t r && not (str_eq z r && (stores s z && not (any_of (supports z) s.origins)))))
          (sym same) (stores-delete_ooi s t x r) in
      let h' =
        subst
          (λ z. stores (apply_all (delete_ooi s z).operations t) r ≡ (
            stores t r && not (str_eq r r && (stores s r && not (any_of (supports r) s.origins)))))
          same h in
      rw (h', e, (str_eq_iff r r).1 refl) (ground arith)
  | inr e ↦ rw (stores-delete_ooi s t x r, e) (ground (arith, e, str_eq_iff x r, str_eq_iff r x))
]

stores-deletes :
    (s : Store) (r : String) (rs : List String) (t : Store)
    → stores (apply_all (each_session (delete_ooi s) rs).operations t) r
      ≡ (stores t r && not (member r rs && (stores s r && not (any_of (supports r) s.origins))))
unfolding each_session apply_all
stores-deletes s r [] t = ground arith
stores-deletes s r (x ∷ xs) t =
    let ops = (delete_ooi s x).operations in
    ap (λ z. stores z r) (apply_all-append ops (each_session (delete_ooi s) xs).operations t)
    ∙ stores-deletes s r xs (apply_all ops t)
    ∙ deletes_step s t x r (member r xs)

-- The event of a deleted origin deletes exactly those of its results that no stored origin supports,
-- and no other object.
pub on_delete_origin_iff :
    (s : Store) (old : Origin) (r : String)
    → stores (apply_all (on_delete_origin s old).operations s) r
      ≡ (stores s r && not (member r old.result && not (any_of (supports r) s.origins)))
unfolding on_delete_origin
on_delete_origin_iff s old r = stores-deletes s r old.result s ∙ ground arith

-- The same for the results that an update of an origin took away.
pub on_update_origin_iff :
    (s : Store) (old new : Origin) (r : String)
    → stores (apply_all (on_update_origin s old new).operations s) r ≡ (
        stores s r
        && not (member r (minus old.result new.result) && not (any_of (supports r) s.origins)))
unfolding on_update_origin
on_update_origin_iff s old new r = stores-deletes s r (minus old.result new.result) s ∙ ground arith
