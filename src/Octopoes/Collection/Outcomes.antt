-- ===== src/Octopoes/Collection/Outcomes.antt =====
-- The outcomes of octopoes/octopoes/core/service.py that commit a lawful session, and the objects it saves.
use nl_kat_coordination.Prelude.{
  String, List, [], ◌∷◌, any_of, true, ◌||◌, ◌≡◌, refl, Memᴰ, inl, inr, Bool-cases, Option-cases,
}
use nl_kat_coordination.Octopoes.Origins.{Ooi, OriginId, merge_ooi}
use nl_kat_coordination.Octopoes.Session.{
  Store, Session, each_session, Outcome, written, failed, both, each,
}
use nl_kat_coordination.Octopoes.Repositories.{get_object, save_ooi}
use nl_kat_coordination.Octopoes.Bits.{Environment}
use nl_kat_coordination.Octopoes.Collection.{stores, supports, promises, AreLawful, IsLawful}
use nl_kat_coordination.Octopoes.Collection.Lawful.{extend_all, then-IsLawful, unchanged-IsLawful}

module _ (env : Environment) (s : Store) (ρ : OriginId → List String) where
  -- What an outcome holds is lawful.
  abbrev pub IsLawfulOutcome : Outcome → Type 0
  IsLawfulOutcome (written w) = IsLawful env s ρ w
  IsLawfulOutcome (failed f w) = IsLawful env s ρ w

  pub both-IsLawful :
      (a b : Outcome) → IsLawfulOutcome a → IsLawfulOutcome b → IsLawfulOutcome (both a b)
  unfolding both
  both-IsLawful (failed f v) b l k = l
  both-IsLawful (written v) (failed f w) l k = then-IsLawful env s ρ v w l k
  both-IsLawful (written v) (written w) l k = then-IsLawful env s ρ v w l k

  pub each-IsLawful {ℓ} :
      {A : Type ℓ} (f : A → Outcome) (xs : List A)
      → ((x : A) → Memᴰ x xs → IsLawfulOutcome (f x))
      → IsLawfulOutcome (each f xs)
  unfolding each
  each-IsLawful f [] g = unchanged-IsLawful env s ρ
  each-IsLawful f (x ∷ xs) g =
      both-IsLawful (f x) (each f xs) (g x (Memᴰ.head refl))
        (each-IsLawful f xs (λ y m. g y (Memᴰ.tail m)))

  module _ (whole : Session) where
    abbrev pub IsExpected : String → Type 0
    IsExpected r =
        (stores s r || (any_of (supports r) s.origins || any_of (promises r) whole.operations))
        ≡ true

    pub save-AreLawful :
        (x : Ooi) → IsExpected x.reference → AreLawful env s ρ whole (save_ooi s x).operations
    unfolding save_ooi merge_ooi
    save-AreLawful x h = elim (Option-cases (get_object x.reference s.objects)) [
      | inl n ↦ rw n (h, tt)
      | inr (old, n) ↦ elim (Bool-cases (merge_ooi x old).1) [
        | inl k ↦ rw (n, k) (h, tt)
        | inr k ↦ rw (n, k) tt
      ]
    ]

    pub saves-AreLawful :
        (xs : List Ooi)
        → ((x : Ooi) → Memᴰ x xs → IsExpected x.reference)
        → AreLawful env s ρ whole (each_session (save_ooi s) xs).operations
    unfolding each_session
    saves-AreLawful [] f = tt
    saves-AreLawful (x ∷ xs) f =
        extend_all env s ρ whole whole (λ r h. h, λ r h. h) (save_ooi s x).operations
          (each_session (save_ooi s) xs).operations (save-AreLawful x (f x (Memᴰ.head refl)))
          (saves-AreLawful xs (λ y m. f y (Memᴰ.tail m)))
