-- ===== src/Octopoes/Origins/Merged.antt =====
-- merge_ooi of octopoes/octopoes/repositories/ooi_repository.py
use nl_kat_coordination.Prelude.{
  String, List, [], ◌∷◌, Option, none, some, true, false, ◌≡◌, refl, ap, sym, subst, arith, ◌∙◌,
  str_eq, str_eq_iff, option_str_eq, inl, inr, Bool-cases, if◌then◌else◌,
}
use nl_kat_coordination.Octopoes.Origins.{
  Ooi, field_of, clean, set_field, update_fields, is_changed, differs, merge_ooi,
}

abbrev pub Fields : Type 0
Fields = List (String × Option String)

-- The value that the last field of this name has, in a list of fields that is set over another
abbrev last_of : String → Fields → Option (Option String) → Option (Option String)
last_of k [] old = old
last_of k ((k', v) ∷ rest) old = last_of k rest (if str_eq k' k then some v else old)

field_of-set_field :
    (k k' : String) (v : Option String) (old : Fields)
    → field_of k (set_field k' v old) ≡ (if str_eq k' k then some v else field_of k old)
unfolding field_of set_field
field_of-set_field k k' v [] = ground arith
field_of-set_field k k' v ((n, w) ∷ rest) =
    ground (arith, field_of-set_field k k' v rest, str_eq_iff n k, str_eq_iff k' k, str_eq_iff n k')

field_of-update_fields :
    (k : String) (new old : Fields)
    → field_of k (update_fields new old) ≡ last_of k new (field_of k old)
unfolding update_fields
field_of-update_fields k [] old = refl
field_of-update_fields k ((k', v) ∷ new) old =
    field_of-update_fields k new (set_field k' v old)
    ∙ ap (last_of k new) (field_of-set_field k k' v old)

same_value : (v w : Option String) → option_str_eq v w ≡ true → v ≡ w
same_value none none h = refl
same_value none (some b) h = absurd (ground (arith, h))
same_value (some a) none h = absurd (ground (arith, h))
same_value (some a) (some b) h = ap some ((str_eq_iff a b).0 h)

last_of_unchanged :
    (k : String) (v : Option String) (new old : Fields)
    → is_changed new old ≡ false
    → field_of k old ≡ some v
    → last_of k new (some v) ≡ some v
unfolding is_changed
last_of_unchanged k v [] old h e = refl
last_of_unchanged k v ((k', w) ∷ new) old h e =
    let rest = last_of_unchanged k v new old (ground (arith, h)) e in
    elim (Bool-cases (str_eq k' k)) [
      | inr n ↦ rw n rest
      | inl n ↦
          let at_k : field_of k' old ≡ some v =
            subst (λ z. field_of z old ≡ some v) (sym ((str_eq_iff k' k).0 n)) e in
          let same : option_str_eq w v ≡ true = ground (arith, rw (differs, at_k) at h) in
          rw (n, same_value w v same) rest
    ]

-- Where merge_ooi says that nothing changed, every field of the stored object has its value in the
-- merged one.
pub merge_ooi-unchanged :
    (new old : Ooi) (k : String) (v : Option String)
    → (merge_ooi new old).1 ≡ false
    → field_of k old.fields ≡ some v
    → field_of k (merge_ooi new old).0.fields ≡ some v
unfolding merge_ooi
merge_ooi-unchanged new old k v h e =
    field_of-update_fields k (clean new.fields) old.fields
    ∙ rw e (last_of_unchanged k v (clean new.fields) old.fields h e)
