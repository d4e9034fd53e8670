-- ===== src/Mula/Paging/Counts.antt =====
-- What a page promises of its items and of its count.
use Prim.Native.Nat.{min}
use nl_kat_coordination.Prelude.{
  ℕ, zero, suc, ◌+◌, ◌*◌, ◌≤◌, List, [], ◌∷◌, Bool, true, false, ℤ, ◌≡◌, arith, length, take, drop,
  length-take-le, ◌⊎◌, inl, inr, Bool-cases, ◌==◌,
}
use nl_kat_coordination.Mula.Paging.{
  Page, newest_first, get_page, page_limit, page_bound, at_least_zero, max_limit,
}

length-take {ℓ} : {A : Type ℓ} (n : ℕ) (xs : List A) → length (take n xs) ≡ min n (length xs)
length-take zero xs = omega arith
length-take (suc n) [] = omega arith
length-take (suc n) (x ∷ xs) = omega (arith, length-take n xs)

module _ {ℓ} {A : Type ℓ} (created_at : A → ℕ) (rows : List A) (offset limit max_pages : ℤ)
    (partial : Bool) where
  abbrev page : Page A
  page = get_page created_at rows offset limit max_pages partial

  -- A page has at most MAX_LIMIT items and at most `limit` of them. Its count never passes the number
  -- of selected rows, it is that number unless it is marked as partial, and it is only marked so where
  -- a partial count was allowed and the rows go on behind the last page that is counted.
  pub get_page-count :
      (length page.items ≤ max_limit)
      × (length page.items ≤ at_least_zero limit)
      × (page.count ≤ length rows)
      × ((page.is_partial_count ≡ false) × (page.count ≡ length rows)
          ⊎ (page.is_partial_count ≡ true)
            × (partial ≡ true)
            × (page.count ≡ at_least_zero offset + page_bound max_pages * page_limit limit + 1))
  unfolding get_page
  get_page-count =
      let o = at_least_zero offset in
      let l = page_limit limit in
      let bound = o + page_bound max_pages * l + 1 in
      let shown = length-take-le l (drop o (newest_first created_at rows)) in
      let counted = length-take bound rows in
      elim (Bool-cases (l == 0)) [
        | inl e ↦ rw e (ground arith)
        | inr e ↦ elim (Bool-cases partial) [
          | inr n ↦ rw (e, n) (ground (arith, shown))
          | inl n ↦ elim (Bool-cases (length (take bound rows) == bound)) [
            | inl k ↦ rw (e, n, k) (ground (arith, shown, counted))
            | inr k ↦ rw (e, n, k) (ground (arith, shown, counted))
          ]
        ]
      ]
