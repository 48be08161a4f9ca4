-- ===== src/Transactions/Pages.antt =====
-- The pages of `findAll`.
use money_management_app.Prelude.{
  Bool-cases, inl, inr, false, min, Perm, ltb, length-take, length-drop, ◌<◌, ℕ, suc, ◌+◌, ◌-◌, ◌*◌,
  ◌/◌, ◌≤◌, ◌≡◌, sym, ap, ◌∙◌, ◌&&◌, List, take, drop, length, filter, is_none, arith,
}
use money_management_app.Prelude.Int.{pos, pos_part, max_ℤ}
use native.Mathlib.Nat.{le-div_iff_mul-le}
use money_management_app.Prelude.Sums.{length-perm}
use money_management_app.Orm.Client.{Client}
use money_management_app.Orm.Query.{live, find_all-filter, count-length, reach}
use money_management_app.Transactions.Schema.{
  Transaction, transactions, QueryNumber, TransactionsFilterDto,
}
use money_management_app.Transactions.Listing.{
  page_limit, page_number, matches_filters, newest_first, find_all_transactions, number_or,
}

-- The limit lies in [1, 100] whatever the request holds, and the page is at least 1.
pub page_bounds :
    (filters : TransactionsFilterDto)
    → (1 ≤ page_limit filters)
      × (page_limit filters ≤ 100)
      × (1 ≤ page_number filters (page_limit filters))
unfolding page_limit page_number
page_bounds filters = ground arith

-- `n + 1` is below `Math.ceil(t / l)` exactly if more than `n + 1` pages of `l` rows are needed.
next_page : (t l n : ℕ) → 1 ≤ l → ltb (n + 1) ((t + l - 1) / l) ≡ ltb ((n + 1) * l) t
next_page t l n h =
    let (up, down) = le-div_iff_mul-le {k = l} {x = n + 2} {y = t + l - 1} h in
    elim (Bool-cases (ltb (n + 1) ((t + l - 1) / l))) [
      | inl more ↦ let all : (n + 2) * l ≤ t + l - 1 = up (ground arith) in rw more (ground arith)
      | inr last_ ↦
          let less : ((n + 2) * l ≤ t + l - 1) → n + 2 ≤ (t + l - 1) / l = down in
          rw last_ (fits less (ground arith))
    ]
  where
    fits :
        ((n + 2) * l ≤ t + l - 1 → n + 2 ≤ (t + l - 1) / l)
        → (t + l - 1) / l < n + 2
        → false ≡ ltb ((n + 1) * l) t
    fits less few = elim (Bool-cases (ltb ((n + 1) * l) t)) [
      | inl more ↦ absurd (omega (arith, less (ground arith)))
      | inr e ↦ sym e
    ]

page_before :
    (n : ℕ) → pos_part (max_ℤ (number_or (QueryNumber.num (pos (suc n))) (pos 1)) (pos 1)) - 1 ≡ n
page_before n = ground arith

page_number_of :
    (n : ℕ) → pos_part (max_ℤ (number_or (QueryNumber.num (pos (suc n))) (pos 1)) (pos 1)) ≡ n + 1
page_number_of n = ground arith

module _ (orm : Client) (user_id : ℕ) (filters : TransactionsFilterDto)
    (rows : List Transaction) where
  -- The request for page `k`.
  abbrev at_page : ℕ → TransactionsFilterDto
  at_page k = record filters { page = QueryNumber.num (pos k) }

  -- The rows that are not deleted and match the filters.
  abbrev pub matches : List Transaction
  matches = filter (λ t. matches_filters orm user_id filters t && is_none t.deleted_at) rows

  -- The matches in the order of the query, newest first.
  abbrev pub sorted_matches : List Transaction
  sorted_matches = orm.order_by newest_first matches

  one_page :
      (n : ℕ)
      → (find_all_transactions orm user_id (at_page (suc n)) rows).0
        ≡ take (page_limit filters) (drop (n * page_limit filters) sorted_matches)
  unfolding find_all_transactions page_limit reach
  one_page n =
      rw (orm.slice-take-drop, page_before n)
        (ap
          (λ rs.
            take (page_limit filters)
              (drop (n * page_limit filters) (orm.order_by newest_first rs)))
          (find_all-filter orm transactions
            (live transactions (matches_filters orm user_id filters)) rows))

  total_length :
      (k : ℕ) → (find_all_transactions orm user_id (at_page k) rows).1.total ≡ length matches
  unfolding find_all_transactions reach
  total_length k =
      count-length orm transactions (live transactions (matches_filters orm user_id filters)) rows

  -- Page `n + 1` of the list is the slice of its limit that the number of the page says, of some arrangement
  -- of the transactions of the user that match the filters and are not deleted; so it is full unless fewer
  -- are left. The total is the number of all of them, and there is a next page exactly if some are left
  -- after this page. The limit lies between 1 and 100, whatever the request holds.
  pub page-slice :
      (n : ℕ)
      → let (data_, meta) = find_all_transactions orm user_id (at_page (suc n)) rows in
        let limit = page_limit filters in
        (arranged : List Transaction) × Perm arranged matches
        × (data_ ≡ take limit (drop (n * limit) arranged))
        × (length data_ ≡ min limit (length matches - n * limit))
        × (meta.total ≡ length matches)
        × (meta.has_next_page ≡ ltb ((n + 1) * limit) (length matches))
        × (1 ≤ limit)
        × (limit ≤ 100)
  unfolding find_all_transactions page_limit
  page-slice n =
      let limit = page_limit filters in
      let perm = orm.order_by-perm newest_first matches in
      let total = (find_all_transactions orm user_id (at_page (suc n)) rows).1.total in
      let (low, high, positive) = page_bounds filters in
      (
        sorted_matches,
        perm,
        one_page n,
        ap length (one_page n)
            ∙ length-take limit (drop (n * limit) sorted_matches)
            ∙ ap (min limit) (
                length-drop (n * limit) sorted_matches
                ∙ ap (λ k. k - n * limit) (length-perm perm)),
        total_length (suc n),
        ap (λ k. ltb k ((total + limit - 1) / limit)) (page_number_of n)
            ∙ ap (λ t. ltb (n + 1) ((t + limit - 1) / limit)) (total_length (suc n))
            ∙ next_page (length matches) limit n low,
        low,
        high,
      )
