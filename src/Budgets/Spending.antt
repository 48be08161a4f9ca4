-- ===== src/Budgets/Spending.antt =====
-- What reading a budget computes and stores.
use money_management_app.Prelude.{if◌then◌else◌}
use money_management_app.Prelude.{
  ℕ, ◌≡◌, refl, sym, ap, ◌∙◌, Bool, true, some, List, ◌==◌, inl, inr, arith, Bool-cases, filter,
  find, find-passes, replace, ok,
}
use money_management_app.Prelude.Int.{ℤ, eq_of_parts}
use money_management_app.Prelude.Sums.{sum_right}
use money_management_app.Orm.Client.{Client}
use money_management_app.Orm.SoftDelete.{Action}
use money_management_app.Orm.Query.{
  live, having, reach, find_first-find, update, update-written, aggregated-filter,
}
use money_management_app.Orm.Rows.{UniqueIds}
use money_management_app.Orm.Owned.{find-replace, find_same}
use money_management_app.Transactions.Schema.{Transaction, transactions}
use money_management_app.Transactions.Statistics.{amount_of}
use money_management_app.Budgets.Schema.{Budget, budgets}
use money_management_app.Budgets.Service.{
  is_owned, is_spending, amount_spent, same_amount, set_spent, persist_spent, compute_spent,
  serialize_found, find_one, view,
}

abbrev pub id_of : Budget → ℕ
id_of b = b.id

abbrev pub owner : Budget → ℕ
owner b = b.user_id

abbrev pub asked : (user_id id : ℕ) → Budget → Bool
asked user_id id = reach budgets Action.find_first (live budgets (is_owned user_id id))

abbrev pub by_id : ℕ → Budget → Bool
by_id id = reach budgets Action.update (having (λ r. r.id == id))

asked-owned :
    (user_id id : ℕ) (b : Budget) → asked user_id id b ≡ true → (b.id ≡ id) × (b.user_id ≡ user_id)
unfolding reach
asked-owned user_id id b h = ground arith

asked-by_id : (user_id id : ℕ) (b : Budget) → asked user_id id b ≡ true → by_id id b ≡ true
unfolding reach
asked-by_id user_id id b h = ground arith

by_id-asks : (id : ℕ) (b : Budget) → by_id id b ≡ true → b.id ≡ id
unfolding reach
by_id-asks id b h = ground arith

same_amount-eq : (a b : ℤ) → same_amount a b ≡ true → a ≡ b
same_amount-eq a b h = ground (arith, eq_of_parts a b)

-- What a read leaves of a budget: `updatedAt` moves only when the sum is new.
abbrev pub with_spent : (spent : ℤ) (now : ℕ) → Budget → Budget
with_spent spent now b = record b {
  amount_spent = spent;
  updated_at = if same_amount b.amount_spent spent then b.updated_at else now;
}

spent_already :
    (spent : ℤ) (b : Budget) → b.amount_spent ≡ spent → record b { amount_spent = spent } ≡ b
spent_already spent b e = ap (λ x. record b { amount_spent = x }) (sym e)

-- The independent sum: the debits of the user that are not deleted, in the period and the category.
abbrev pub spent_on : (user_id : ℕ) → Budget → List Transaction → ℤ
spent_on user_id b ts =
    sum_right amount_of
      (filter (reach transactions Action.aggregate (live transactions (is_spending user_id b))) ts)

module _ (orm : Client) (user_id id : ℕ) (ts : List Transaction) (rows : List Budget) where
  amount_spent-sum : (b : Budget) → amount_spent orm user_id b ts ≡ spent_on user_id b ts
  unfolding amount_spent
  amount_spent-sum b =
      ap (sum_right amount_of)
        (aggregated-filter orm transactions (live transactions (is_spending user_id b)) ts)

  module _ {b : Budget} (u : UniqueIds id_of rows) (e : find (asked user_id id) rows ≡ some b) where
    same_id : b.id ≡ id
    same_id = (asked-owned user_id id b (find-passes (asked user_id id) rows e)).0

    again : find (by_id id) rows ≡ some b
    again =
        find_same id_of (asked user_id id) (by_id id) id rows
          (λ s h. (asked-owned user_id id s h).0) (by_id-asks id) u
          (asked-by_id user_id id b (find-passes (asked user_id id) rows e)) e

    rewritten :
        (spent : ℤ) (now : ℕ)
        → update orm budgets (having (λ r. r.id == b.id)) (set_spent spent now) rows
          ≡ (ok (set_spent spent now b), replace (by_id id) (set_spent spent now) rows)
    rewritten spent now =
        ap (λ i. update orm budgets (having (λ r. r.id == i)) (set_spent spent now) rows) same_id
        ∙ rw (
          update-written orm budgets (having (λ r. r.id == id)) (set_spent spent now) rows,
          again,
        )

    found_again :
        (spent : ℤ) (now : ℕ)
        → find (asked user_id id) (replace (by_id id) (set_spent spent now) rows)
          ≡ some (set_spent spent now b)
    unfolding set_spent reach
    found_again spent now =
        find-replace (asked user_id id) (by_id id) (set_spent spent now) rows (λ s. refl)
          (asked-by_id user_id id b (find-passes (asked user_id id) rows e)) e

    -- The row of the id holds the sum, whether it was written or not, and all else of it is kept.
    stored :
        (spent : ℤ) (now : ℕ)
        → (c : Budget) × ((persist_spent orm spent now b rows).0 ≡ ok c)
          × (find (asked user_id id) (persist_spent orm spent now b rows).1
              ≡ some (with_spent spent now b))
    unfolding persist_spent set_spent
    stored spent now = elim (Bool-cases (same_amount b.amount_spent spent)) [
      | inl same ↦ rw same (
        b,
        refl,
        e ∙ ap some (sym (spent_already spent b (same_amount-eq b.amount_spent spent same))),
      )
      | inr new ↦ rw (new, rewritten spent now) (set_spent spent now b, refl, found_again spent now)
    ]

-- What `compute_spent` answers, by the outcome of the write.
computed :
    (orm : Client) (user_id now : ℕ) (ts : List Transaction) (b : Budget) (rows : List Budget)
    {c : Budget}
    → (persist_spent orm (amount_spent orm user_id b ts) now b rows).0 ≡ ok c
    → compute_spent orm user_id now ts b rows ≡ (
      ok (view (amount_spent orm user_id b ts) now b),
      (persist_spent orm (amount_spent orm user_id b ts) now b rows).1,
    )
unfolding compute_spent
computed orm user_id now ts b rows done = rw (compute_spent, done) refl

-- Reading a budget that is not deleted succeeds, if ids are unique. The amount spent is the sum of the
-- user's debits of the period and the category that are not deleted; the same sum is stored, and
-- nothing else of the budget changes but `updatedAt`, which becomes the present when the sum is a new one.
pub find_one-spent :
    (orm : Client) (user_id id now : ℕ) (ts : List Transaction) (rows : List Budget) {b : Budget}
    → UniqueIds id_of rows
    → find (asked user_id id) rows ≡ some b
    → let after = find_one orm user_id id now ts rows in
      (after.0 ≡ ok (view (spent_on user_id b ts) now b))
      × (find (asked user_id id) after.1 ≡ some (with_spent (spent_on user_id b ts) now b))
unfolding find_one serialize_found
find_one-spent orm user_id id now ts rows {b} u e =
    let sum = amount_spent-sum orm user_id id ts rows b in
    let (c, done, kept) = stored orm user_id id ts rows u e (amount_spent orm user_id b ts) now in
    rw
      (
        find_first-find orm budgets (live budgets (is_owned user_id id)) rows,
        e,
        computed orm user_id now ts b rows done,
      )
      (ap (λ x. ok (view x now b)) sum, kept ∙ ap (λ x. some (with_spent x now b)) sum)
