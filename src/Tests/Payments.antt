-- ===== src/Tests/Payments.antt =====
-- Runs on transactions.
use money_management_app.Prelude.{
  ◌*◌, ◌-◌, ◌≤◌, Perm, take, drop, min, ltb, ◌≡◌, refl, true, some, List, [], ◌∷◌, filter, is_some,
  length, arith, err, not_found, ◌==◌,
}
use money_management_app.Prelude.Int.{pos}
use money_management_app.Calendar.{month_start}
use money_management_app.Orm.SoftDelete.{is_soft_delete_model}
use money_management_app.Orm.Query.{having, update_many, delete_many, find_first, reach, update}
use money_management_app.Orm.Rows.{UniqueIds, foreign}
use money_management_app.Orm.Tombstones.{KeepsDeleted, writes_keep_deleted}
use money_management_app.Transactions.Schema.{Transaction, transactions, QueryNumber}
use money_management_app.Transactions.Service.{find_one, update_transaction, delete}
use money_management_app.Transactions.Listing.{find_all_transactions, page_limit}
use money_management_app.Transactions.Statistics.{get_monthly_stats}
use money_management_app.Transactions.Ownership.{writes_isolated, delete_hides}
use money_management_app.Transactions.Pages.{matches, page-slice}
use money_management_app.Transactions.Totals.{last_day_omitted}
use money_management_app.Tests.Data.{
  list_client, payment, ledger, late_noon, new_category, refs, no_filters,
}

ledger-UniqueIds : UniqueIds (λ t. t.id) ledger
ledger-UniqueIds = ground arith

abbrev tombs : List Transaction
tombs = record (payment 1 7 45000 true 5) { deleted_at = some 3 } ∷ payment 2 7 9900 true 5 ∷ []

-- The first row has been deleted, and a bulk write for all rows of the user passes it by.
writes_keep_deleted_example :
    KeepsDeleted
      (λ t. t.deleted_at)
      tombs
      (update_many list_client transactions
        (having (λ t. t.user_id == 7))
        (λ t. record t { is_impulse = true })
        tombs)
    × (filter
          (λ t. is_some t.deleted_at)
          (delete_many list_client transactions (having (λ t. t.user_id == 7)) tombs)
        ≡ filter (λ t. is_some t.deleted_at) tombs)
unfolding is_soft_delete_model
writes_keep_deleted_example =
    writes_keep_deleted list_client transactions (having (λ t. t.user_id == 7))
      (λ t. record t { is_impulse = true }) tombs refl refl

writes_isolated_example :
    (foreign
        (λ t. t.id)
        (λ t. t.user_id)
        7
        (update_transaction list_client refs 7 1 new_category 20 ledger).1
      ≡ foreign (λ t. t.id) (λ t. t.user_id) 7 ledger)
    × (foreign (λ t. t.id) (λ t. t.user_id) 7 (delete list_client 7 1 20 ledger).1
        ≡ foreign (λ t. t.id) (λ t. t.user_id) 7 ledger)
writes_isolated_example =
    writes_isolated list_client refs 7 1 20 new_category ledger ledger-UniqueIds

delete_hides_example :
    let rows' = (delete list_client 7 1 20 ledger).1 in
    (find_one list_client 7 1 rows' ≡ err not_found)
    × (update_transaction list_client refs 7 1 new_category 21 rows' ≡ (err not_found, rows'))
    × (delete list_client 7 1 21 rows' ≡ (err not_found, rows'))
unfolding delete find_first reach update
delete_hides_example =
    delete_hides list_client refs 7 1 20 21 7 new_category ledger ledger-UniqueIds refl

page-slice_example :
    let filters = record no_filters { page = QueryNumber.num (pos 2) } in
    let (data_, meta) = find_all_transactions list_client 7 filters ledger in
    let limit = page_limit no_filters in
    let found = matches list_client 7 no_filters ledger in
    (arranged : List Transaction) × Perm arranged found
    × (data_ ≡ take limit (drop (1 * limit) arranged))
    × (length data_ ≡ min limit (length found - 1 * limit))
    × (meta.total ≡ length found)
    × (meta.has_next_page ≡ ltb (2 * limit) (length found))
    × (1 ≤ limit)
    × (limit ≤ 100)
page-slice_example = page-slice list_client 7 no_filters ledger 1

last_day_omitted_example :
    get_monthly_stats list_client 7 2 1 (payment 9 7 5000 true late_noon ∷ ledger)
    ≡ get_monthly_stats list_client 7 2 1 ledger
unfolding month_start
last_day_omitted_example =
    last_day_omitted list_client 7 2 1 (payment 9 7 5000 true late_noon) ledger (omega arith)
      (omega arith)
