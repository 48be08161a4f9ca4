-- ===== src/Tests/Sequences.antt =====
-- Several calls in a row, and the abstract store, at concrete inputs.
use money_management_app.Prelude.{
  ◌≡◌, refl, true, none, some, [], ◌∷◌, find, arith, err, ok, internal, if◌then◌else◌, unauthorized,
}
use money_management_app.Prelude.Int.{pos}
use money_management_app.Orm.Query.{reach, update, find_first}
use money_management_app.Orm.Owned.{or_not_found}
use money_management_app.Goals.Schema.{Goal}
use money_management_app.Goals.Contributions
use money_management_app.Goals.Completion.{contribute_all, contribute_all-completes}
use money_management_app.Transactions.Schema.{credit, CreateTransactionDto}
use money_management_app.Transactions.Service.{
  is_accepted, has_references, new_transaction, apply_update, mark_deleted, find_one, create,
  update_transaction, delete,
}
use money_management_app.Transactions.Views.{view, change, map_found}
use money_management_app.Transactions.Refinement.{update_answer, only_if, service_refines}
use money_management_app.Users.Tokens.{validate}
use money_management_app.Users.Auth.{logout_everywhere, login, revoke_written}
use money_management_app.Users.Sequences.{Step, Reach}
use money_management_app.Users.SignedOut.{logout_everywhere-lasts}
use money_management_app.Tests.Exact.{exact}
use money_management_app.Tests.Data.{list_client, ledger, new_category, refs}
use money_management_app.Tests.Money.{trip}
use money_management_app.Tests.People.{asha, plain, claims, stores}

contribute_all-completes_example :
    (g' : Goal) × (find
        (Contributions.asked 7 5)
        (contribute_all list_client exact 7 5 20 (15000 ∷ 31000 ∷ []) (trip ∷ []))
      ≡ some g')
    × (g'.is_completed ≡ true)
    × (g'.current_amount ≡ 100000)
unfolding reach
contribute_all-completes_example =
    contribute_all-completes list_client exact 7 5 20 (15000 ∷ 31000 ∷ []) (trip ∷ []) {g = trip}
      (tt, tt) refl refl (omega arith) (omega arith) (omega arith)

-- Sign out everywhere, then sign in again.
logout_everywhere-lasts_example :
    validate list_client claims
      (login list_client plain "asha@example.com" "x" 50 20
        (logout_everywhere list_client plain 7 stores).1).1.users
    ≡ err unauthorized
unfolding logout_everywhere find_first reach revoke_written update
logout_everywhere-lasts_example =
    logout_everywhere-lasts list_client plain 7 stores
      (login list_client plain "asha@example.com" "x" 50 20
        (logout_everywhere list_client plain 7 stores).1).1
      claims {u = asha} (tt, tt) refl refl (omega arith) refl
      (Reach.later Reach.start (Step.signs_in "asha@example.com" "x" 50 20))

abbrev salary : CreateTransactionDto
salary = record {
  amount = pos 8500000;
  type = credit;
  account_id = none;
  category_id = none;
  category = none;
  merchant_name = none;
  merchant = none;
  description = none;
  transaction_date = none;
  date = none;
  source = none;
  raw_sms = none;
  subscription_id = none;
}

service_refines_example :
    let seen = view ledger 7 1 in
    let (r, updated) = update_transaction list_client refs 7 1 new_category 20 ledger in
    let (d, left) = delete list_client 7 1 20 ledger in
    let t = new_transaction 7 salary 9 20 in
    let (c, added, queue') = create list_client refs (λ e. true) 7 salary 9 20 (ledger, []) in
    (find_one list_client 7 1 ledger ≡ or_not_found seen)
    × (r ≡ update_answer refs new_category 20 seen)
    × (view updated 8 2
        ≡ change 7 1
            (only_if (is_accepted refs new_category) (map_found (apply_update new_category 20)))
            (view ledger)
            8
            2)
    × (d ≡ or_not_found (map_found (mark_deleted 20) seen))
    × (view left 8 2 ≡ change 7 1 (λ o. none) (view ledger) 8 2)
    × (c ≡ (if has_references refs t then ok t else err internal))
    × (view added 8 2
        ≡ change 7 9 (only_if (has_references refs t) (λ o. some t)) (view ledger) 8 2)
service_refines_example =
    service_refines list_client refs (λ e. true) 7 1 20 ledger new_category 9 salary [] 8 2
      (ground arith) (ground arith)
