-- ===== src/Tests/Money.antt =====
-- Runs on accounts, goals, budgets and subscriptions.
use money_management_app.Prelude.{
  ◌||◌, not, ℕ, ◌+◌, ◌*◌, ◌≡◌, ◌≤◌, refl, min, leb, Bool, true, false, some, none, String, List, [],
  ◌∷◌, find, arith, ok, err, conflict, length,
}
use money_management_app.Prelude.Int.{pos}
use money_management_app.Calendar.{day_ms}
use money_management_app.Orm.Query.{reach, find_first, update, update_many}
use money_management_app.Orm.Rows.{UniqueIds, foreign}
use money_management_app.Accounts.Schema.{Account, bank, CreateAccountDto}
use money_management_app.Accounts.Service as AccountService
use money_management_app.Accounts.Primary as Primary
use money_management_app.Accounts.Reports.{get_net_worth}
use money_management_app.Accounts.Worth.{worth, counted, get_net_worth_lem}
use money_management_app.Prelude.Sums.{sum_right}
use money_management_app.Goals.Schema.{Goal}
use money_management_app.Goals.Service.{contribute}
use money_management_app.Goals.Contributions as Contributions
use money_management_app.Budgets.Schema.{Budget, BudgetPeriod}
use money_management_app.Budgets.Service as BudgetService
use money_management_app.Budgets.Spending as Spending
use money_management_app.Subscriptions.Schema.{Subscription, Frequency, Status}
use money_management_app.Subscriptions.Service as SubscriptionService
use money_management_app.Subscriptions.Ownership.{changes_isolated}
use money_management_app.Tests.Exact.{exact}
use money_management_app.Tests.Data.{list_client, ledger, late_noon}

abbrev account : (id user_id : ℕ) (name : String) (primary : Bool) → Account
account id user_id name primary = record {
  id = id;
  user_id = user_id;
  account_type = bank;
  account_name = name;
  masked_account_number = none;
  provider_name = none;
  ifsc_code = none;
  balance = pos 0;
  currency = "INR";
  color = none;
  icon = none;
  is_primary = primary;
  is_active = true;
  deleted_at = none;
  created_at = 0;
  updated_at = 0;
}

abbrev wallet : List Account
wallet =
    account 1 7 "Main Account" true
    ∷ account 2 7 "Savings" false
    ∷ account 3 8 "Main Account" true
    ∷ []

wallet-UniqueIds : UniqueIds (λ a. a.id) wallet
wallet-UniqueIds = ground arith

abbrev second_savings : CreateAccountDto
second_savings = record {
  account_type = bank;
  account_name = "Savings";
  provider_name = none;
  masked_account_number = none;
  ifsc_code = none;
  balance = none;
  currency = none;
  color = none;
  icon = none;
  is_primary = some true;
}

create-primaries_example :
    Primary.primaries 7 (AccountService.create list_client 7 second_savings 4 20 wallet).1 ≤ 1
create-primaries_example =
    Primary.create-primaries list_client 7 second_savings 4 20 wallet (omega arith)

create-conflict_demotes_example :
    ((AccountService.create list_client 7 second_savings 4 20 wallet).0 ≡ err conflict)
    × (Primary.primaries 7 (AccountService.create list_client 7 second_savings 4 20 wallet).1 ≡ 0)
unfolding AccountService.name_taken
create-conflict_demotes_example =
    Primary.create-conflict_demotes list_client 7 second_savings 4 20 wallet refl refl

set_primary-exactly_one_example :
    let a : Account = record (account 2 7 "Savings" true) { updated_at = 20 } in
    (a.id ≡ 2)
    × (a.is_primary ≡ true)
    × (Primary.primaries 7 (AccountService.set_primary list_client 7 2 20 wallet).1 ≡ 1)
unfolding AccountService.set_primary find_first reach update update_many
    AccountService.set_is_primary
set_primary-exactly_one_example =
    Primary.set_primary-exactly_one list_client 7 2 20 wallet wallet-UniqueIds refl

get_net_worth_lem_example :
    ((get_net_worth list_client 7 wallet).net_worth ≡ sum_right worth (counted 7 wallet))
    × ((get_net_worth list_client 7 wallet).account_count ≡ length (counted 7 wallet))
get_net_worth_lem_example = get_net_worth_lem list_client 7 wallet

abbrev pub trip : Goal
trip = record {
  id = 5;
  user_id = 7;
  name = "Trip";
  target_amount = 100000;
  current_amount = 60000;
  currency = "INR";
  target_date = none;
  category = none;
  icon = none;
  color = none;
  auto_allocate = false;
  allocation_percent = none;
  priority = 0;
  is_completed = false;
  completed_at = none;
  deleted_at = none;
  created_at = 0;
}

contribute_lem_example :
    let after = contribute list_client exact 7 5 50000 20 (trip ∷ []) in
    (g' : Goal) × (after.0 ≡ ok g')
    × (find (Contributions.asked 7 5) after.1 ≡ some g')
    × (g'.current_amount ≡ min (trip.current_amount + 50000) trip.target_amount)
    × (g'.target_amount ≡ trip.target_amount)
    × ((g'.is_completed || leb (trip.current_amount + 50000) trip.target_amount) ≡ true)
    × ((not g'.is_completed || leb trip.target_amount (trip.current_amount + 50000)) ≡ true)
    × (foreign Contributions.id_of Contributions.owner 7 after.1
        ≡ foreign Contributions.id_of Contributions.owner 7 (trip ∷ []))
unfolding reach
contribute_lem_example =
    Contributions.contribute_lem list_client exact 7 5 20 50000 (trip ∷ []) (tt, tt) refl refl
      (omega arith) (omega arith)

abbrev food : Budget
food = record {
  id = 6;
  user_id = 7;
  category_id = some "FOOD_DINING";
  name = "Food";
  amount_limit = 40000;
  amount_spent = pos 0;
  currency = "INR";
  period = BudgetPeriod.monthly;
  start_date = 365 * day_ms;
  end_date = some (396 * day_ms);
  alert_threshold = 8000;
  is_active = true;
  rollover = false;
  notes = none;
  deleted_at = none;
  updated_at = 0;
}

find_one-spent_example :
    let after = BudgetService.find_one list_client 7 6 late_noon ledger (food ∷ []) in
    (after.0 ≡ ok (BudgetService.view (Spending.spent_on 7 food ledger) late_noon food))
    × (find (Spending.asked 7 6) after.1
        ≡ some (Spending.with_spent (Spending.spent_on 7 food ledger) late_noon food))
unfolding reach
find_one-spent_example =
    Spending.find_one-spent list_client 7 6 late_noon ledger (food ∷ []) (tt, tt) refl

abbrev netflix : Subscription
netflix = record {
  id = 9;
  user_id = 7;
  name = "Netflix";
  merchant_name = "netflix";
  amount = pos 64900;
  frequency = Frequency.monthly;
  status = Status.active;
  category_id = none;
  next_billing_date = none;
  notes = none;
  deleted_at = none;
  created_at = 0;
}

abbrev shared : List Subscription
shared = netflix ∷ record netflix { id = 10; user_id = 8 } ∷ []

changes_isolated_example :
    let dto = SubscriptionService.only_status Status.expired in
    let others : List Subscription → List Subscription =
      λ rows. foreign (λ s. s.id) (λ s. s.user_id) 7 rows in
    (others (SubscriptionService.update_subscription list_client 7 9 dto shared).1 ≡ others shared)
    × (others (SubscriptionService.cancel_subscription list_client 7 9 shared).1 ≡ others shared)
    × (others (SubscriptionService.pause_subscription list_client 7 9 shared).1 ≡ others shared)
    × (others (SubscriptionService.resume_subscription list_client 7 9 shared).1 ≡ others shared)
    × (others (SubscriptionService.delete list_client 7 9 20 shared).1 ≡ others shared)
changes_isolated_example =
    changes_isolated list_client 7 9 20 shared (SubscriptionService.only_status Status.expired)
      (ground arith)
