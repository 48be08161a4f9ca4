-- ===== src/Accounts/Reports.antt =====
-- findAll, sync and getNetWorth of backend/src/modules/account/account.service.ts.
use money_management_app.Prelude.{
  ℕ, Bool, true, false, ◌&&◌, ◌||◌, not, Option, none, some, List, [], ◌∷◌, length, filter, ◌==◌,
  ltb, leb, if◌then◌else◌, Result, ok, err, not_found,
}
use money_management_app.Prelude.Int.{ℤ, pos, ◌-ℤ◌, ltb_ℤ, nat_abs}
use money_management_app.Prelude.Sums.{sum_of, sum_right}
use money_management_app.Orm.Client.{Client}
use money_management_app.Orm.Query.{having, live, find_first, find_all, update, aggregated}
use money_management_app.Accounts.Schema.{Account, AccountType, accounts, same_account_type}
use money_management_app.Accounts.Service.{is_owned}
use money_management_app.Transactions.Schema.{Transaction, credit, debit, transactions}
use money_management_app.Transactions.Statistics.{amount_of}

-- The order of the enum in the database.
abbrev pub type_rank : AccountType → ℕ
type_rank AccountType.bank = 0
type_rank AccountType.wallet = 1
type_rank AccountType.credit_card = 2
type_rank AccountType.investment = 3
type_rank AccountType.loan = 4

-- `[{ isPrimary: 'desc' }, { accountType: 'asc' }, { createdAt: 'asc' }]`
abbrev pub primary_first : Account → Account → Bool
primary_first a b =
    if a.is_primary && not b.is_primary
    then true
    else if b.is_primary && not a.is_primary
    then false
    else ltb (type_rank a.account_type) (type_rank b.account_type)
      || ((type_rank a.account_type == type_rank b.account_type) && leb a.created_at b.created_at)

abbrev pub type_matches : Option AccountType → AccountType → Bool
type_matches none ty = true
type_matches (some want) ty = same_account_type ty want

abbrev pub balance_of : Account → ℤ
balance_of a = a.balance

-- `Math.abs(a.balance)`
abbrev pub abs_balance : Account → ℤ
abs_balance a = pos (nat_abs a.balance)

abbrev pub is_type : AccountType → Account → Bool
is_type ty a = same_account_type a.account_type ty

abbrev pub is_asset : Account → Bool
is_asset a = ltb_ℤ (pos 0) a.balance && not (is_type AccountType.loan a)

abbrev pub is_liability : Account → Bool
is_liability a = ltb_ℤ a.balance (pos 0) || is_type AccountType.loan a

pub record NetWorth : Type 0 where
  pub assets : ℤ
  pub liabilities : ℤ
  pub net_worth : ℤ
  pub bank : ℤ
  pub wallet : ℤ
  pub credit_card : ℤ
  pub investment : ℤ
  pub loan : ℤ
  pub account_count : ℕ

pub record SyncStats : Type 0 where
  pub account : Account
  pub credits : ℤ
  pub debits : ℤ
  pub net_flow : ℤ
  pub last_synced_at : ℕ

-- The loop over the rows of the `groupBy`.
unfoldable pub flows_from : ℤ × ℤ → List (List Transaction) → ℤ × ℤ
flows_from flows [] = flows
flows_from flows ([] ∷ groups) = flows_from flows groups
flows_from (credits, debits) ((t ∷ ts) ∷ groups) =
    flows_from
      (elim t.type [
        | credit ↦ (sum_right amount_of (t ∷ ts), debits)
        | debit ↦ (credits, sum_right amount_of (t ∷ ts))
      ])
      groups

module _ (orm : Client) where
  unfoldable pub find_all_accounts :
      (user_id : ℕ) → Option AccountType → List Account → List Account
  find_all_accounts user_id type rows = orm.order_by primary_first (
      find_all orm accounts
        (live accounts
          (λ a. (a.user_id == user_id) && a.is_active && type_matches type a.account_type))
        rows)

  unfoldable pub get_net_worth : (user_id : ℕ) → List Account → NetWorth
  unfolding find_all_accounts
  get_net_worth user_id rows =
      let found = find_all_accounts user_id none rows in
      let assets = sum_of balance_of (filter is_asset found) in
      let liabilities = sum_of abs_balance (filter is_liability found) in
      record {
        assets = assets;
        liabilities = liabilities;
        net_worth = assets -ℤ liabilities;
        bank = sum_of balance_of (filter (is_type AccountType.bank) found);
        wallet = sum_of balance_of (filter (is_type AccountType.wallet) found);
        credit_card = sum_of balance_of (filter (is_type AccountType.credit_card) found);
        investment = sum_of balance_of (filter (is_type AccountType.investment) found);
        loan = sum_of balance_of (filter (is_type AccountType.loan) found);
        account_count = length found;
      }

  -- What `sync` answers when the row has been touched.
  abbrev pub sync_answer : ℤ × ℤ → Result Account × List Account → Result SyncStats × List Account
  sync_answer flows (err e, rows) = (err e, rows)
  sync_answer (credits, debits) (ok a, rows) = (
    ok (record {
      account = a;
      credits = credits;
      debits = debits;
      net_flow = credits -ℤ debits;
      last_synced_at = a.updated_at;
    }),
    rows,
  )

  abbrev pub is_account_row : (user_id id : ℕ) → Transaction → Bool
  is_account_row user_id id t =
      (t.user_id == user_id) && (elim t.account_id [ none ↦ false | some a ↦ a == id ])

  -- The rest of `sync`, once the account has been found.
  unfoldable pub sync_found :
      (user_id id now : ℕ)
      → List Transaction
      → List Account
      → Option Account
      → Result SyncStats × List Account
  unfolding flows_from
  sync_found user_id id now txs rows none = (err not_found, rows)
  sync_found user_id id now txs rows (some a) =
      sync_answer
        (flows_from (pos 0, pos 0)
          (orm.group_by (λ t. t.type)
            (aggregated orm transactions (live transactions (is_account_row user_id id)) txs)))
        (update orm accounts (having (λ r. r.id == id)) (λ r. record r { updated_at = now }) rows)

  unfoldable pub sync :
      (user_id id now : ℕ) → List Transaction → List Account → Result SyncStats × List Account
  unfolding sync_found
  sync user_id id now txs rows =
      sync_found user_id id now txs rows
        (find_first orm accounts (live accounts (is_owned user_id id)) rows)
