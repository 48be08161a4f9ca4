-- ===== src/Accounts/Worth.antt =====
-- What the net worth of a user adds up to.
use money_management_app.Prelude.{
  ℕ, ◌≡◌, refl, sym, ◌∙◌, Bool, ◌&&◌, none, List, [], ◌∷◌, ◌==◌, length, filter, is_none, arith,
  if◌then◌else◌, Perm,
}
use mathlib.Core.Path.{subst}
use money_management_app.Prelude.Int.{ℤ, pos, ◌-ℤ◌, int_laws}
use money_management_app.Prelude.Sums.{sum_right, sum_of-eq, sum_right-perm, length-perm}
use money_management_app.Orm.Client.{Client}
use money_management_app.Orm.SoftDelete.{Action}
use money_management_app.Orm.Query.{live, find_all, find_all-filter, reach}
use money_management_app.Accounts.Schema.{Account, AccountType, accounts}
use money_management_app.Accounts.Reports.{
  balance_of, abs_balance, is_type, is_asset, is_liability, primary_first, type_matches,
  find_all_accounts, get_net_worth,
}

-- What an account adds to the net worth: a loan counts as a debt whatever the sign of its balance is,
-- any other account with its balance.
abbrev pub worth : Account → ℤ
worth a = if is_type AccountType.loan a then pos 0 -ℤ abs_balance a else a.balance

assets-minus-liabilities :
    (rows : List Account)
    → sum_right balance_of (filter is_asset rows)
        -ℤ sum_right abs_balance (filter is_liability rows)
      ≡ sum_right worth rows
assets-minus-liabilities [] = omega int_laws
assets-minus-liabilities (a ∷ rows) = grind (int_laws, assets-minus-liabilities rows)

-- The accounts that are counted: those of the user that are active and not deleted.
abbrev pub counted : (user_id : ℕ) → List Account → List Account
counted user_id rows =
    filter (λ a. (a.user_id == user_id) && a.is_active && is_none a.deleted_at) rows

filter-same :
    (p q : Account → Bool) (rows : List Account)
    → ((a : Account) → p a ≡ q a)
    → filter p rows ≡ filter q rows
filter-same p q [] h = refl
filter-same p q (a ∷ rows) h = rw (h a, filter-same p q rows h) refl

found-perm :
    (orm : Client) (user_id : ℕ) (rows : List Account)
    → Perm (find_all_accounts orm user_id none rows) (counted user_id rows)
unfolding find_all_accounts reach
found-perm orm user_id rows =
    let asked =
      live accounts
        (λ a. (a.user_id == user_id) && a.is_active && type_matches none a.account_type) in
    let same : find_all orm accounts asked rows ≡ counted user_id rows =
      find_all-filter orm accounts asked rows
      ∙ filter-same (reach accounts Action.find_many asked)
          (λ a. (a.user_id == user_id) && a.is_active && is_none a.deleted_at) rows
          (λ a. ground arith) in
    subst (λ r. Perm (orm.order_by primary_first r) (counted user_id rows)) (sym same)
      (orm.order_by-perm primary_first (counted user_id rows))

-- The net worth of a user is the sum over the user's accounts that are active and not deleted, in which
-- a loan counts as minus the amount of its balance and any other account as its balance; and the number
-- of accounts is the number of these.
pub get_net_worth_lem :
    (orm : Client) (user_id : ℕ) (rows : List Account)
    → ((get_net_worth orm user_id rows).net_worth ≡ sum_right worth (counted user_id rows))
      × ((get_net_worth orm user_id rows).account_count ≡ length (counted user_id rows))
unfolding get_net_worth
get_net_worth_lem orm user_id rows =
    let found = find_all_accounts orm user_id none rows in
    (
      rw
          (
            sum_of-eq balance_of (filter is_asset found),
            sum_of-eq abs_balance (filter is_liability found),
          )
          (assets-minus-liabilities found ∙ sum_right-perm worth (found-perm orm user_id rows)),
      length-perm (found-perm orm user_id rows),
    )
