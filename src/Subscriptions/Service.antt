-- ===== src/Subscriptions/Service.antt =====
-- The operations of backend/src/modules/subscription/subscription.service.ts on the subscriptions of a
-- user. `now` is the clock and `id` the uuid of a new row.
use money_management_app.Prelude.{
  ℕ, ◌+◌, ◌*◌, Bool, true, false, ◌&&◌, Option, none, some, String, List, map, length, ◌==◌, leb,
  or_else, or_option, Result,
}
use money_management_app.Prelude.Int.{ℤ, pos, ◌*ℤ◌}
use money_management_app.Prelude.Sums.{sum_of}
use money_management_app.Calendar.{day_ms}
use money_management_app.Orm.Client.{Client}
use money_management_app.Orm.Query.{live, having, find_first, find_all}
use money_management_app.Orm.Owned.{write_found, or_not_found}
use money_management_app.Subscriptions.Schema.{
  Frequency, Status, active, paused, cancelled, Subscription, subscriptions, CreateSubscriptionDto,
  UpdateSubscriptionDto,
}

unfoldable pub new_subscription :
    (user_id : ℕ) → CreateSubscriptionDto → (id now : ℕ) → Subscription
new_subscription user_id dto id now = record {
  id = id;
  user_id = user_id;
  name = dto.name;
  merchant_name = or_else dto.merchant_name dto.name;
  amount = dto.amount;
  frequency = dto.frequency;
  status = active;
  category_id = dto.category_id;
  next_billing_date = dto.next_billing_date;
  notes = dto.notes;
  deleted_at = none;
  created_at = now;
}

abbrev pub is_owned : (user_id id : ℕ) → Subscription → Bool
is_owned user_id id s = (s.id == id) && (s.user_id == user_id)

unfoldable pub apply_update : UpdateSubscriptionDto → Subscription → Subscription
apply_update dto s = record s {
  name = or_else dto.name s.name;
  amount = or_else dto.amount s.amount;
  frequency = or_else dto.frequency s.frequency;
  merchant_name = or_else dto.merchant_name s.merchant_name;
  category_id = or_option dto.category_id s.category_id;
  next_billing_date = or_option dto.next_billing_date s.next_billing_date;
  notes = or_option dto.notes s.notes;
  status = or_else dto.status s.status;
}

unfoldable pub mark_deleted : (now : ℕ) → Subscription → Subscription
mark_deleted now s = record s { deleted_at = some now }

-- `{ status }` of cancelSubscription, pauseSubscription and resumeSubscription
abbrev pub only_status : Status → UpdateSubscriptionDto
only_status s = record {
  name = none;
  amount = none;
  frequency = none;
  merchant_name = none;
  category_id = none;
  next_billing_date = none;
  notes = none;
  status = some s;
}

abbrev pub same_status : (s t : Status) → Bool
same_status Status.active Status.active = true
same_status Status.paused Status.paused = true
same_status Status.cancelled Status.cancelled = true
same_status Status.expired Status.expired = true
same_status _ _ = false

-- `if (status) where.status = status`
abbrev pub status_matches : Option Status → Status → Bool
status_matches none s = true
status_matches (some t) s = same_status s t

abbrev pub is_active_of : (user_id : ℕ) → Subscription → Bool
is_active_of user_id s = (s.user_id == user_id) && same_status s.status active

-- Whether a due date is there and not after the end.
abbrev pub due_by : (end : ℕ) → Option ℕ → Bool
due_by end none = false
due_by end (some t) = leb t end

-- `orderBy: { nextBillingDate: 'asc' }`, in which a missing date comes last.
abbrev pub earliest_first : Subscription → Subscription → Bool
earliest_first s t = elim s.next_billing_date [
  | none ↦ elim t.next_billing_date [ none ↦ true | some _ ↦ false ]
  | some a ↦ elim t.next_billing_date [ none ↦ true | some b ↦ leb a b ]
]

-- What a payment costs in a month, in twelfths, which all frequencies divide.
unfoldable pub monthly_twelfths : Frequency → ℤ → ℤ
monthly_twelfths Frequency.daily a = pos 360 *ℤ a
monthly_twelfths Frequency.weekly a = pos 48 *ℤ a
monthly_twelfths Frequency.monthly a = pos 12 *ℤ a
monthly_twelfths Frequency.quarterly a = pos 4 *ℤ a
monthly_twelfths Frequency.yearly a = a

pub record UpcomingPayment : Type 0 where
  pub name : String
  pub amount : ℤ
  pub due_date : Option ℕ

pub record SubscriptionSummary : Type 0 where
  pub total_subscriptions : ℕ
  pub active_subscriptions : ℕ
  -- In twelfths.
  pub total_monthly_spend : ℤ
  pub upcoming_payments : List UpcomingPayment

module _ (orm : Client) where
  unfoldable pub create :
      (user_id : ℕ)
      → CreateSubscriptionDto
      → (id now : ℕ) → List Subscription
      → Subscription × List Subscription
  create user_id dto id now rows =
      let s = new_subscription user_id dto id now in (s, orm.insert s rows)

  unfoldable pub find_all_subscriptions :
      (user_id : ℕ) → Option Status → List Subscription → List Subscription
  find_all_subscriptions user_id status rows = orm.order_by earliest_first (
      find_all orm subscriptions
        (live subscriptions (λ s. (s.user_id == user_id) && status_matches status s.status)) rows)

  unfoldable pub find_one : (user_id id : ℕ) → List Subscription → Result Subscription
  find_one user_id id rows =
      or_not_found (find_first orm subscriptions (live subscriptions (is_owned user_id id)) rows)

  unfoldable pub update_subscription :
      (user_id id : ℕ)
      → UpdateSubscriptionDto
      → List Subscription
      → Result Subscription × List Subscription
  unfolding write_found
  update_subscription user_id id dto rows =
      write_found orm subscriptions (λ s. s.id) id (apply_update dto) rows
        (find_first orm subscriptions (having (is_owned user_id id)) rows)

  unfoldable pub delete :
      (user_id id now : ℕ) → List Subscription → Result Subscription × List Subscription
  unfolding write_found
  delete user_id id now rows =
      write_found orm subscriptions (λ s. s.id) id (mark_deleted now) rows
        (find_first orm subscriptions (having (is_owned user_id id)) rows)

  unfoldable pub cancel_subscription :
      (user_id id : ℕ) → List Subscription → Result Subscription × List Subscription
  cancel_subscription user_id id rows = update_subscription user_id id (only_status cancelled) rows

  unfoldable pub pause_subscription :
      (user_id id : ℕ) → List Subscription → Result Subscription × List Subscription
  pause_subscription user_id id rows = update_subscription user_id id (only_status paused) rows

  unfoldable pub resume_subscription :
      (user_id id : ℕ) → List Subscription → Result Subscription × List Subscription
  resume_subscription user_id id rows = update_subscription user_id id (only_status active) rows

  -- `setDate(getDate() + days)` moves the clock by whole days.
  unfoldable pub get_upcoming_payments :
      (user_id days now : ℕ) → List Subscription → List Subscription
  get_upcoming_payments user_id days now rows = orm.order_by earliest_first (
      find_all orm subscriptions
        (live subscriptions
          (λ s. is_active_of user_id s && due_by (now + days * day_ms) s.next_billing_date))
        rows)

  unfoldable pub get_summary : (user_id now : ℕ) → List Subscription → SubscriptionSummary
  get_summary user_id now rows =
      let found = find_all orm subscriptions (live subscriptions (is_active_of user_id)) rows in
      record {
        total_subscriptions = length found;
        active_subscriptions = length found;
        total_monthly_spend = sum_of (λ s. monthly_twelfths s.frequency s.amount) found;
        upcoming_payments =
            map (λ s. record { name = s.name; amount = s.amount; due_date = s.next_billing_date })
              (get_upcoming_payments user_id 7 now rows);
      }
