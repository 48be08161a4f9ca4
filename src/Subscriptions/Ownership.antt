-- ===== src/Subscriptions/Ownership.antt =====
-- The subscriptions of one user are out of the reach of another.
use money_management_app.Prelude.{ℕ, ◌≡◌, refl, true, List, ◌==◌, arith}
use money_management_app.Orm.Client.{Client}
use money_management_app.Orm.SoftDelete.{Action}
use money_management_app.Orm.Query.{having, reach}
use money_management_app.Orm.Rows.{UniqueIds, foreign}
use money_management_app.Orm.Owned.{outcome-foreign}
use money_management_app.Subscriptions.Schema.{
  Subscription, subscriptions, UpdateSubscriptionDto, cancelled, paused, active,
}
use money_management_app.Subscriptions.Service.{
  is_owned, apply_update, mark_deleted, only_status, update_subscription, delete,
  cancel_subscription, pause_subscription, resume_subscription,
}

abbrev id_of : Subscription → ℕ
id_of s = s.id

abbrev owner : Subscription → ℕ
owner s = s.user_id

asks :
    (user_id id : ℕ) (s : Subscription)
    → is_owned user_id id s ≡ true
    → (s.id ≡ id) × (s.user_id ≡ user_id)
asks user_id id s h = ground arith

meets :
    (user_id id : ℕ) (s : Subscription)
    → reach subscriptions Action.find_first (having (is_owned user_id id)) s ≡ true
    → reach subscriptions Action.update (having (λ r. r.id == id)) s ≡ true
unfolding reach
meets user_id id s h = ground arith

module _ (orm : Client) (user_id id now : ℕ) (rows : List Subscription) where
  updated :
      (dto : UpdateSubscriptionDto)
      → UniqueIds id_of rows
      → foreign id_of owner user_id (update_subscription orm user_id id dto rows).1
        ≡ foreign id_of owner user_id rows
  unfolding update_subscription apply_update
  updated dto u =
      outcome-foreign orm subscriptions id_of id (having (is_owned user_id id)) (apply_update dto)
        rows owner user_id (asks user_id id) (meets user_id id) (λ s. refl) u

  -- Updating, cancelling, pausing, resuming or deleting a subscription leaves the subscriptions of every
  -- other user as they were, whether the call succeeds or fails, if ids are unique.
  pub changes_isolated :
      (dto : UpdateSubscriptionDto)
      → UniqueIds id_of rows
      → (foreign id_of owner user_id (update_subscription orm user_id id dto rows).1
          ≡ foreign id_of owner user_id rows)
        × (foreign id_of owner user_id (cancel_subscription orm user_id id rows).1
            ≡ foreign id_of owner user_id rows)
        × (foreign id_of owner user_id (pause_subscription orm user_id id rows).1
            ≡ foreign id_of owner user_id rows)
        × (foreign id_of owner user_id (resume_subscription orm user_id id rows).1
            ≡ foreign id_of owner user_id rows)
        × (foreign id_of owner user_id (delete orm user_id id now rows).1
            ≡ foreign id_of owner user_id rows)
  unfolding delete mark_deleted cancel_subscription pause_subscription resume_subscription
  changes_isolated dto u = (
    updated dto u,
    updated (only_status cancelled) u,
    updated (only_status paused) u,
    updated (only_status active) u,
    outcome-foreign orm subscriptions id_of id (having (is_owned user_id id)) (mark_deleted now)
        rows owner user_id (asks user_id id) (meets user_id id) (λ s. refl) u,
  )
