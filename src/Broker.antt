-- ===== src/Broker.antt =====
-- backend/src/config/rabbitmq.service.ts: the publisher of domain events. The broker itself is a
-- package: whether it takes an event is a parameter.
use money_management_app.Prelude.{ℕ, Bool, String, List, [], ◌∷◌, ◌++◌, if◌then◌else◌}
use money_management_app.Prelude.Int.{ℤ}

-- The messages that the services publish, by their `type`.
pub data Event : Type 0 where
  transaction_created : (transaction_id user_id : ℕ) (amount : ℤ) (category : String) → Event
  subscription_detected : (subscription_id user_id : ℕ) (merchant : String) (amount : ℤ) → Event
  notification_request : (user_id : ℕ) (type title body : String) → Event

-- `emit`: a failed delivery is logged and swallowed.
unfoldable pub emit : (Event → Bool) → Event → List Event → List Event
emit accepts e queue = if accepts e then queue ++ e ∷ [] else queue

-- publishTransactionCreated
unfoldable pub publish_transaction_created :
    (Event → Bool)
    → (transaction_id user_id : ℕ) (amount : ℤ) (category : String) → List Event
    → List Event
unfolding emit
publish_transaction_created accepts transaction_id user_id amount category =
    emit accepts (Event.transaction_created transaction_id user_id amount category)

-- publishSubscriptionDetected
unfoldable pub publish_subscription_detected :
    (Event → Bool)
    → (subscription_id user_id : ℕ) (merchant : String) (amount : ℤ) → List Event
    → List Event
unfolding emit
publish_subscription_detected accepts subscription_id user_id merchant amount =
    emit accepts (Event.subscription_detected subscription_id user_id merchant amount)

-- publishNotificationRequest
unfoldable pub publish_notification_request :
    (Event → Bool) → (user_id : ℕ) (type title body : String) → List Event → List Event
unfolding emit
publish_notification_request accepts user_id type title body =
    emit accepts (Event.notification_request user_id type title body)
