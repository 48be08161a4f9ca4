-- ===== src/Tests/Consumers.antt =====
-- The consumers of the broker's events at concrete inputs.
use money_management_app.Prelude.{true, ◌*◌, ◌≡◌, refl, none, [], ◌∷◌, ◌++◌, map}
use money_management_app.Notifications.Schema.{
  NotificationType, NotificationPriority, CreateNotificationDto,
}
use money_management_app.Notifications.Alerts.{alert}
use money_management_app.Notifications.Service.{create}
use money_management_app.Consumers.Events.{handle_notification_request}
use money_management_app.Consumers.Delivery.{shown, request, as_shown, create-delivered_twice}
use money_management_app.Consumers.Patterns.{Desk}
use money_management_app.Consumers.Repeated.{check_at, check_for_subscription_pattern_idempotent}
use money_management_app.Calendar.{day_ms}
use money_management_app.Tests.Exact.{exact}
use money_management_app.Tests.Data.{list_client, payment}
use money_management_app.Tests.People.{asha, world, open_broker, texts}

abbrev debited : CreateNotificationDto
debited =
    alert NotificationType.transaction "Money Debited" "-₹450 at Swiggy" NotificationPriority.normal
      true none

create-delivered_twice_example :
    let s' = (create list_client open_broker 7 debited 9 20 (world asha)).1 in
    (s'.queue ≡ [] ++ request list_client open_broker 7 debited 9 20 (world asha) ∷ [])
    × (map shown (
          handle_notification_request list_client 7 "TRANSACTION" "Money Debited" "-₹450 at Swiggy"
            10 30 s'.notifications)
        ≡ map shown (world asha).notifications
          ++ as_shown list_client open_broker 7 debited 9 20 (world asha)
            ∷ as_shown list_client open_broker 7 debited 9 20 (world asha)
            ∷ [])
create-delivered_twice_example =
    create-delivered_twice list_client open_broker 7 debited 9 20 (world asha) 10 30 refl refl

-- Three equal payments to Swiggy, a month apart.
abbrev desk : Desk
desk = record {
  transaction_rows =
      payment 1 7 45000 true (30 * day_ms)
      ∷ payment 2 7 45000 true (60 * day_ms)
      ∷ payment 3 7 45000 true (90 * day_ms)
      ∷ [];
  subscription_rows = [];
  alerts = world asha;
}

check_for_subscription_pattern_idempotent_example :
    check_at list_client exact open_broker texts 7 "Swiggy" 21 22
      (100 * day_ms)
      (check_at list_client exact open_broker texts 7 "Swiggy" 11 12 (91 * day_ms) desk)
    ≡ check_at list_client exact open_broker texts 7 "Swiggy" 11 12 (91 * day_ms) desk
check_for_subscription_pattern_idempotent_example =
    check_for_subscription_pattern_idempotent list_client exact open_broker texts 7 "Swiggy" 11 12
      (91 * day_ms) 21 22 (100 * day_ms) desk
