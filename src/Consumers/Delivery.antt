-- ===== src/Consumers/Delivery.antt =====
-- What becomes of a notification whose request comes back from the broker, and how often a pattern is
-- made a subscription.
use money_management_app.Prelude.{
  ℕ, ◌≡◌, refl, ap, ◌∙◌, true, false, some, String, [], ◌∷◌, ◌++◌, map, ◌==◌, or_else, map-append,
  append_assoc,
}
use money_management_app.Broker.{Event, publish_notification_request}
use money_management_app.Orm.Client.{Client}
use money_management_app.Orm.Query.{having}
use money_management_app.Orm.Columns.{map-update}
use money_management_app.Notifications.Schema.{
  Notification, NotificationType, notifications, CreateNotificationDto, Stores, Outside, type_text,
}
use money_management_app.Notifications.Service.{
  new_notification, create, send_push_notification, mark_sent,
}
use money_management_app.Consumers.Events.{type_named, requested, handle_notification_request}

-- What a user sees of a notification.
pub record Shown : Type 0 where
  pub user_id : ℕ
  pub type : NotificationType
  pub title : String
  pub message : String

abbrev pub shown : Notification → Shown
shown n = record { user_id = n.user_id; type = n.type; title = n.title; message = n.message }

type_named-text : (ty : NotificationType) → type_named (type_text ty) ≡ some ty
type_named-text NotificationType.transaction = refl
type_named-text NotificationType.subscription = refl
type_named-text NotificationType.budget_alert = refl
type_named-text NotificationType.insight = refl
type_named-text NotificationType.reminder = refl
type_named-text NotificationType.security = refl

module _ (orm : Client) (outside : Outside) (user_id : ℕ) (dto : CreateNotificationDto) (id now : ℕ)
    (s : Stores) where
  -- The event that `create` publishes.
  abbrev pub request : Event
  request = Event.notification_request user_id (type_text dto.type) dto.title dto.body

  abbrev pub as_shown : Shown
  as_shown = shown (new_notification user_id dto id now)

  abbrev created : Stores
  created = (create orm outside user_id dto id now s).1

  created-rows :
      or_else dto.send_push false ≡ true
      → map shown created.notifications ≡ map shown s.notifications ++ as_shown ∷ []
  unfolding create send_push_notification mark_sent new_notification
  created-rows push =
      rw (push, create, send_push_notification)
        (map-update orm notifications (having (λ m. m.id == id)) shown (mark_sent now)
            (orm.insert (new_notification user_id dto id now) s.notifications) (λ n. refl)
          ∙ ap (map shown) (orm.insert-append (new_notification user_id dto id now) s.notifications)
          ∙ map-append shown s.notifications _)

  created-queue :
      or_else dto.send_push false ≡ true
      → outside.accepts request ≡ true
      → created.queue ≡ s.queue ++ request ∷ []
  unfolding create send_push_notification new_notification publish_notification_request
  created-queue push takes = rw (push, create, send_push_notification, takes)

  -- A notification that is to be pushed is stored twice: `create` stores it and publishes a request for it, and
  -- the consumer of the request stores another one with the same user, type, title and message; this whenever
  -- the broker takes the event.
  pub create-delivered_twice :
      (later_id later : ℕ)
      → or_else dto.send_push false ≡ true
      → outside.accepts request ≡ true
      → let s' = (create orm outside user_id dto id now s).1 in
        (s'.queue ≡ s.queue ++ request ∷ [])
        × (map shown (
              handle_notification_request orm user_id
                (type_text dto.type)
                dto.title
                dto.body
                later_id
                later
                s'.notifications)
            ≡ map shown s.notifications ++ as_shown ∷ as_shown ∷ [])
  unfolding handle_notification_request new_notification
  create-delivered_twice later_id later push takes = (
    created-queue push takes,
    rw (type_named-text dto.type, handle_notification_request, orm.insert-append)
        (map-append shown created.notifications
            (requested user_id dto.type dto.title dto.body later_id later ∷ [])
          ∙ ap (λ l. l ++ as_shown ∷ []) (created-rows push)
          ∙ append_assoc (map shown s.notifications) (as_shown ∷ []) (as_shown ∷ [])),
  )
