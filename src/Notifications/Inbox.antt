-- ===== src/Notifications/Inbox.antt =====
-- Reading the inbox.
use money_management_app.Prelude.{
  ℕ, ◌≡◌, refl, Bool, true, false, not, List, [], ◌∷◌, ◌==◌, inl, inr, arith, Bool-cases, length,
  filter, replace, if◌then◌else◌,
}
use money_management_app.Orm.Client.{Client}
use money_management_app.Orm.SoftDelete.{Action}
use money_management_app.Orm.Query.{having, reach, count-length, update_many-replace}
use money_management_app.Notifications.Schema.{Notification, notifications}
use money_management_app.Notifications.Service.{
  is_unread, mark_read, mark_all_as_read, get_unread_count,
}

filter-none :
    (q p : Notification → Bool) (f : Notification → Notification) (rows : List Notification)
    → ((r : Notification) → q (if p r then f r else r) ≡ false)
    → length (filter q (replace p f rows)) ≡ 0
filter-none q p f [] h = refl
filter-none q p f (r ∷ rows) h = rw (h r) (filter-none q p f rows h)

filter-same :
    (q p : Notification → Bool) (f : Notification → Notification) (rows : List Notification)
    → ((r : Notification) → p r ≡ true → q r ≡ false)
    → ((r : Notification) → q (f r) ≡ q r)
    → filter q (replace p f rows) ≡ filter q rows
filter-same q p f [] away keep = refl
filter-same q p f (r ∷ rows) away keep = elim (Bool-cases (p r)) [
  | inl e ↦ rw (e, keep r, away r e) (filter-same q p f rows away keep)
  | inr e ↦ rw (e, filter-same q p f rows away keep) refl
]

module _ (orm : Client) (user_id now : ℕ) (rows : List Notification) where
  none_unread : get_unread_count orm user_id (mark_all_as_read orm user_id now rows) ≡ 0
  unfolding get_unread_count mark_all_as_read mark_read reach
  none_unread =
      rw
        (
          count-length orm notifications (having (is_unread user_id)),
          update_many-replace orm notifications (having (is_unread user_id)) rows (mark_read now),
        )
        (filter-none (reach notifications Action.count (having (is_unread user_id)))
          (reach notifications Action.update_many (having (is_unread user_id))) (mark_read now) rows
          (λ r. ground arith))

  others_kept :
      filter (λ n. not (n.user_id == user_id)) (mark_all_as_read orm user_id now rows)
      ≡ filter (λ n. not (n.user_id == user_id)) rows
  unfolding mark_all_as_read mark_read reach
  others_kept =
      rw (update_many-replace orm notifications (having (is_unread user_id)) rows (mark_read now)) (
        filter-same (λ n. not (n.user_id == user_id))
          (reach notifications Action.update_many (having (is_unread user_id))) (mark_read now) rows
          (λ r h. ground arith) (λ r. refl))

  -- After marking all as read, no notification of the user counts as unread, and the notifications of
  -- the other users are as they were.
  pub mark_all_as_read_lem :
      (get_unread_count orm user_id (mark_all_as_read orm user_id now rows) ≡ 0)
      × (filter (λ n. not (n.user_id == user_id)) (mark_all_as_read orm user_id now rows)
          ≡ filter (λ n. not (n.user_id == user_id)) rows)
  mark_all_as_read_lem = (none_unread, others_kept)
