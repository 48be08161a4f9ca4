-- ===== src/Notifications/Muted.antt =====
-- What the preferences of a user keep from being sent.
use money_management_app.Prelude.{
  ℕ, ◌≡◌, refl, ap, ◌∙◌, Bool, true, false, Option, some, String, List, find, find-passes, replace,
  Result, ok, err, Result, ok, err, arith,
}
use money_management_app.Prelude.Int.{ℤ}
use money_management_app.Orm.Client.{Client}
use money_management_app.Orm.SoftDelete.{Action, Where}
use money_management_app.Orm.Query.{
  having, reach, update, written, update-written, find_unique-find,
}
use money_management_app.Orm.Rows.{UniqueIds}
use money_management_app.Orm.Owned.{find_same, find-replace}
use money_management_app.Users.Schema.{User, users, Preferences}
use money_management_app.Notifications.Schema.{Stores, Outside}
use money_management_app.Notifications.Preferences.{
  FullPreferences, has_id, stored_preferences, merged, with_defaults, set_preferences,
  get_preferences, update_preferences,
}
use money_management_app.Notifications.Alerts.{
  Texts, send_transaction_notification, send_subscription_notification, send_budget_alert,
  send_insight_notification,
}

-- The condition by which a user is looked for, and that of the write.
abbrev pub asked : ℕ → User → Bool
asked user_id = reach users Action.find_unique (having (has_id user_id))

abbrev by_id : ℕ → User → Bool
by_id user_id = reach users Action.update (having (has_id user_id))

asked-asks : (user_id : ℕ) (u : User) → asked user_id u ≡ true → u.id ≡ user_id
unfolding reach
asked-asks user_id u h = ground arith

by_id-asks : (user_id : ℕ) (u : User) → by_id user_id u ≡ true → u.id ≡ user_id
unfolding reach
by_id-asks user_id u h = ground arith

asked-by_id : (user_id : ℕ) (u : User) → asked user_id u ≡ true → by_id user_id u ≡ true
unfolding reach
asked-by_id user_id u h = ground arith

asked-set_preferences :
    (user_id : ℕ) (p : Preferences) (u : User)
    → asked user_id (set_preferences p u) ≡ asked user_id u
unfolding reach set_preferences
asked-set_preferences user_id p u = refl

plain :
    (p : Preferences) (u : User)
    → with_defaults (stored_preferences (some (set_preferences p u))) ≡ with_defaults p
unfolding set_preferences
plain p u = refl

module _ (orm : Client) (user_id : ℕ) (prefs : Preferences) (rows : List User) where
  abbrev w : Where User
  w = having (has_id user_id)

  -- The answer of the handler, from that of its write.
  abbrev answered : Result User × List User → Result FullPreferences × List User
  answered o = elim o.0 [
    | ok u ↦ (ok (get_preferences orm user_id o.1), o.1)
    | err e ↦ (err e, o.1)
  ]

  updated-rows :
      {u : User}
      → UniqueIds (λ u. u.id) rows
      → find (asked user_id) rows ≡ some u
      → (update_preferences orm user_id prefs rows).1
        ≡ replace (by_id user_id) (set_preferences (merged u.notification_prefs prefs)) rows
  unfolding update_preferences
  updated-rows {u} unique e =
      let hit = asked-by_id user_id u (find-passes (asked user_id) rows e) in
      let f = set_preferences (merged u.notification_prefs prefs) in
      let found =
        find_same (λ u. u.id) (asked user_id) (by_id user_id) user_id rows (asked-asks user_id)
          (by_id-asks user_id) unique hit e in
      ap (λ o. (answered o).1)
        (ap (λ r. update orm users w (set_preferences (merged (stored_preferences r) prefs)) rows)
            (find_unique-find orm users w rows ∙ e)
          ∙ update-written orm users w f rows
          ∙ ap (written f rows (replace (by_id user_id) f rows)) found)

  -- The preferences that are read after an update are the stored ones with the update merged into them.
  preferences_after :
      {u : User}
      → UniqueIds (λ u. u.id) rows
      → find (asked user_id) rows ≡ some u
      → get_preferences orm user_id (update_preferences orm user_id prefs rows).1
        ≡ with_defaults (merged u.notification_prefs prefs)
  unfolding get_preferences
  preferences_after {u} unique e =
      let p = merged u.notification_prefs prefs in
      let hit = asked-by_id user_id u (find-passes (asked user_id) rows e) in
      let after = replace (by_id user_id) (set_preferences p) rows in
      ap (get_preferences orm user_id) (updated-rows unique e)
      ∙ ap (λ o. with_defaults (stored_preferences o))
          (find_unique-find orm users w after
            ∙ find-replace (asked user_id) (by_id user_id) (set_preferences p) rows
                (asked-set_preferences user_id p) hit e)
      ∙ plain p u

module _ (orm : Client) (outside : Outside) (texts : Texts) (user_id id now : ℕ) (s : Stores)
    (prefs : Preferences) where
  -- The stores after the user has changed the preferences.
  abbrev pub changed : Stores
  changed = record s { users = (update_preferences orm user_id prefs s.users).1 }

  -- Once a user that is not deleted has switched off the alerts on transactions, subscriptions, budgets and
  -- insights, none of them changes the notifications, the devices or the queue any more, if the ids of users
  -- are unique.
  pub update_preferences-mutes :
      (amount : ℤ) (merchant : Option String) (is_credit : Bool) (text body : String)
      (date spent limit : ℕ) {u : User}
      → UniqueIds (λ u. u.id) s.users
      → find (asked user_id) s.users ≡ some u
      → prefs.transaction_alerts ≡ some false
      → prefs.subscription_alerts ≡ some false
      → prefs.budget_alerts ≡ some false
      → prefs.insight_alerts ≡ some false
      → (send_transaction_notification orm outside texts user_id id now amount merchant is_credit
            changed
          ≡ changed)
        × (send_subscription_notification orm outside texts user_id id now text amount date changed
            ≡ changed)
        × (send_budget_alert orm outside texts user_id id now text spent limit changed ≡ changed)
        × (send_insight_notification orm outside texts user_id id now text body changed ≡ changed)
  unfolding send_transaction_notification send_subscription_notification send_budget_alert
      send_insight_notification with_defaults merged
  update_preferences-mutes amount merchant is_credit text body date spent limit unique e t b c i =
      let read = preferences_after orm user_id prefs s.users unique e in
      (
        rw (ap (λ p. p.transaction_alerts) read) (rw t refl),
        rw (ap (λ p. p.subscription_alerts) read) (rw b refl),
        rw (ap (λ p. p.budget_alerts) read) (rw c refl),
        rw (ap (λ p. p.insight_alerts) read) (rw i refl),
      )
