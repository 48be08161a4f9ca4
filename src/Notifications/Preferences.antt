-- ===== src/Notifications/Preferences.antt =====
-- getPreferences and updatePreferences of backend/src/modules/notification/notification.service.ts.
use money_management_app.Prelude.{
  ℕ, Bool, true, false, Option, none, some, List, ◌==◌, or_else, or_option, Result, ok, err,
}
use money_management_app.Prelude.Int.{ℤ, pos}
use money_management_app.Orm.Client.{Client}
use money_management_app.Orm.Query.{having, find_unique, update}
use money_management_app.Users.Schema.{User, users, Preferences, no_preferences}

-- NotificationPreferencesDto with the defaults filled in.
pub record FullPreferences : Type 0 where
  pub push_enabled : Bool
  pub email_enabled : Bool
  pub sms_enabled : Bool
  pub transaction_alerts : Bool
  pub subscription_alerts : Bool
  pub budget_alerts : Bool
  pub insight_alerts : Bool
  pub security_alerts : Bool
  pub min_amount_for_alert : ℤ

-- `{ ...defaultPrefs, ...prefs }`
unfoldable pub with_defaults : Preferences → FullPreferences
with_defaults p = record {
  push_enabled = or_else p.push_enabled true;
  email_enabled = or_else p.email_enabled false;
  sms_enabled = or_else p.sms_enabled false;
  transaction_alerts = or_else p.transaction_alerts true;
  subscription_alerts = or_else p.subscription_alerts true;
  budget_alerts = or_else p.budget_alerts true;
  insight_alerts = or_else p.insight_alerts false;
  security_alerts = or_else p.security_alerts true;
  min_amount_for_alert = or_else p.min_amount_for_alert (pos 100000);
}

-- `{ ...currentPrefs, ...prefs }`
unfoldable pub merged : (current prefs : Preferences) → Preferences
merged current prefs = record {
  push_enabled = or_option prefs.push_enabled current.push_enabled;
  email_enabled = or_option prefs.email_enabled current.email_enabled;
  sms_enabled = or_option prefs.sms_enabled current.sms_enabled;
  transaction_alerts = or_option prefs.transaction_alerts current.transaction_alerts;
  subscription_alerts = or_option prefs.subscription_alerts current.subscription_alerts;
  budget_alerts = or_option prefs.budget_alerts current.budget_alerts;
  insight_alerts = or_option prefs.insight_alerts current.insight_alerts;
  security_alerts = or_option prefs.security_alerts current.security_alerts;
  min_amount_for_alert = or_option prefs.min_amount_for_alert current.min_amount_for_alert;
}

abbrev pub stored_preferences : Option User → Preferences
stored_preferences none = no_preferences
stored_preferences (some u) = u.notification_prefs

unfoldable pub set_preferences : Preferences → User → User
set_preferences p u = record u { notification_prefs = p }

abbrev pub has_id : ℕ → User → Bool
has_id user_id u = u.id == user_id

module _ (orm : Client) (user_id : ℕ) where
  unfoldable pub get_preferences : List User → FullPreferences
  get_preferences rows =
      with_defaults (stored_preferences (find_unique orm users (having (has_id user_id)) rows))

  -- The update throws for a user that is not there.
  unfoldable pub update_preferences : Preferences → List User → Result FullPreferences × List User
  update_preferences prefs rows =
      let current = stored_preferences (find_unique orm users (having (has_id user_id)) rows) in
      let (written, rows') =
        update orm users (having (has_id user_id)) (set_preferences (merged current prefs)) rows in
      elim written [ ok u ↦ (ok (get_preferences rows'), rows') | err e ↦ (err e, rows') ]
