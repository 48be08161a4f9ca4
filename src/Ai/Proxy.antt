-- ===== src/Ai/Proxy.antt =====
-- The methods of backend/src/modules/ai-proxy/ai-proxy.service.ts that call the AI service. The
-- service itself is a parameter: it answers a request with JSON, or fails (`none`).
use money_management_app.Prelude.{
  ℕ, Option, none, some, String, List, Result, ok, err, unavailable, internal,
}
use money_management_app.Prelude.Int.{ℤ}
use money_management_app.Transactions.Schema.{TransactionType, TransactionSource}
use money_management_app.Orm.Client.{Client}
use money_management_app.Ai.Json.{Json}
use money_management_app.Ai.Cache.{Key, Cache, Outages, with_cache}
use money_management_app.Ai.Ttl
use money_management_app.Ai.Context.{
  UserContext, Tables, TransactionView, SubscriptionView, BudgetView, GoalView, fetch_transactions,
  fetch_subscriptions, fetch_budgets, fetch_goals, build_user_context,
}

-- The bodies of the requests.
pub data Request : Type 0 where
  user_context : UserContext → Request
  behavior : UserContext → (period_days : ℕ) → Request
  cards : (context : UserContext) → Request
  query : (user_id : ℕ) (text : String) (context : UserContext) → Request
  weekly :
      (user_id : ℕ) (week_start week_end : String)
      → (transactions previous_transactions : List TransactionView) → List SubscriptionView
      → List BudgetView
      → List GoalView
      → (archetype : Option String) → Request
  sms : (body sender timestamp : String) → Request
  detection : (user_id : ℕ) → List TransactionView → Request
  tag :
      (id : ℕ) (amount : ℤ) (type : TransactionType) (category merchant description : Option String)
      → (date : String) (source : TransactionSource) → Request

module _ (service : String → Request → Option Json) where
  -- An error or a timeout becomes a ServiceUnavailableException.
  unfoldable pub call_ai : (path : String) → Request → Result Json
  call_ai path body = elim (service path body) [ some data_ ↦ ok data_ | none ↦ err unavailable ]

  unfoldable pub parse_sms : (body sender timestamp : String) → Result Json
  unfolding call_ai
  parse_sms body sender timestamp = call_ai "/sms/parse" (Request.sms body sender timestamp)

  -- A call with what the database has of the user. Building it does not fail: the paging loop ends.
  abbrev pub call_with :
      (path : String) → (UserContext → Request) → Option UserContext → Result Json
  call_with path request none = err internal
  call_with path request (some ctx) = call_ai path (request ctx)

  module _ (orm : Client) (iso : ℕ → String) (user_id now : ℕ) (db : Tables) where
    unfoldable pub generate_action_cards : Result Json
    unfolding call_ai
    generate_action_cards =
        call_with "/action-cards/generate" Request.cards
          (build_user_context orm iso user_id 30 now db)

    unfoldable pub ask : (text : String) → Result Json
    unfolding call_ai
    ask text =
        call_with "/assistant/query" (Request.query user_id text)
          (build_user_context orm iso user_id 30 now db)

    unfoldable pub get_weekly_summary :
        (week_start week_end : ℕ) (transactions previous_transactions : List TransactionView)
        → (archetype : Option String) → Result Json
    unfolding call_ai
    get_weekly_summary week_start week_end transactions previous_transactions archetype =
        call_ai "/insights/weekly-summary" (
          Request.weekly user_id (iso week_start) (iso week_end) transactions previous_transactions
            (fetch_subscriptions orm iso user_id db.subscription_rows)
            (fetch_budgets orm iso user_id db.budget_rows)
            (fetch_goals orm iso user_id db.goal_rows) archetype)

    unfoldable pub detect_subscriptions : Result Json
    unfolding call_ai
    detect_subscriptions = elim (fetch_transactions orm iso user_id 90 now db.transaction_rows) [
      | none ↦ err internal
      | some ts ↦ call_ai "/subscriptions/detect" (Request.detection user_id ts)
    ]

    -- What the service answers now to the cached methods.
    abbrev pub fresh_dashboard : Result Json
    fresh_dashboard =
        call_with "/dashboard/personalized" Request.user_context
          (build_user_context orm iso user_id 30 now db)

    abbrev pub fresh_health_score : Result Json
    fresh_health_score =
        call_with "/health-score/calculate" Request.user_context
          (build_user_context orm iso user_id 30 now db)

    abbrev pub fresh_leaks : Result Json
    fresh_leaks =
        call_with "/leaks/detect" Request.user_context
          (build_user_context orm iso user_id 30 now db)

    abbrev pub fresh_archetype : Result Json
    fresh_archetype =
        call_with "/profile/archetype" Request.user_context
          (build_user_context orm iso user_id 30 now db)

    abbrev pub fresh_behavior : (period_days : ℕ) → Result Json
    fresh_behavior period_days =
        call_with "/behavior/analyze" (λ ctx. Request.behavior ctx period_days)
          (build_user_context orm iso user_id period_days now db)

    module _ (cache : Cache) (outages : Outages) where
      unfoldable pub get_dashboard : cache.Store → Result Json × cache.Store
      unfolding with_cache call_ai
      get_dashboard =
          with_cache cache outages now (Key.dashboard user_id) Ttl.dashboard fresh_dashboard

      unfoldable pub get_health_score : cache.Store → Result Json × cache.Store
      unfolding with_cache call_ai
      get_health_score =
          with_cache cache outages now (Key.health_score user_id) Ttl.health_score
            fresh_health_score

      unfoldable pub get_leaks : cache.Store → Result Json × cache.Store
      unfolding with_cache call_ai
      get_leaks = with_cache cache outages now (Key.leaks user_id) Ttl.leaks fresh_leaks

      unfoldable pub analyze_behavior : (period_days : ℕ) → cache.Store → Result Json × cache.Store
      unfolding with_cache call_ai
      analyze_behavior period_days =
          with_cache cache outages now (Key.behavior user_id period_days) Ttl.behavior
            (fresh_behavior period_days)

      unfoldable pub get_archetype : cache.Store → Result Json × cache.Store
      unfolding with_cache call_ai
      get_archetype =
          with_cache cache outages now (Key.archetype user_id) Ttl.archetype fresh_archetype
