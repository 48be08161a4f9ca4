-- ===== src/Ai/Enrichment.antt =====
-- enrich of backend/src/modules/ai-proxy/transaction-enrichment.service.ts, with the recomputations
-- that it runs once in a cooldown.
use money_management_app.Prelude.{
  ℕ, true, ◌&&◌, Option, none, some, String, List, [], ◌∷◌, ◌==◌, if◌then◌else◌, Result, ok, err,
  internal,
}
use money_management_app.Prelude.Int.{ℤ}
use money_management_app.Orm.Client.{Client}
use money_management_app.Orm.SoftDelete.{Model}
use money_management_app.Orm.Query.{Table, having, update}
use money_management_app.ActionCards.Schema.{ActionCard, CreateActionCardDto}
use money_management_app.ActionCards.Service.{bulk_sync}
use money_management_app.Ai.Json.{
  Json, member, coalesce, is_truthy, as_number, as_list, to_text, text_option,
}
use money_management_app.Ai.Cache.{Key, Cache, Outages, invalidate_user}
use money_management_app.Ai.Context.{Tables}
use money_management_app.Ai.Proxy.{Request, get_health_score, generate_action_cards}
use money_management_app.Ai.Tagging.{tag_behavior}

-- The column of `User` that enrichment writes.
pub record ScoredUser : Type 0 where
  pub id : ℕ
  pub financial_health_score : Option ℤ
  pub deleted_at : Option ℕ

abbrev pub scored_users : Table ScoredUser
scored_users = record { model = Model.user; deleted_at = λ u. u.deleted_at }

-- The database and the cache, as enrichment sees them.
pub record State (Store : Type 0) : Type 0 where
  pub tables : Tables
  pub users : List ScoredUser
  pub cards : List ActionCard
  pub store : Store

-- heavyCooldownSeconds
abbrev pub heavy_cooldown_seconds : ℕ
heavy_cooldown_seconds = 60

-- `response?.data?.score ?? response?.data?.overall_score ?? response?.score ?? ...`
abbrev pub score_of : Json → Option Json
score_of response =
    let data_ = member (some response) "data" in
    coalesce
      (coalesce (coalesce (member data_ "score") (member data_ "overall_score"))
        (member (some response) "score"))
      (member (some response) "overall_score")

-- `response?.data?.cards ?? response?.cards ?? []`, when it is an array.
abbrev pub raw_cards : Json → List Json
raw_cards response =
    as_list
      (coalesce (member (member (some response) "data") "cards") (member (some response) "cards"))

-- What JavaScript makes of values: the text of one, `parseFloat` when it is finite, `new Date(text)`.
pub record Conversions : Type 0 where
  pub text : Json → String
  pub parse_float : String → Option ℤ
  pub date : String → ℕ

module _ (js : Conversions) where
  -- JSON holds finite numbers only.
  unfoldable pub extract_numeric : Option Json → Option ℤ
  extract_numeric (some (Json.num n)) = some n
  extract_numeric (some (Json.str s)) = js.parse_float s
  extract_numeric _ = none

  abbrev pub date_option : Option String → Option ℕ
  date_option none = none
  date_option (some s) = some (js.date s)

  -- `x ? new Date(x) : undefined` is left to bulkSync, which takes the DTO's date.
  abbrev pub card_dto : (type title description : Json) → Json → CreateActionCardDto
  card_dto type title description c = record {
    type = to_text js.text type;
    title = to_text js.text title;
    description = to_text js.text description;
    priority = text_option js.text (member (some c) "priority");
    impact_amount = elim (as_number (member (some c) "impact_amount")) [
      | some n ↦ some n
      | none ↦ as_number (member (some c) "impactAmount")
    ];
    impact_type =
        text_option js.text
          (coalesce (member (some c) "impact_type") (member (some c) "impactType"));
    action_data =
        text_option js.text
          (coalesce (member (some c) "action_data") (member (some c) "actionData"));
    expires_at = date_option (
        text_option js.text
          (coalesce (member (some c) "expires_at") (member (some c) "expiresAt")));
  }

  -- `if (!c?.type || !c?.title || !c?.description) return null`
  unfoldable pub card_fields :
      Json → (type title description : Option Json) → Option CreateActionCardDto
  card_fields c (some type) (some title) (some description) =
      if is_truthy (some type) && is_truthy (some title) && is_truthy (some description)
      then some (card_dto type title description c)
      else none
  card_fields c _ _ _ = none

  unfoldable pub normalize_card : Json → Option CreateActionCardDto
  unfolding card_fields
  normalize_card c =
      card_fields c (member (some c) "type") (member (some c) "title")
        (member (some c) "description")

  -- `rawCards.map(normalizeCard).filter(c => !!c)`
  unfoldable pub normalize_cards : List Json → List CreateActionCardDto
  unfolding normalize_card
  normalize_cards [] = []
  normalize_cards (c ∷ cs) =
      let rest = normalize_cards cs in
      elim (normalize_card c) [ none ↦ rest | some dto ↦ dto ∷ rest ]

  module _ (service : String → Request → Option Json) (orm : Client) (iso : ℕ → String) where
    -- The write of a score; the error of a user that is not found is swallowed.
    unfoldable pub write_score : (user_id : ℕ) → Result Json → List ScoredUser → List ScoredUser
    unfolding extract_numeric
    write_score user_id (err e) users = users
    write_score user_id (ok response) users = elim (extract_numeric (score_of response)) [
      | none ↦ users
      | some score ↦
          (update orm scored_users (having (λ u. u.id == user_id))
            (λ u. record u { financial_health_score = some score }) users).1
    ]

    unfoldable pub recompute_health_score :
        (cache : Cache)
        → Outages
        → (user_id now : ℕ) → Tables
        → List ScoredUser × cache.Store
        → List ScoredUser × cache.Store
    unfolding write_score
    recompute_health_score cache outages user_id now db (users, store) =
        let (response, store') =
          get_health_score service orm iso user_id now db cache outages store in
        (write_score user_id response users, store')

    -- The sync of the cards that the answer holds, if any.
    unfoldable pub sync_cards :
        (user_id : ℕ) (fresh : ℕ → ℕ) (now : ℕ) → Result Json → List ActionCard → List ActionCard
    unfolding normalize_cards bulk_sync
    sync_cards user_id fresh now (err e) cards = cards
    sync_cards user_id fresh now (ok response) cards = elim (normalize_cards (raw_cards response)) [
      | [] ↦ cards
      | dto ∷ dtos ↦
          (bulk_sync orm user_id (record { cards = dto ∷ dtos; replace_pending = some true }) fresh
            now cards).1
    ]

    unfoldable pub regenerate_action_cards :
        (user_id : ℕ) (fresh : ℕ → ℕ) (now : ℕ) → Tables → List ActionCard → List ActionCard
    unfolding sync_cards
    regenerate_action_cards user_id fresh now db cards =
        sync_cards user_id fresh now (generate_action_cards service orm iso user_id now db) cards

    module _ (cache : Cache) (outages : Outages) (user_id : ℕ) (fresh : ℕ → ℕ) (now : ℕ) where
      -- The two recomputations, which touch different tables, and the invalidation after them.
      unfoldable pub heavy : State cache.Store → State cache.Store
      unfolding recompute_health_score regenerate_action_cards invalidate_user
      heavy s =
          let (users, store) =
            recompute_health_score cache outages user_id now s.tables (s.users, s.store) in
          record s {
            users = users;
            cards = regenerate_action_cards user_id fresh now s.tables s.cards;
            store = invalidate_user cache outages user_id store;
          }

      -- `await this.cache.set(cooldownKey, '1', this.heavyCooldownSeconds)`
      unfoldable pub hold : cache.Store → cache.Store
      hold = cache.set now (Key.cooldown user_id) (Json.str "1") heavy_cooldown_seconds

      -- From the cooldown on; a read or write of the cache that throws ends the call.
      unfoldable pub cool_down : State cache.Store → Result Unit × State cache.Store
      unfolding heavy hold
      cool_down s =
          if outages.get_fails
          then (err internal, s)
          else if is_truthy (cache.get now (Key.cooldown user_id) s.store)
          then (ok tt, s)
          else if outages.set_fails
          then (err internal, s)
          else (ok tt, heavy (record s { store = hold s.store }))

      abbrev pub tagged : (transaction_id : ℕ) → State cache.Store → State cache.Store
      tagged transaction_id s =
          let rows =
            tag_behavior js.text orm service iso user_id transaction_id now
              s.tables.transaction_rows in
          record s { tables = record s.tables { transaction_rows = rows } }

      unfoldable pub enrich :
          (transaction_id : ℕ) → State cache.Store → Result Unit × State cache.Store
      unfolding tag_behavior cool_down
      enrich transaction_id s = cool_down (tagged transaction_id s)
