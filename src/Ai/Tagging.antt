-- ===== src/Ai/Tagging.antt =====
-- tagBehavior of backend/src/modules/ai-proxy/transaction-enrichment.service.ts: the flags that the
-- AI service gives one transaction.
use money_management_app.Prelude.{
  ℕ, ◌≡◌, refl, Bool, false, ◌&&◌, not, Option, none, some, String, List, map, ◌==◌, if◌then◌else◌,
  or_else, or_option, is_none, truthy, Result, ok, err, Option-cases, inl, inr, Bool-cases,
}
use money_management_app.Prelude.Int.{ℤ}
use money_management_app.Orm.Client.{Client}
use money_management_app.Orm.Query.{having, live, find_first, update}
use money_management_app.Orm.Columns.{map-update}
use money_management_app.Transactions.Schema.{Transaction, transactions}
use money_management_app.Transactions.Service.{is_owned}
use money_management_app.Ai.Json.{
  Json, member, first_item, coalesce, is_truthy, as_bool, as_number, to_text,
}
use money_management_app.Ai.Proxy.{Request, call_ai}

-- The `update` object, a missing key being `none`.
pub record TagUpdate : Type 0 where
  pub is_impulse : Option Bool
  pub is_late_night : Option Bool
  pub is_weekend : Option Bool
  pub ai_suggested_category : Option String
  pub ai_confidence : Option ℤ

-- `Object.keys(update).length === 0`
abbrev pub is_empty : TagUpdate → Bool
is_empty u =
    is_none u.is_impulse
    && is_none u.is_late_night
    && is_none u.is_weekend
    && is_none u.ai_suggested_category
    && is_none u.ai_confidence

-- The columns that a `findMany` of the user's own data returns stay as they are.
unfoldable pub apply_tags : TagUpdate → (now : ℕ) → Transaction → Transaction
apply_tags u now t = record t {
  is_impulse = or_else u.is_impulse t.is_impulse;
  is_late_night = or_else u.is_late_night t.is_late_night;
  is_weekend = or_else u.is_weekend t.is_weekend;
  ai_suggested_category = or_option u.ai_suggested_category t.ai_suggested_category;
  ai_confidence = or_option u.ai_confidence t.ai_confidence;
  updated_at = now;
}

-- `response?.data?.transactions?.[0] ?? response?.transactions?.[0]`
abbrev pub tagged_of : Json → Option Json
tagged_of response =
    coalesce (first_item (member (member (some response) "data") "transactions"))
      (first_item (member (some response) "transactions"))

module _ (text : Json → String) where
  -- `if (tagged.category && !tx.aiSuggestedCategory)`
  abbrev pub suggestion : Option Json → Transaction → Option String
  suggestion none t = none
  suggestion (some j) t =
      if is_truthy (some j) && not (truthy t.ai_suggested_category)
      then some (to_text text j)
      else none

  unfoldable pub tag_update : Json → Transaction → TagUpdate
  tag_update tagged t = record {
    is_impulse = as_bool (member (some tagged) "isImpulse");
    is_late_night = as_bool (member (some tagged) "isLateNight");
    is_weekend = as_bool (member (some tagged) "isWeekend");
    ai_suggested_category = suggestion (member (some tagged) "category") t;
    ai_confidence =
        if is_none t.ai_confidence then as_number (member (some tagged) "impulseScore") else none;
  }

  module _ (orm : Client) where
    -- The write, unless there is nothing to write.
    unfoldable pub write_tags : (now id : ℕ) → TagUpdate → List Transaction → List Transaction
    unfolding apply_tags
    write_tags now id u rows =
        if is_empty u
        then rows
        else (update orm transactions (having (λ t. t.id == id)) (apply_tags u now) rows).1

    -- What is done with the answer of the service.
    unfoldable pub answered :
        (now : ℕ) → Transaction → List Transaction → Result Json → List Transaction
    unfolding write_tags tag_update
    answered now t rows (err e) = rows
    answered now t rows (ok response) = elim (tagged_of response) [
      | none ↦ rows
      | some tagged ↦
          if is_truthy (some tagged) then write_tags now t.id (tag_update tagged t) rows else rows
    ]

    module _ (service : String → Request → Option Json) (iso : ℕ → String) where
      unfoldable pub ask_tags : Transaction → Result Json
      unfolding call_ai
      ask_tags t = call_ai service "/behavior/tag-transactions" (
          Request.tag t.id t.amount t.type t.category_id t.merchant_name t.description
            (iso t.transaction_date) t.source)

      -- The call, once the transaction has been looked for.
      unfoldable pub tag_found :
          (now : ℕ) → List Transaction → Option Transaction → List Transaction
      unfolding answered ask_tags
      tag_found now rows none = rows
      tag_found now rows (some t) = answered now t rows (ask_tags t)

      unfoldable pub tag_behavior :
          (user_id transaction_id now : ℕ) → List Transaction → List Transaction
      unfolding tag_found
      tag_behavior user_id transaction_id now rows =
          tag_found now rows
            (find_first orm transactions (live transactions (is_owned user_id transaction_id)) rows)

-- A transaction but for its tags and the time of its last update.
abbrev pub entered : Transaction → Transaction
entered t = record t {
  is_impulse = false;
  is_late_night = false;
  is_weekend = false;
  ai_suggested_category = none;
  ai_confidence = none;
  updated_at = 0;
}

module _ (text : Json → String) (orm : Client) where
  write_tags-entered :
      (now id : ℕ) (u : TagUpdate) (rows : List Transaction)
      → map entered (write_tags text orm now id u rows) ≡ map entered rows
  unfolding write_tags apply_tags
  write_tags-entered now id u rows = elim (Bool-cases (is_empty u)) [
    | inl e ↦ rw (e, write_tags)
    | inr e ↦
        rw (e, write_tags)
          (map-update orm transactions (having (λ t. t.id == id)) entered (apply_tags u now) rows
            (λ t. refl))
  ]

  answered-entered :
      (now : ℕ) (t : Transaction) (rows : List Transaction) (r : Result Json)
      → map entered (answered text orm now t rows r) ≡ map entered rows
  unfolding answered
  answered-entered now t rows (err e) = refl
  answered-entered now t rows (ok response) = elim (Option-cases (tagged_of response)) [
    | inl e ↦ rw (e, answered)
    | inr (tagged, e) ↦ elim (Bool-cases (is_truthy (some tagged))) [
      | inl yes_ ↦
          rw (e, answered) (rw yes_ (write_tags-entered now t.id (tag_update text tagged t) rows))
      | inr no_ ↦ rw (e, answered) (rw no_)
    ]
  ]

  tag_found-entered :
      (service : String → Request → Option Json) (iso : ℕ → String)
      → (now : ℕ) (rows : List Transaction) (found : Option Transaction)
      → map entered (tag_found text orm service iso now rows found) ≡ map entered rows
  unfolding tag_found
  tag_found-entered service iso now rows none = refl
  tag_found-entered service iso now rows (some t) =
      answered-entered now t rows (ask_tags text orm service iso t)

  -- Whatever the AI service answers, tagging changes nothing of any transaction but the three flags, the
  -- suggested category with its confidence and the time of the last update, and keeps their order.
  pub tag_behavior-entered :
      (service : String → Request → Option Json) (iso : ℕ → String)
      → (user_id transaction_id now : ℕ) (rows : List Transaction)
      → map entered (tag_behavior text orm service iso user_id transaction_id now rows)
        ≡ map entered rows
  unfolding tag_behavior
  tag_behavior-entered service iso user_id transaction_id now rows =
      tag_found-entered service iso now rows
        (find_first orm transactions (live transactions (is_owned user_id transaction_id)) rows)
