-- ===== src/Tests/Ai.antt =====
-- The AI proxy, the enrichment and the message parser at concrete inputs.
use money_management_app.Prelude.{
  str_eq, eq_iff, ℕ, zero, suc, ◌+◌, ◌≤◌, ◌<◌, ◌≡◌, ◌≢◌, refl, sym, ap, ◌∙◌, Bool, true, false,
  ◌&&◌, Option, none, some, String, [], ◌∷◌, map, take, ◌==◌, ==_refl, ltb, if◌then◌else◌,
  Bool-cases, inl, inr, arith, ok,
}
use money_management_app.Prelude.Int.{pos}
use money_management_app.Orm.SoftDelete.{
  is_soft_delete_model, is_read_action, is_write_action, with_live, on_read_or_write, middleware,
}
use money_management_app.Orm.Query.{reach, find_all}
use money_management_app.Orm.Cursor.{page_after}
use money_management_app.Ai.Json.{Json, is_truthy, Items, Fields}
use money_management_app.Ai.Cache.{Key, Cache, all_up, with_cache, invalidate_user}
use money_management_app.Ai.Ttl
use money_management_app.Ai.Context.{
  Tables, build_user_context, fetch_rows, fetch_pages, fetch_subscriptions, fetch_budgets,
  fetch_goals, fetch_transactions, view_transaction, tx_hard_cap,
}
use money_management_app.Ai.Paging.{recent, fetch_transactions_complete}
use money_management_app.Ai.Freshness.{with_cache-remembers, invalidate_user-fresh}
use money_management_app.Ai.Proxy.{
  call_ai, Request, fresh_dashboard, fresh_health_score, fresh_leaks, fresh_archetype,
  get_dashboard, get_health_score, get_leaks, get_archetype, analyze_behavior,
}
use money_management_app.Ai.Tagging.{entered, tag_behavior, tag_behavior-entered}
use money_management_app.Ai.Enrichment.{State, Conversions, write_score, recompute_health_score}
use money_management_app.Ai.Cooldown.{
  enrich_at, tagged_at, heavy_at, enrich-window, recompute_health_score-stale,
}
use money_management_app.Tests.Data.{list_client, ledger, late_noon}

-- A key as three numbers.
abbrev tag_of : Key → ℕ
tag_of (Key.dashboard u) = 0
tag_of (Key.health_score u) = 1
tag_of (Key.leaks u) = 2
tag_of (Key.archetype u) = 3
tag_of (Key.cooldown u) = 4
tag_of (Key.behavior u d) = 5
tag_of (Key.detection u m) = 6

abbrev user_of : Key → ℕ
user_of (Key.dashboard u) = u
user_of (Key.health_score u) = u
user_of (Key.leaks u) = u
user_of (Key.archetype u) = u
user_of (Key.cooldown u) = u
user_of (Key.behavior u d) = u
user_of (Key.detection u m) = u

abbrev days_of : Key → ℕ
days_of (Key.behavior u d) = d
days_of k = 0

abbrev merchant_of : Key → String
merchant_of (Key.detection u m) = m
merchant_of k = ""

abbrev key_of : (tag user days : ℕ) (merchant : String) → Key
key_of zero u d m = Key.dashboard u
key_of (suc zero) u d m = Key.health_score u
key_of (suc (suc zero)) u d m = Key.leaks u
key_of (suc (suc (suc zero))) u d m = Key.archetype u
key_of (suc (suc (suc (suc zero)))) u d m = Key.cooldown u
key_of (suc (suc (suc (suc (suc zero))))) u d m = Key.behavior u d
key_of (suc (suc (suc (suc (suc (suc n)))))) u d m = Key.detection u m

key_of-parts : (k : Key) → key_of (tag_of k) (user_of k) (days_of k) (merchant_of k) ≡ k
key_of-parts (Key.dashboard u) = refl
key_of-parts (Key.health_score u) = refl
key_of-parts (Key.leaks u) = refl
key_of-parts (Key.archetype u) = refl
key_of-parts (Key.cooldown u) = refl
key_of-parts (Key.behavior u d) = refl
key_of-parts (Key.detection u m) = refl

abbrev same_key : Key → Key → Bool
same_key k l =
    (tag_of k == tag_of l)
    && (user_of k == user_of l)
    && (days_of k == days_of l)
    && str_eq (merchant_of k) (merchant_of l)

same_key_refl : (k : Key) → same_key k k ≡ true
same_key_refl k = ground (
  arith,
  ==_refl (tag_of k),
  ==_refl (user_of k),
  ==_refl (days_of k),
  (eq_iff (merchant_of k) (merchant_of k)).1 refl,
)

same_key-eq : (k l : Key) → same_key k l ≡ true → k ≡ l
same_key-eq k l h =
    let t : tag_of k ≡ tag_of l = ground arith in
    let u : user_of k ≡ user_of l = ground arith in
    let d : days_of k ≡ days_of l = ground arith in
    let b : str_eq (merchant_of k) (merchant_of l) ≡ true = ground arith in
    sym (key_of-parts k)
    ∙ ap (λ n. key_of n (user_of k) (days_of k) (merchant_of k)) t
    ∙ ap (λ n. key_of (tag_of l) n (days_of k) (merchant_of k)) u
    ∙ ap (λ n. key_of (tag_of l) (user_of l) n (merchant_of k)) d
    ∙ ap (λ n. key_of (tag_of l) (user_of l) (days_of l) n)
        ((eq_iff (merchant_of k) (merchant_of l)).0 b)
    ∙ key_of-parts l

other_key : (k l : Key) → k ≢ l → same_key k l ≡ false
other_key k l ne = elim (Bool-cases (same_key k l)) [
  | inl e ↦ absurd (ne (same_key-eq k l e))
  | inr e ↦ e
]

-- A value and the time at which it expires.
record Held : Type 0 where
  value : Json
  until : ℕ

abbrev Memory : Type 0
Memory = Key → Option Held

abbrev alive : (now : ℕ) → Option Held → Option Json
alive now none = none
alive now (some h) = if ltb now h.until then some h.value else none

abbrev remember : (now : ℕ) → Key → Json → (ttl : ℕ) → Memory → Memory
remember now k v ttl m =
    λ l. if same_key k l then some (record { value = v; until = now + ttl }) else m l

abbrev forget : Key → Memory → Memory
forget k m = λ l. if same_key k l then none else m l

alive-remember :
    (now later : ℕ) (k : Key) (v : Json) (ttl : ℕ) (m : Memory)
    → now ≤ later
    → later < now + ttl
    → alive later (remember now k v ttl m k) ≡ some v
alive-remember now later k v ttl m le lt =
    rw (same_key_refl k) (ap (λ b. if b then some v else none) (soon))
  where
    soon : ltb later (now + ttl) ≡ true
    soon = ground arith

abbrev memory : Cache
memory = record {
  Store = Memory;
  get = λ now k m. alive now (m k);
  set = remember;
  del = forget;
  get-set = alive-remember;
  get-set_other = λ now later k l v ttl m ne. rw (other_key k l ne);
  get-del = λ now k m. rw (same_key_refl k);
  get-del_other = λ now k l m ne. rw (other_key k l ne);
}

abbrev iso : ℕ → String
iso t = "1970-01-01T00:00:00.000Z"

abbrev answers : String → Request → Option Json
answers path body = some (Json.num (pos 7))

abbrev tables : Tables
tables = record {
  transaction_rows = ledger;
  subscription_rows = [];
  budget_rows = [];
  goal_rows = [];
}

abbrev empty : Memory
empty = λ k. none

fetch_transactions_complete_example :
    fetch_transactions list_client iso 7 30 late_noon ledger
    ≡ some
        (map (view_transaction iso) (take tx_hard_cap (recent list_client 7 30 late_noon ledger)))
fetch_transactions_complete_example =
    fetch_transactions_complete list_client 7 30 late_noon ledger iso
      (((λ e. cc), ((λ e. cc), tt)), (((λ e. cc), tt), (tt, tt)))

with_cache-remembers_example :
    (with_cache memory all_up 50_000
      (Key.leaks 7)
      Ttl.leaks
      (ok Json.null)
      (with_cache memory all_up 1000 (Key.leaks 7) Ttl.leaks (ok (Json.num (pos 3))) empty).1).0
    ≡ ok (Json.num (pos 3))
with_cache-remembers_example =
    with_cache-remembers memory all_up 1000 50_000 (Key.leaks 7) Ttl.leaks (Json.num (pos 3))
      (ok Json.null) empty refl refl refl refl (omega arith) (omega arith)

abbrev stale : Memory
stale = remember 0 (Key.health_score 7) (Json.num (pos 3)) 300_000 empty

invalidate_user-fresh_example :
    let t = invalidate_user memory all_up 7 stale in
    ((get_dashboard answers list_client iso 7 5 tables memory all_up t).0
      ≡ fresh_dashboard answers list_client iso 7 5 tables)
    × ((get_health_score answers list_client iso 7 5 tables memory all_up t).0
        ≡ fresh_health_score answers list_client iso 7 5 tables)
    × ((get_leaks answers list_client iso 7 5 tables memory all_up t).0
        ≡ fresh_leaks answers list_client iso 7 5 tables)
    × ((get_archetype answers list_client iso 7 5 tables memory all_up t).0
        ≡ fresh_archetype answers list_client iso 7 5 tables)
    × ((analyze_behavior answers list_client iso 7 5 tables memory all_up 30 t).0
        ≡ (analyze_behavior answers list_client iso 7 5 tables memory all_up 30 stale).0)
invalidate_user-fresh_example =
    invalidate_user-fresh answers list_client iso 7 5 tables memory 30 stale

-- The service flags the first payment as an impulse.
abbrev flags : String → Request → Option Json
flags path body = some (
    Json.obj (
      Fields.field "transactions"
        (Json.arr
          (Items.cons (Json.obj (Fields.field "isImpulse" (Json.bool true) Fields.end)) Items.nil))
        Fields.end))

abbrev text : Json → String
text j = "?"

tag_behavior-entered_example :
    map entered (tag_behavior text list_client flags iso 7 1 late_noon ledger) ≡ map entered ledger
tag_behavior-entered_example = tag_behavior-entered text list_client flags iso 7 1 late_noon ledger

abbrev js : Conversions
js = record { text = text; parse_float = λ s. none; date = λ s. 0 }

abbrev state : State Memory
state = record {
  tables = tables;
  users = record { id = 7; financial_health_score = none; deleted_at = none } ∷ [];
  cards = [];
  store = empty;
}

abbrev fresh_id : ℕ → ℕ
fresh_id n = n + 100

enrich-window_example :
    let s1 = (enrich_at js answers list_client iso memory 7 fresh_id 1000 1 state).1 in
    let stored = memory.set 1000 (Key.cooldown 7) (Json.str "1") 60 state.store in
    (s1
      ≡ heavy_at js answers list_client iso memory 7 fresh_id 1000
          (tagged_at js answers list_client iso memory 7 fresh_id 1000 1 state))
    × ((enrich_at js answers list_client iso memory 7 fresh_id 1050 3 s1).1 ≡ (
        if is_truthy (memory.get 1050 (Key.cooldown 7) stored)
        then tagged_at js answers list_client iso memory 7 fresh_id 1050 3 s1
        else heavy_at js answers list_client iso memory 7 fresh_id 1050
            (tagged_at js answers list_client iso memory 7 fresh_id 1050 3 s1)))
enrich-window_example =
    enrich-window js answers list_client iso memory 7 fresh_id 1000 1050 1 3 state refl

recompute_health_score-stale_example :
    let asked = (get_health_score answers list_client iso 7 1000 tables memory all_up empty).1 in
    (recompute_health_score js
      (λ path body. none)
      list_client
      iso
      memory
      all_up
      7
      200_000
      tables
      (state.users, asked)).0
    ≡ write_score js (λ path body. none) list_client iso 7 (ok (Json.num (pos 7))) state.users
unfolding build_user_context fetch_transactions fetch_rows fetch_pages fetch_subscriptions
    fetch_budgets fetch_goals page_after find_all reach middleware on_read_or_write with_live
    is_soft_delete_model is_read_action is_write_action call_ai
recompute_health_score-stale_example =
    recompute_health_score-stale js (λ path body. none) list_client iso memory 7 fresh_id answers
      1000 200_000 tables tables state.users empty (Json.num (pos 7)) refl refl refl (omega arith)
      (omega arith)
