-- ===== src/Ai/Cache.antt =====
-- The shared cache (cache-manager, a package, so a parameter) and the read-through helper withCache of
-- backend/src/modules/ai-proxy/ai-proxy.service.ts.
use money_management_app.Prelude.{
  ℕ, ◌+◌, ◌*◌, ◌≤◌, ◌<◌, ◌≡◌, ◌≢◌, Bool, false, String, Option, none, some, if◌then◌else◌, Result,
  ok, err,
}
use money_management_app.Ai.Json.{Json}

-- The keys, each a prefix with the id of a user: `ai:dashboard:<user>` and so on, and the cooldown key
-- of transaction-enrichment.service.ts and the detection key of rabbitmq.consumer.ts.
pub data Key : Type 0 where
  dashboard health_score leaks archetype cooldown : (user_id : ℕ) → Key
  behavior : (user_id period_days : ℕ) → Key
  detection : (user_id : ℕ) (merchant : String) → Key

-- What the services rely on: a value is returned for at least `ttl` milliseconds, and a write or a delete
-- touches its own key only. What a read returns after that time is left open, since the stores that the app
-- can be configured with take the time to live in different units.
pub record Cache : Type 1 where
  pub Store : Type 0
  pub get : (now : ℕ) → Key → Store → Option Json
  pub set : (now : ℕ) → Key → Json → (ttl : ℕ) → Store → Store
  pub del : Key → Store → Store
  pub get-set :
      (now later : ℕ) (k : Key) (v : Json) (ttl : ℕ) (s : Store)
      → now ≤ later
      → later < now + ttl
      → get later k (set now k v ttl s) ≡ some v
  pub get-set_other :
      (now later : ℕ) (k l : Key) (v : Json) (ttl : ℕ) (s : Store)
      → k ≢ l
      → get later l (set now k v ttl s) ≡ get later l s
  pub get-del : (now : ℕ) (k : Key) (s : Store) → get now k (del k s) ≡ none
  pub get-del_other : (now : ℕ) (k l : Key) (s : Store) → k ≢ l → get now l (del k s) ≡ get now l s

-- Which calls of the cache throw.
pub record Outages : Type 0 where
  pub get_fails : Bool
  pub set_fails : Bool
  pub del_fails : Key → Bool

abbrev pub all_up : Outages
all_up = record { get_fails = false; set_fails = false; del_fails = λ k. false }

-- The answer that the cache has; null counts as none.
abbrev pub non_null : Option Json → Option Json
non_null none = none
non_null (some Json.null) = none
non_null (some v) = some v

module _ (cache : Cache) (outages : Outages) where
  abbrev pub cached : (now : ℕ) → Key → cache.Store → Option Json
  cached now key store = if outages.get_fails then none else non_null (cache.get now key store)

  -- `await this.cache.set(key, value, ttlSeconds * 1000)`
  unfoldable pub put : (now : ℕ) → Key → Json → (ttl_seconds : ℕ) → cache.Store → cache.Store
  put now key value ttl_seconds store =
      if outages.set_fails then store else cache.set now key value (ttl_seconds * 1000) store

  -- After a miss: an error of the call is passed on, and an answer is stored.
  abbrev pub after_miss :
      (now : ℕ) → Key → (ttl_seconds : ℕ) → Result Json → cache.Store → Result Json × cache.Store
  after_miss now key ttl_seconds (err e) store = (err e, store)
  after_miss now key ttl_seconds (ok value) store = (ok value, put now key value ttl_seconds store)

  -- `fresh` is the outcome of `fn()`, which is only used after a miss.
  unfoldable pub with_cache :
      (now : ℕ)
      → Key
      → (ttl_seconds : ℕ) (fresh : Result Json) → cache.Store
      → Result Json × cache.Store
  unfolding put
  with_cache now key ttl_seconds fresh store = elim (cached now key store) [
    | some value ↦ (ok value, store)
    | none ↦ after_miss now key ttl_seconds fresh store
  ]

  -- `this.cache.del(k).catch(...)`
  unfoldable pub drop_key : Key → cache.Store → cache.Store
  drop_key key store = if outages.del_fails key then store else cache.del key store

  unfoldable pub invalidate_user : (user_id : ℕ) → cache.Store → cache.Store
  unfolding drop_key
  invalidate_user user_id store = drop_key (Key.archetype user_id) (
      drop_key (Key.leaks user_id)
        (drop_key (Key.health_score user_id) (drop_key (Key.dashboard user_id) store)))
