-- ===== src/Ai/Cooldown.antt =====
-- How often the recomputations of transaction-enrichment.service.ts run, and on which answers.
use money_management_app.Prelude.{
  ℕ, ◌+◌, ◌*◌, ◌≤◌, ◌<◌, true, false, ◌≡◌, refl, ap, ◌∙◌, ◌≢◌, Option, none, some, String, List,
  if◌then◌else◌, Result, ok, err, Option-cases, Bool-cases, inl, inr,
}
use money_management_app.Orm.Client.{Client}
use money_management_app.Ai.Json.{Json, is_truthy}
use money_management_app.Ai.Cache.{
  Key, Cache, all_up, cached, non_null, after_miss, put, with_cache, drop_key, invalidate_user,
}
use money_management_app.Ai.Ttl
use money_management_app.Ai.Context.{Tables}
use money_management_app.Ai.Proxy.{Request, get_health_score, fresh_health_score}
use money_management_app.Ai.Enrichment.{
  State, ScoredUser, Conversions, write_score, recompute_health_score, heavy, hold, cool_down,
  tagged, enrich,
}
use money_management_app.Ai.Freshness.{with_cache_hit, with_cache_miss, with_cache-remembers}

module _ (cache : Cache) where
  -- A read-through call touches its own key only.
  with_cache-other :
      (now t : ℕ) (key l : Key) (ttl_seconds : ℕ) (r : Result Json) (s : cache.Store)
      → key ≢ l
      → cache.get t l (with_cache cache all_up now key ttl_seconds r s).1 ≡ cache.get t l s
  unfolding put
  with_cache-other now t key l ttl_seconds r s ne =
      elim (Option-cases (cached cache all_up now key s)) [
        | inl missed ↦
            ap (λ x. cache.get t l (x.1))
              (with_cache_miss cache all_up now key ttl_seconds r s missed)
            ∙ stored r
        | inr (v, found) ↦
            ap (λ x. cache.get t l (x.1))
              (with_cache_hit cache all_up now key ttl_seconds r v s found)
      ]
    where
      stored :
          (x : Result Json)
          → cache.get t l (after_miss cache all_up now key ttl_seconds x s).1 ≡ cache.get t l s
      stored (err e) = refl
      stored (ok v) = cache.get-set_other now t key l v (ttl_seconds * 1000) s ne

  invalidate_user-cooldown :
      (user_id t : ℕ) (s : cache.Store)
      → cache.get t (Key.cooldown user_id) (invalidate_user cache all_up user_id s)
        ≡ cache.get t (Key.cooldown user_id) s
  unfolding invalidate_user drop_key
  invalidate_user-cooldown user_id t s =
      let k = Key.cooldown user_id in
      rw (
        cache.get-del_other t (Key.archetype user_id) k _ (λ e. cc),
        cache.get-del_other t (Key.leaks user_id) k _ (λ e. cc),
        cache.get-del_other t (Key.health_score user_id) k _ (λ e. cc),
        cache.get-del_other t (Key.dashboard user_id) k _ (λ e. cc),
      )

module _ (js : Conversions) (service : String → Request → Option Json) (orm : Client)
    (iso : ℕ → String) (cache : Cache) (user_id : ℕ) (fresh : ℕ → ℕ) where
  abbrev pub enrich_at :
      (now transaction_id : ℕ) → State cache.Store → Result Unit × State cache.Store
  enrich_at now transaction_id s =
      enrich js service orm iso cache all_up user_id fresh now transaction_id s

  abbrev pub tagged_at : (now transaction_id : ℕ) → State cache.Store → State cache.Store
  tagged_at now transaction_id s =
      tagged js service orm iso cache all_up user_id fresh now transaction_id s

  -- The recomputations at a time, with the cooldown held.
  abbrev pub heavy_at : (now : ℕ) → State cache.Store → State cache.Store
  heavy_at now s =
      heavy js service orm iso cache all_up user_id fresh now
        (record s { store = hold js service orm iso cache all_up user_id fresh now s.store })

  cooldown_after :
      (now t : ℕ) (s : State cache.Store)
      → cache.get t (Key.cooldown user_id) (heavy_at now s).store
        ≡ cache.get t
            (Key.cooldown user_id)
            (cache.set now (Key.cooldown user_id) (Json.str "1") 60 s.store)
  unfolding heavy hold recompute_health_score get_health_score
  cooldown_after now t s =
      invalidate_user-cooldown cache user_id t _
      ∙ with_cache-other cache now t (Key.health_score user_id) (Key.cooldown user_id)
          Ttl.health_score _ _ (λ e. cc)

  enrich_free :
      (now transaction_id : ℕ) (s : State cache.Store)
      → cache.get now (Key.cooldown user_id) s.store ≡ none
      → (enrich_at now transaction_id s).1 ≡ heavy_at now (tagged_at now transaction_id s)
  unfolding enrich cool_down
  enrich_free now transaction_id s e = rw (e, enrich, cool_down)

  enrich_free_of :
      (now transaction_id : ℕ) (s : State cache.Store)
      → is_truthy (cache.get now (Key.cooldown user_id) s.store) ≡ false
      → (enrich_at now transaction_id s).1 ≡ heavy_at now (tagged_at now transaction_id s)
  unfolding enrich cool_down
  enrich_free_of now transaction_id s e = rw (e, enrich, cool_down)

  enrich_held :
      (now transaction_id : ℕ) (s : State cache.Store)
      → is_truthy (cache.get now (Key.cooldown user_id) s.store) ≡ true
      → (enrich_at now transaction_id s).1 ≡ tagged_at now transaction_id s
  unfolding enrich cool_down
  enrich_held now transaction_id s e = rw (e, enrich, cool_down)

  -- Of two enrichments for one user, the first of which found no cooldown, both tag their transaction and the
  -- first recomputes the score and the cards; the second does so exactly if the cache does not return the
  -- cooldown any more that the first has stored, whatever it has stored and deleted since, if all calls of
  -- the cache succeed.
  pub enrich-window :
      (now later first second : ℕ) (s : State cache.Store)
      → cache.get now (Key.cooldown user_id) s.store ≡ none
      → let s1 = (enrich_at now first s).1 in
        let stored = cache.set now (Key.cooldown user_id) (Json.str "1") 60 s.store in
        (s1 ≡ heavy_at now (tagged_at now first s))
        × ((enrich_at later second s1).1 ≡ (
            if is_truthy (cache.get later (Key.cooldown user_id) stored)
            then tagged_at later second s1
            else heavy_at later (tagged_at later second s1)))
  enrich-window now later first second s free =
      let s1 = (enrich_at now first s).1 in
      let stored = cache.set now (Key.cooldown user_id) (Json.str "1") 60 s.store in
      let kept : cache.get later (Key.cooldown user_id) s1.store
          ≡ cache.get later (Key.cooldown user_id) stored =
        ap (λ (x : State cache.Store). cache.get later (Key.cooldown user_id) x.store)
          (enrich_free now first s free)
        ∙ cooldown_after now later (tagged_at now first s) in
      (
        enrich_free now first s free,
        elim (Bool-cases (is_truthy (cache.get later (Key.cooldown user_id) stored))) [
          | inl held ↦ rw held (enrich_held later second s1 (ap is_truthy kept ∙ held))
          | inr gone ↦ rw gone (enrich_free_of later second s1 (ap is_truthy kept ∙ gone))
        ],
      )

  -- A health score that was answered less than 300 seconds before is what the recomputation writes: what the AI
  -- service would answer now, and the data it would be asked about, do not matter.
  pub recompute_health_score-stale :
      (before : String → Request → Option Json) (now later : ℕ) (db later_db : Tables)
      → (users : List ScoredUser) (store : cache.Store) (v : Json)
      → cached cache all_up now (Key.health_score user_id) store ≡ none
      → fresh_health_score before orm iso user_id now db ≡ ok v
      → non_null (some v) ≡ some v
      → now ≤ later
      → later < now + 300 * 1000
      → let asked = (get_health_score before orm iso user_id now db cache all_up store).1 in
        (recompute_health_score js service orm iso cache all_up user_id later later_db
          (users, asked)).0
        ≡ write_score js service orm iso user_id (ok v) users
  unfolding recompute_health_score get_health_score
  recompute_health_score-stale before now later db later_db users store v missed answer plain le
        lt =
      rw answer (
        ap (λ r. write_score js service orm iso user_id r users)
          (with_cache-remembers cache all_up now later (Key.health_score user_id) Ttl.health_score v
            (fresh_health_score service orm iso user_id later later_db) store missed plain refl refl
            le lt))
