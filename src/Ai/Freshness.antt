-- ===== src/Ai/Freshness.antt =====
-- How old the answers are that the cached methods return.
use money_management_app.Prelude.{
  ℕ, ◌+◌, ◌*◌, ◌≤◌, ◌<◌, ◌≡◌, refl, sym, ap, ◌∙◌, true, false, Option, none, some, String, Result,
  ok, err, Option-cases, inl, inr,
}
use money_management_app.Orm.Client.{Client}
use money_management_app.Ai.Json.{Json}
use money_management_app.Ai.Cache.{
  Key, Cache, Outages, all_up, non_null, cached, after_miss, put, with_cache, drop_key,
  invalidate_user,
}
use money_management_app.Ai.Context.{Tables}
use money_management_app.Ai.Ttl
use money_management_app.Ai.Proxy.{
  Request, fresh_dashboard, fresh_health_score, fresh_leaks, fresh_archetype, get_dashboard,
  get_health_score, get_leaks, get_archetype, analyze_behavior,
}

module _ (cache : Cache) where
  pub with_cache_miss :
      (outages : Outages) (now : ℕ) (key : Key) (ttl_seconds : ℕ) (fresh : Result Json)
      → (store : cache.Store) → cached cache outages now key store ≡ none
      → with_cache cache outages now key ttl_seconds fresh store
        ≡ after_miss cache outages now key ttl_seconds fresh store
  unfolding with_cache
  with_cache_miss outages now key ttl_seconds fresh store e = rw (e, with_cache)

  pub with_cache_hit :
      (outages : Outages) (now : ℕ) (key : Key) (ttl_seconds : ℕ) (fresh : Result Json) (v : Json)
      → (store : cache.Store) → cached cache outages now key store ≡ some v
      → with_cache cache outages now key ttl_seconds fresh store ≡ (ok v, store)
  unfolding with_cache
  with_cache_hit outages now key ttl_seconds fresh v store e = rw (e, with_cache)

  -- While reads of the cache throw, the answer is that of the call itself.
  pub with_cache-down :
      (outages : Outages) (now : ℕ) (key : Key) (ttl_seconds : ℕ) (fresh : Result Json)
      → (store : cache.Store) → outages.get_fails ≡ true
      → (with_cache cache outages now key ttl_seconds fresh store).0 ≡ fresh
  with_cache-down outages now key ttl_seconds fresh store down =
      let missed : cached cache outages now key store ≡ none = rw down in
      ap (λ r. r.0) (with_cache_miss outages now key ttl_seconds fresh store missed) ∙ answer fresh
    where
      answer : (r : Result Json) → (after_miss cache outages now key ttl_seconds r store).0 ≡ r
      answer (ok v) = refl
      answer (err e) = refl

  -- An answer other than null that the call gave after a miss is returned again, without a call, until its
  -- time to live in seconds has passed, if the cache takes the write and the later read.
  pub with_cache-remembers :
      (outages : Outages) (now later : ℕ) (key : Key) (ttl_seconds : ℕ) (v : Json)
      → (again : Result Json) (store : cache.Store) → cached cache outages now key store ≡ none
      → non_null (some v) ≡ some v
      → outages.get_fails ≡ false
      → outages.set_fails ≡ false
      → now ≤ later
      → later < now + ttl_seconds * 1000
      → (with_cache cache outages later key ttl_seconds again
          (with_cache cache outages now key ttl_seconds (ok v) store).1).0
        ≡ ok v
  unfolding put
  with_cache-remembers outages now later key ttl_seconds v again store missed plain up writes le
        lt =
      let stored = cache.set now key v (ttl_seconds * 1000) store in
      let kept : (with_cache cache outages now key ttl_seconds (ok v) store).1 ≡ stored =
        ap (λ r. r.1) (with_cache_miss outages now key ttl_seconds (ok v) store missed)
        ∙ rw writes in
      let hit : cached cache outages later key stored ≡ some v =
        rw (up, cache.get-set now later key v (ttl_seconds * 1000) store le lt) plain in
      rw kept (ap (λ r. r.0) (with_cache_hit outages later key ttl_seconds again v stored hit))

  module _ (user_id now : ℕ) (s : cache.Store) where
    abbrev after : cache.Store
    after = invalidate_user cache all_up user_id s

    no_archetype : cached cache all_up now (Key.archetype user_id) after ≡ none
    unfolding invalidate_user drop_key
    no_archetype = rw (cache.get-del)

    no_leaks : cached cache all_up now (Key.leaks user_id) after ≡ none
    unfolding invalidate_user drop_key
    no_leaks = rw (
      cache.get-del_other now (Key.archetype user_id) (Key.leaks user_id) _ (λ e. cc),
      cache.get-del,
    )

    no_health_score : cached cache all_up now (Key.health_score user_id) after ≡ none
    unfolding invalidate_user drop_key
    no_health_score = rw (
      cache.get-del_other now (Key.archetype user_id) (Key.health_score user_id) _ (λ e. cc),
      cache.get-del_other now (Key.leaks user_id) (Key.health_score user_id) _ (λ e. cc),
      cache.get-del,
    )

    no_dashboard : cached cache all_up now (Key.dashboard user_id) after ≡ none
    unfolding invalidate_user drop_key
    no_dashboard = rw (
      cache.get-del_other now (Key.archetype user_id) (Key.dashboard user_id) _ (λ e. cc),
      cache.get-del_other now (Key.leaks user_id) (Key.dashboard user_id) _ (λ e. cc),
      cache.get-del_other now (Key.health_score user_id) (Key.dashboard user_id) _ (λ e. cc),
      cache.get-del,
    )

    behavior_left :
        (days : ℕ)
        → cache.get now (Key.behavior user_id days) after
          ≡ cache.get now (Key.behavior user_id days) s
    unfolding invalidate_user drop_key
    behavior_left days = rw (
      cache.get-del_other now (Key.archetype user_id) (Key.behavior user_id days) _ (λ e. cc),
      cache.get-del_other now (Key.leaks user_id) (Key.behavior user_id days) _ (λ e. cc),
      cache.get-del_other now (Key.health_score user_id) (Key.behavior user_id days) _ (λ e. cc),
      cache.get-del_other now (Key.dashboard user_id) (Key.behavior user_id days) _ (λ e. cc),
    )

    -- Without a cached answer the result is the call's.
    fresh_answer :
        (key : Key) (ttl_seconds : ℕ) (r : Result Json)
        → cached cache all_up now key after ≡ none
        → (with_cache cache all_up now key ttl_seconds r after).0 ≡ r
    fresh_answer key ttl_seconds (ok v) e =
        ap (λ x. x.0) (with_cache_miss all_up now key ttl_seconds (ok v) after e)
    fresh_answer key ttl_seconds (err x) e =
        ap (λ y. y.0) (with_cache_miss all_up now key ttl_seconds (err x) after e)

  cached_answer :
      (now : ℕ) (key : Key) (ttl_seconds : ℕ) (r : Result Json) (s t : cache.Store)
      → cache.get now key s ≡ cache.get now key t
      → (with_cache cache all_up now key ttl_seconds r s).0
        ≡ (with_cache cache all_up now key ttl_seconds r t).0
  cached_answer now key ttl_seconds r s t e = elim (Option-cases (non_null (cache.get now key t))) [
    | inl missed ↦
        ap (λ x. x.0) (with_cache_miss all_up now key ttl_seconds r s (ap non_null e ∙ missed))
        ∙ same r
        ∙ sym (ap (λ x. x.0) (with_cache_miss all_up now key ttl_seconds r t missed))
    | inr (v, found) ↦
        ap (λ x. x.0) (with_cache_hit all_up now key ttl_seconds r v s (ap non_null e ∙ found))
        ∙ sym (ap (λ x. x.0) (with_cache_hit all_up now key ttl_seconds r v t found))
  ]
    where
      same :
          (x : Result Json)
          → (after_miss cache all_up now key ttl_seconds x s).0
            ≡ (after_miss cache all_up now key ttl_seconds x t).0
      same (ok v) = refl
      same (err x) = refl

-- After an invalidation whose deletes succeed, the dashboard, the health score, the leaks and the archetype
-- are answered by the AI service from the present data, while the behavior analysis of every period is
-- answered as it would have been before, from the cache if it is there.
pub invalidate_user-fresh :
    (service : String → Request → Option Json) (orm : Client) (iso : ℕ → String)
    → (user_id now : ℕ) (db : Tables) (cache : Cache) (days : ℕ) (s : cache.Store)
    → let t = invalidate_user cache all_up user_id s in
      ((get_dashboard service orm iso user_id now db cache all_up t).0
        ≡ fresh_dashboard service orm iso user_id now db)
      × ((get_health_score service orm iso user_id now db cache all_up t).0
          ≡ fresh_health_score service orm iso user_id now db)
      × ((get_leaks service orm iso user_id now db cache all_up t).0
          ≡ fresh_leaks service orm iso user_id now db)
      × ((get_archetype service orm iso user_id now db cache all_up t).0
          ≡ fresh_archetype service orm iso user_id now db)
      × ((analyze_behavior service orm iso user_id now db cache all_up days t).0
          ≡ (analyze_behavior service orm iso user_id now db cache all_up days s).0)
unfolding get_dashboard get_health_score get_leaks get_archetype analyze_behavior
invalidate_user-fresh service orm iso user_id now db cache days s = (
  fresh_answer cache user_id now s _ Ttl.dashboard _ (no_dashboard cache user_id now s),
  fresh_answer cache user_id now s _ Ttl.health_score _ (no_health_score cache user_id now s),
  fresh_answer cache user_id now s _ Ttl.leaks _ (no_leaks cache user_id now s),
  fresh_answer cache user_id now s _ Ttl.archetype _ (no_archetype cache user_id now s),
  cached_answer cache now _ Ttl.behavior _ _ s (behavior_left cache user_id now s days),
)
