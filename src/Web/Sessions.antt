-- ===== src/Web/Sessions.antt =====
-- How often the proxy calls the backend, and what becomes of the session.
use money_management_app.Prelude.{
  ℕ, suc, ◌≤◌, ◌≡◌, ◌⊎◌, refl, true, false, ◌&&◌, Option, none, some, String, List, [], ◌∷◌, ◌==◌,
  truthy, or_else, inl, inr, arith, Bool-cases,
}
use money_management_app.Web.Proxy.{
  Method, is_proxied, Tokens, Reply, Call, Backend, Cookies, Response, attempt_refresh, after_retry,
  retry, after_fetch, attempt, after_refresh, handle,
}

-- The refreshes and the fetches among the calls.
abbrev pub refreshes : List Call → ℕ
refreshes [] = 0
refreshes (Call.refresh t ∷ cs) = suc (refreshes cs)
refreshes (Call.fetch t ∷ cs) = refreshes cs

abbrev pub fetches : List Call → ℕ
fetches [] = 0
fetches (Call.refresh t ∷ cs) = fetches cs
fetches (Call.fetch t ∷ cs) = suc (fetches cs)

-- What holds of each response and the calls that led to it.
abbrev pub Sound : Response × List Call → Type 0
Sound o =
    (refreshes o.1 ≤ 1) × (fetches o.1 ≤ 2) × ((refreshes o.1 ≡ 1) ⊎ (o.0.cookies ≡ Cookies.kept))

module _ (backend : Backend) where
  after_retry-Sound :
      (t : Tokens) (calls : List Call) (reply : Reply)
      → refreshes calls ≡ 1
      → fetches calls ≤ 2
      → Sound (after_retry backend t calls reply)
  unfolding after_retry
  after_retry-Sound t calls (Reply.answered body) r f = (omega (arith, r), f, inl r)
  after_retry-Sound t calls (Reply.backend_error status body) r f = (omega (arith, r), f, inl r)
  after_retry-Sound t calls Reply.unreachable r f = (omega (arith, r), f, inr refl)

  retry-Sound :
      (calls : List Call) (t : Option Tokens)
      → refreshes calls ≡ 1
      → fetches calls ≤ 1
      → Sound (retry backend calls t)
  unfolding retry
  retry-Sound calls none r f = (omega (arith, r), omega (arith, f), inl r)
  retry-Sound calls (some t) r f =
      after_retry-Sound t (Call.fetch t.access_token ∷ calls) (backend.fetch calls t.access_token) r
        (omega (arith, f))

  -- The first attempt, without a refresh before it and after one.
  fresh-Sound :
      (refresh_token : Option String) (calls : List Call) (reply : Reply)
      → refreshes calls ≡ 0
      → fetches calls ≤ 1
      → Sound (after_fetch backend refresh_token none calls reply)
  unfolding after_fetch
  fresh-Sound refresh_token calls (Reply.answered body) r f =
      (omega (arith, r), omega (arith, f), inr refl)
  fresh-Sound refresh_token calls (Reply.backend_error status body) r f =
      elim (Bool-cases ((status == 401) && truthy refresh_token && true)) [
        | inl e ↦ rw e (
            retry-Sound (Call.refresh (or_else refresh_token "") ∷ calls)
              (attempt_refresh backend calls (or_else refresh_token "")) (omega (arith, r)) f)
        | inr e ↦ rw e (omega (arith, r), omega (arith, f), inr refl)
      ]
  fresh-Sound refresh_token calls Reply.unreachable r f =
      (omega (arith, r), omega (arith, f), inr refl)

  refreshed-Sound :
      (refresh_token : Option String) (t : Tokens) (calls : List Call) (reply : Reply)
      → refreshes calls ≡ 1
      → fetches calls ≤ 1
      → Sound (after_fetch backend refresh_token (some t) calls reply)
  unfolding after_fetch
  refreshed-Sound refresh_token t calls (Reply.answered body) r f =
      (omega (arith, r), omega (arith, f), inl r)
  refreshed-Sound refresh_token t calls (Reply.backend_error status body) r f =
      elim (Bool-cases ((status == 401) && truthy refresh_token && false)) [
        | inl e ↦ ground arith
        | inr e ↦ rw e (omega (arith, r), omega (arith, f), inr refl)
      ]
  refreshed-Sound refresh_token t calls Reply.unreachable r f =
      (omega (arith, r), omega (arith, f), inr refl)

  after_refresh-Sound :
      (refresh_token : Option String) (calls : List Call) (t : Option Tokens)
      → refreshes calls ≡ 1
      → fetches calls ≡ 0
      → Sound (after_refresh backend refresh_token calls t)
  unfolding after_refresh attempt
  after_refresh-Sound refresh_token calls none r f = (omega (arith, r), omega (arith, f), inl r)
  after_refresh-Sound refresh_token calls (some t) r f =
      refreshed-Sound refresh_token t (Call.fetch t.access_token ∷ calls)
        (backend.fetch calls t.access_token) r (omega (arith, f))

  -- A request leads to at most one refresh of the session and at most two calls of the endpoint, and a
  -- response without a refresh leaves the cookies as they are, whatever the backend answers.
  pub handle-Sound :
      (method : Method) (access_token refresh_token : Option String)
      → Sound (handle backend method access_token refresh_token)
  unfolding handle attempt
  handle-Sound method access_token refresh_token = elim (Bool-cases (is_proxied method)) [
    | inr e ↦ rw e (omega arith, omega arith, inr refl)
    | inl e ↦ elim (Bool-cases (truthy access_token)) [
      | inl a ↦
          rw (e, a)
            (fresh-Sound refresh_token (Call.fetch (or_else access_token "") ∷ [])
              (backend.fetch [] (or_else access_token "")) refl (omega arith))
      | inr a ↦ elim (Bool-cases (truthy refresh_token)) [
        | inl r ↦
            rw (e, a, r)
              (after_refresh-Sound refresh_token (Call.refresh (or_else refresh_token "") ∷ [])
                (attempt_refresh backend [] (or_else refresh_token "")) refl refl)
        | inr r ↦ rw (e, a, r) (omega arith, omega arith, inr refl)
      ]
    ]
  ]
