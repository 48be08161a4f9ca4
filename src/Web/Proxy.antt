-- ===== src/Web/Proxy.antt =====
-- The handler of web/src/app/api/proxy/[...path]/route.ts. The path, the query and the body are passed
-- on unchanged in every call, and are left out. The backend is a parameter: its answers may depend on
-- the calls that it has had, which are listed with the last one first.
use money_management_app.Prelude.{
  ℕ, Bool, true, false, ◌&&◌, not, Option, none, some, String, List, [], ◌∷◌, ◌==◌, if◌then◌else◌,
  truthy, is_none, or_else,
}

pub data Method : Type 0 where
  get post put patch delete other : Method

-- PROXIED_METHODS
abbrev pub is_proxied : Method → Bool
is_proxied Method.other = false
is_proxied _ = true

pub record Tokens : Type 0 where
  pub access_token : String
  pub refresh_token : String

-- The body of an answer of `backendRefresh`.
pub record RefreshAnswer : Type 0 where
  pub access_token : Option String
  pub refresh_token : Option String

-- What `backendFetch` returns, or the error that it throws: a BackendError with its status, or any other.
pub data Reply : Type 0 where
  answered : (body : String) → Reply
  backend_error : (status : ℕ) (body : String) → Reply
  unreachable : Reply

pub data Call : Type 0 where
  fetch refresh : (token : String) → Call

pub record Backend : Type 0 where
  pub fetch : List Call → (access_token : String) → Reply
  -- none where `backendRefresh` throws.
  pub refresh : List Call → (refresh_token : String) → Option RefreshAnswer

-- What the response does to the cookies.
pub data Cookies : Type 0 where
  kept cleared : Cookies
  applied : Tokens → Cookies

pub record Response : Type 0 where
  pub status : ℕ
  pub body : String
  pub cookies : Cookies

abbrev pub reply_with : (status : ℕ) (body : String) → Cookies → List Call → Response × List Call
reply_with status body cookies calls =
    (record { status = status; body = body; cookies = cookies }, calls)

abbrev pub session_expired : List Call → Response × List Call
session_expired calls = reply_with 401 "Session expired" Cookies.cleared calls

abbrev pub request_failed : List Call → Response × List Call
request_failed calls = reply_with 502 "Backend request failed" Cookies.kept calls

-- The tokens of an answer that has both.
abbrev pub tokens_of : Option RefreshAnswer → Option Tokens
tokens_of none = none
tokens_of (some a) =
    if truthy a.access_token && truthy a.refresh_token
    then some (record {
      access_token = or_else a.access_token "";
      refresh_token = or_else a.refresh_token "";
    })
    else none

-- `if (refreshedTokens) applyAuthCookies(...)`
abbrev pub cookies_after : Option Tokens → Cookies
cookies_after none = Cookies.kept
cookies_after (some t) = Cookies.applied t

module _ (backend : Backend) where
  -- attemptRefresh
  unfoldable pub attempt_refresh : List Call → (refresh_token : String) → Option Tokens
  attempt_refresh calls token = tokens_of (backend.refresh calls token)

  -- The answer to the second attempt.
  unfoldable pub after_retry : Tokens → List Call → Reply → Response × List Call
  after_retry t calls (Reply.answered body) = reply_with 200 body (Cookies.applied t) calls
  after_retry t calls (Reply.backend_error status body) =
      reply_with status body (Cookies.applied t) calls
  after_retry t calls Reply.unreachable = request_failed calls

  -- The second attempt, if the refresh gave tokens.
  unfoldable pub retry : List Call → Option Tokens → Response × List Call
  unfolding after_retry
  retry calls none = session_expired calls
  retry calls (some t) =
      after_retry t (Call.fetch t.access_token ∷ calls) (backend.fetch calls t.access_token)

  -- The answer to the first attempt, which may lead to a refresh and a second one.
  unfoldable pub after_fetch :
      (refresh_token : Option String) → Option Tokens → List Call → Reply → Response × List Call
  unfolding retry
  after_fetch refresh_token refreshed calls (Reply.answered body) =
      reply_with 200 body (cookies_after refreshed) calls
  after_fetch refresh_token refreshed calls (Reply.backend_error status body) =
      if (status == 401) && truthy refresh_token && is_none refreshed
      then retry (Call.refresh (or_else refresh_token "") ∷ calls)
          (attempt_refresh calls (or_else refresh_token ""))
      else reply_with status body Cookies.kept calls
  after_fetch refresh_token refreshed calls Reply.unreachable = request_failed calls

  unfoldable pub attempt :
      (token : String) (refresh_token : Option String)
      → Option Tokens
      → List Call
      → Response × List Call
  attempt token refresh_token refreshed calls =
      after_fetch refresh_token refreshed (Call.fetch token ∷ calls) (backend.fetch calls token)

  -- The first attempt of a request that came without an access token.
  unfoldable pub after_refresh :
      (refresh_token : Option String) → List Call → Option Tokens → Response × List Call
  unfolding attempt
  after_refresh refresh_token calls none = session_expired calls
  after_refresh refresh_token calls (some t) = attempt t.access_token refresh_token (some t) calls

  unfoldable pub handle :
      Method → (access_token refresh_token : Option String) → Response × List Call
  unfolding attempt after_refresh
  handle method access_token refresh_token =
      if not (is_proxied method)
      then reply_with 405 "Method not allowed" Cookies.kept []
      else if truthy access_token
      then attempt (or_else access_token "") refresh_token none []
      else if truthy refresh_token
      then after_refresh refresh_token (Call.refresh (or_else refresh_token "") ∷ [])
          (attempt_refresh [] (or_else refresh_token ""))
      else reply_with 401 "Unauthenticated" Cookies.kept []
