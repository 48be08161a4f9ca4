-- ===== src/Tests/Web.antt =====
-- Runs of the proxy of the web app.
use money_management_app.Prelude.{some}
use money_management_app.Web.Proxy.{Method, Reply, Backend, handle}
use money_management_app.Web.Sessions.{Sound, handle-Sound}

-- A backend that refreshes any session and knows no endpoint.
abbrev unknown_path : Backend
unknown_path = record {
  fetch = λ calls token. Reply.backend_error 404 "Not Found";
  refresh = λ calls token. some (record { access_token = some "a2"; refresh_token = some "r2" });
}

handle-Sound_example : Sound (handle unknown_path Method.get (some "a1") (some "r1"))
handle-Sound_example = handle-Sound unknown_path Method.get (some "a1") (some "r1")
