-- ===== src/Web.antt =====
-- web/src/app/api/proxy: the session of the web app, which lives in cookies.
pub mod Proxy
pub mod Sessions
