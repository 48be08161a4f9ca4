-- ===== src/Ai/Ttl.antt =====
-- `TTL` of backend/src/modules/ai-proxy/ai-proxy.service.ts, in seconds.
use money_management_app.Prelude.{ℕ}

abbrev pub dashboard : ℕ
dashboard = 90

abbrev pub health_score : ℕ
health_score = 300

abbrev pub leaks : ℕ
leaks = 300

abbrev pub behavior : ℕ
behavior = 300

abbrev pub archetype : ℕ
archetype = 600
