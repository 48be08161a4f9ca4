-- ===== src/Ai.antt =====
-- backend/src/modules/ai-proxy: what is sent to the AI service, the cache before it, and what is done
-- with its answers.
pub mod Json
pub mod Context
pub mod Paging
pub mod Cache
pub mod Ttl
pub mod Proxy
pub mod Freshness
pub mod Tagging
pub mod Enrichment
pub mod Cooldown
