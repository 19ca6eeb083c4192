-- ===== src/Adapter.antt =====
-- core/adapter, and the wrapper of secrets of cmd/agentic-delegator/main.go.
pub mod Crypto
pub mod Secrets
pub mod Keyhash
pub mod Resolver
pub mod Docker
pub mod Postgres
pub mod Sessions
pub mod Reply
pub mod Oauth
pub mod Idgen
pub mod Http
pub mod Webhook
pub mod Ghapp
