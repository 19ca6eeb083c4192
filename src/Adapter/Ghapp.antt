-- ===== src/Adapter/Ghapp.antt =====
-- core/adapter/ghapp: the webhooks of the GitHub App, its installations, and credentials from them.
pub mod Webhooks
pub mod RepoCreds
pub mod AppClient
pub mod Install
