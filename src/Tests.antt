-- ===== src/Tests.antt =====
-- The theorems at concrete inputs, and tests of the definitions.
mod Domain
mod Usecase
mod Docker
mod Adapter
mod Sessions
mod Postgres
mod Enqueue
mod Concurrent
mod Oauth
mod Serving
mod Serve
mod Started
mod Requests
mod Config
