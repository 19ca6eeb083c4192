-- ===== src/Adapter/Postgres.antt =====
-- core/adapter/postgres: the repositories over tables of a database. The library that builds and
-- runs the queries is the parameter `Table`.
pub mod Table
pub mod Models
pub mod Jobs
pub mod Keys
pub mod Secrets
pub mod Sessions
pub mod Installations
pub mod Identities
