-- ===== src/Domain.antt =====
-- core/domain: the entities of the program, with no dependency on the rest.
pub mod Errors
pub mod Credentials
pub mod Spec
pub mod ApiKey
pub mod User
pub mod Job
pub mod Names
