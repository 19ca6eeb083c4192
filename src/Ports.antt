-- ===== src/Ports.antt =====
-- core/usecase/ports: the interfaces that the use cases call. `W` is the world that the adapters
-- act on. `C` stands for the completion callbacks, which the use cases only hand over.
pub mod Jobs
pub mod Quiet
pub mod Runner
pub mod Keys
pub mod Secrets
pub mod Small
