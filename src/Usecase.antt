-- ===== src/Usecase.antt =====
-- core/usecase: the application's operations over the ports.
pub mod CancelJob
pub mod EnqueueJob
pub mod Completion
pub mod Reattach
pub mod Queries
pub mod Concurrent
pub mod Settings
