-- ===== src/Cmd.antt =====
-- cmd/agentic-delegator/main.go: what the program does before it serves.
pub mod Startup
pub mod Migrate
pub mod Routes
pub mod Platform
pub mod Serve
