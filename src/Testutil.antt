-- ===== src/Testutil.antt =====
-- core/testutil: the in-memory adapters, which need no database, container runtime or network.
pub mod FakeJobs
pub mod FakeKeys
pub mod FakeRunner
pub mod FakeSmall
pub mod World
