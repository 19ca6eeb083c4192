-- ===== src/Testutil/World.antt =====
-- All the in-memory adapters side by side, as the tests of core/usecase wire them.
pub mod Lens
pub mod Wired
