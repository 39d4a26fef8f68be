-- ===== src/Improvement.antt =====
-- internal/improvement: the tests of convergence and the registry of evaluated candidates.
pub mod Convergence
pub mod Candidates
