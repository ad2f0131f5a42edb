-- ===== src/Run.antt =====
-- internal/benchmarkrun: the coordinator of benchmark runs, and what it reports.
pub mod ErrorText
pub mod Sample
pub mod Metrics
pub mod Coordinator
