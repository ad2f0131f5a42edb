-- ===== src/Runner.antt =====
-- internal/benchrunner: the runner of workloads.
pub mod Histogram
pub mod Stats
pub mod Pacing
pub mod ActiveRun
pub mod Workload
pub mod Launch
