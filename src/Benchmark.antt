-- ===== src/Benchmark.antt =====
-- internal/benchmark: the options of a benchmark run and the sizes that a scale stands for.
pub mod Scale
pub mod Options
