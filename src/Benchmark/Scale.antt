-- ===== src/Benchmark/Scale.antt =====
-- internal/benchmark/scale.go: the dataset sizes of a scale. Products wrap as Go's 64-bit int does.
use pg_gobench.Base.{ℤ, pos, ◌*ℤ◌, wrap_int64}

pub record ScaleModel : Type 0 where
  pub branches : ℤ
  pub tellers : ℤ
  pub accounts : ℤ
  pub history_rows : ℤ

unfoldable pub resolve_scale : ℤ → ScaleModel
resolve_scale scale = record {
  branches = scale;
  tellers = wrap_int64 (scale *ℤ pos 10);
  accounts = wrap_int64 (scale *ℤ pos 100000);
  history_rows = pos 0;
}
