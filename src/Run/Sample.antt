-- ===== src/Run/Sample.antt =====
-- internal/benchmarkrun/sample.go and the record types of results.go and metrics.go: one reading of
-- a run, and the two reports made of it. Numbers of type float64 are those of a `Floats`.
use pg_gobench.Base.{ℕ, Bool, ◌||◌, not, List, [], ℤ, pos, ◌==◌, if◌then◌else◌, Text, Floats}

pub record LatencyHistogramBucket (F : Type 0) : Type 0 where
  pub upper_bound_seconds : F
  pub cumulative_count : ℕ

pub record LatencySample (F : Type 0) : Type 0 where
  pub min_milliseconds : F
  pub max_milliseconds : F
  pub average_milliseconds : F
  pub p50_milliseconds : F
  pub p90_milliseconds : F
  pub p95_milliseconds : F
  pub p99_milliseconds : F
  pub buckets : List (LatencyHistogramBucket F)
  pub count : ℕ
  pub sum_seconds : F

pub record OperationCounts : Type 0 where
  pub point_read : ℕ
  pub range_read : ℕ
  pub history_insert : ℕ
  pub account_update : ℕ
  pub transaction : ℕ
  pub join : ℕ
  pub aggregation : ℕ
  pub lock_contention : ℕ
  pub hot_update : ℕ

pub record Sample (F : Type 0) : Type 0 where
  pub latency : LatencySample F
  pub elapsed_seconds : F
  pub total_operations : ℕ
  pub successful_operations : ℕ
  pub failed_operations : ℕ
  pub active_clients : ℤ
  pub configured_clients : ℤ
  pub operation_counts : OperationCounts
  pub latest_error : Text

pub record LatencyStats (F : Type 0) : Type 0 where
  pub min_milliseconds : F
  pub max_milliseconds : F
  pub average_milliseconds : F
  pub p50_milliseconds : F
  pub p90_milliseconds : F
  pub p95_milliseconds : F
  pub p99_milliseconds : F

pub record OperationRates (F : Type 0) : Type 0 where
  pub point_read : F
  pub range_read : F
  pub history_insert : F
  pub account_update : F
  pub transaction : F
  pub join : F
  pub aggregation : F
  pub lock_contention : F
  pub hot_update : F

pub record Stats (F : Type 0) : Type 0 where
  pub latency : LatencyStats F
  pub tps : F
  pub total_operations : ℕ
  pub successful_operations : ℕ
  pub failed_operations : ℕ
  pub active_clients : ℤ
  pub configured_clients : ℤ
  pub elapsed_seconds : F
  pub operation_rates : OperationRates F
  pub latest_error : Text

pub record LatencyHistogramSnapshot (F : Type 0) : Type 0 where
  pub buckets : List (LatencyHistogramBucket F)
  pub count : ℕ
  pub sum_seconds : F

pub record MetricsSnapshot (F : Type 0) : Type 0 where
  pub run_active : Bool
  pub run_duration_seconds : F
  pub configured_clients : ℤ
  pub active_clients : ℤ
  pub operations_total : ℕ
  pub operation_errors_total : ℕ
  pub tps : F
  pub operation_latency : LatencyHistogramSnapshot F

module _ (fl : Floats) where
  open fl use {F, zero, is_positive, of_uint64, div}

  unfoldable pub zero_sample : Sample F
  zero_sample = record {
    latency = record {
      min_milliseconds = zero;
      max_milliseconds = zero;
      average_milliseconds = zero;
      p50_milliseconds = zero;
      p90_milliseconds = zero;
      p95_milliseconds = zero;
      p99_milliseconds = zero;
      buckets = [];
      count = 0;
      sum_seconds = zero;
    };
    elapsed_seconds = zero;
    total_operations = 0;
    successful_operations = 0;
    failed_operations = 0;
    active_clients = pos 0;
    configured_clients = pos 0;
    operation_counts = record {
      point_read = 0;
      range_read = 0;
      history_insert = 0;
      account_update = 0;
      transaction = 0;
      join = 0;
      aggregation = 0;
      lock_contention = 0;
      hot_update = 0;
    };
    latest_error = [];
  }

  -- `elapsedSeconds <= 0` is the negation of `is_positive`; a NaN would go the other way in Go, and
  -- no elapsed time is one.
  unfoldable pub rate_per_second : ℕ → F → F
  rate_per_second count elapsed =
      if count == 0 || not (is_positive elapsed) then zero else div (of_uint64 count) elapsed

  unfoldable pub stats_of : Sample F → Stats F
  stats_of s =
      let rate = λ (n : ℕ). rate_per_second n s.elapsed_seconds in
      let l = s.latency in
      let k = s.operation_counts in
      record {
        latency = record {
          min_milliseconds = l.min_milliseconds;
          max_milliseconds = l.max_milliseconds;
          average_milliseconds = l.average_milliseconds;
          p50_milliseconds = l.p50_milliseconds;
          p90_milliseconds = l.p90_milliseconds;
          p95_milliseconds = l.p95_milliseconds;
          p99_milliseconds = l.p99_milliseconds;
        };
        tps = rate s.total_operations;
        total_operations = s.total_operations;
        successful_operations = s.successful_operations;
        failed_operations = s.failed_operations;
        active_clients = s.active_clients;
        configured_clients = s.configured_clients;
        elapsed_seconds = s.elapsed_seconds;
        operation_rates = record {
          point_read = rate k.point_read;
          range_read = rate k.range_read;
          history_insert = rate k.history_insert;
          account_update = rate k.account_update;
          transaction = rate k.transaction;
          join = rate k.join;
          aggregation = rate k.aggregation;
          lock_contention = rate k.lock_contention;
          hot_update = rate k.hot_update;
        };
        latest_error = s.latest_error;
      }

  unfoldable pub metrics_of : Sample F → Bool → MetricsSnapshot F
  metrics_of s run_active = record {
    run_active = run_active;
    run_duration_seconds = s.elapsed_seconds;
    configured_clients = s.configured_clients;
    active_clients = s.active_clients;
    operations_total = s.total_operations;
    operation_errors_total = s.failed_operations;
    tps = rate_per_second s.total_operations s.elapsed_seconds;
    operation_latency = record {
      buckets = s.latency.buckets;
      count = s.latency.count;
      sum_seconds = s.latency.sum_seconds;
    };
  }
