-- ===== src/Run/Metrics.antt =====
-- WritePrometheus of internal/benchmarkrun/metrics.go. A writer takes one chunk for each Fprintf and
-- answers by an error or takes all of it. fmt's %v of a float64 and strconv's 'g' format are
-- arguments; %q of the latter's text, which has nothing to escape, puts quotes about it.
pub mod Writing
pub mod Scraper
pub mod Reading
mod Examples
use pg_gobench.Base.{
  ℕ, ◌≡◌, Bool, true, false, Option, none, some, List, [], ◌∷◌, ◌++◌, length, ℤ, pos, Text, codes,
  Error, wrap, format_int, Floats,
}
use pg_gobench.Run.Sample.{MetricsSnapshot, LatencyHistogramSnapshot, LatencyHistogramBucket}

-- What the writer answers to the chunk with the given number.
abbrev pub Writer : Type 0
Writer = ℕ → Option Error

-- A piece of code that writes: from the chunks taken so far to those taken after it, and its error.
abbrev pub Writes : Type 0
Writes = List Text → List Text × Option Error

abbrev pub and_then : List Text × Option Error → Writes → List Text × Option Error
and_then (sent, some e) next = (sent, some e)
and_then (sent, none) next = next sent

-- `if err := first; err != nil { return err }`.
infixl 5 ◌>>◌
abbrev pub ◌>>◌ : Writes → Writes → Writes
◌>>◌ first next sent = and_then (first sent) next

-- `return nil`.
abbrev pub done : Writes
done sent = (sent, none)

-- One Fprintf, whose error is given the label.
pub write_chunk : Writer → Text → Text → Writes
write_chunk w label chunk sent = elim (w (length sent)) [
  | some e ↦ (sent, some (wrap (codes "write " ++ (label ++ codes " metric")) e))
  | none ↦ (sent ++ chunk ∷ [], none)
]

unfoldable pub bool_gauge_value : Bool → ℤ
bool_gauge_value true = pos 1
bool_gauge_value false = pos 0

-- `"%s %v\n"`, the value as its text.
unfoldable pub metric_chunk : Text → Text → Text
metric_chunk name value = name ++ (32 ∷ (value ++ 10 ∷ []))

-- `"%s_bucket{le=%q} %d\n"`, the bound as its text.
unfoldable pub bucket_chunk : Text → Text → ℕ → Text
bucket_chunk name bound count =
    name
    ++ (codes "_bucket{le=\"" ++ (bound ++ (codes "\"} " ++ (format_int (pos count) ++ 10 ∷ []))))

pub write_prometheus_metric : Writer → Text → Text → Writes
unfolding write_chunk metric_chunk
write_prometheus_metric w name value = write_chunk w name (metric_chunk name value)

abbrev pub latency_name : Text
latency_name = codes "pg_gobench_operation_latency_seconds"

-- `show` is %v of a float, `show_bound` is prometheusFloat.
module _ {F : Type 0} (show show_bound : F → Text) (w : Writer) where
  pub write_buckets : Text → List (LatencyHistogramBucket F) → Writes
  unfolding write_chunk bucket_chunk
  write_buckets name [] = done
  write_buckets name (b ∷ bs) = do
    write_chunk w (name ++ codes " bucket")
        (bucket_chunk name (show_bound b.upper_bound_seconds) b.cumulative_count)
    write_buckets name bs

  pub write_prometheus_histogram : Text → LatencyHistogramSnapshot F → Writes
  unfolding write_buckets write_prometheus_metric
  write_prometheus_histogram name h = do
    write_buckets name h.buckets
    write_chunk w (name ++ codes " +Inf bucket") (bucket_chunk name (codes "+Inf") h.count)
    write_prometheus_metric w (name ++ codes "_count") (format_int (pos h.count))
    write_prometheus_metric w (name ++ codes "_sum") (show h.sum_seconds)
    done

  unfoldable pub write_prometheus : MetricsSnapshot F → Writes
  unfolding write_prometheus_histogram write_prometheus_metric bool_gauge_value
  write_prometheus m = do
    write_prometheus_metric w (codes "pg_gobench_run_active")
        (format_int (bool_gauge_value m.run_active))
    write_prometheus_metric w (codes "pg_gobench_run_duration_seconds")
        (show m.run_duration_seconds)
    write_prometheus_metric w (codes "pg_gobench_configured_clients")
        (format_int m.configured_clients)
    write_prometheus_metric w (codes "pg_gobench_active_clients") (format_int m.active_clients)
    write_prometheus_metric w (codes "pg_gobench_operations_total")
        (format_int (pos m.operations_total))
    write_prometheus_metric w (codes "pg_gobench_operation_errors_total")
        (format_int (pos m.operation_errors_total))
    write_prometheus_metric w (codes "pg_gobench_tps") (show m.tps)
    write_prometheus_histogram latency_name m.operation_latency
    done
