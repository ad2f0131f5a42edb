-- ===== src/Runner/Stats.antt =====
-- runStats of internal/benchrunner/stats.go: the counters of a run, each method under its mutex. A
-- time is its nanoseconds since Go's zero time; a duration is nanoseconds; counters are uint64.
pub mod Operations
pub mod Counting
pub mod Ordering
mod Examples
use pg_gobench.Base.{
  ℕ, ◌+◌, ◌≡◌, Bool, true, false, not, ◌&&◌, Option, none, some, List, [], ◌∷◌, ltb, ◌==◌,
  if◌then◌else◌, get_or, replicate, update_at, ℤ, pos, negsuc, pos_part, ◌+ℤ◌, ◌-ℤ◌, ltb_ℤ, leb_ℤ,
  wrap_int64, Text, Error, message, Floats,
}
use pg_gobench.Run.ErrorText.{compact_error_text}
use pg_gobench.Run.Sample.{Sample}
use pg_gobench.Runner.Histogram.{
  Histogram, add_uint64, millisecond, new_latency_histogram, record_latency, quantile,
  metrics_snapshot,
}

-- `kind` is the operationKind as a number, of which there are nine.
abbrev pub operation_kind_count : ℕ
operation_kind_count = 9

pub record RunStats : Type 0 where
  pub run_started_at : ℤ
  pub measurement_started_at : ℤ
  pub finished_at : Option ℤ
  pub active_clients : ℤ
  pub configured_clients : ℤ
  pub total_operations : ℕ
  pub successful_operations : ℕ
  pub failed_operations : ℕ
  pub per_kind : List ℕ
  pub latency : Histogram
  pub latest_error : Text

unfoldable pub new_run_stats : ℤ → ℤ → ℤ → RunStats
new_run_stats started_at warmup configured_clients = record {
  run_started_at = started_at;
  measurement_started_at = started_at +ℤ warmup;
  finished_at = none;
  active_clients = pos 0;
  configured_clients = configured_clients;
  total_operations = 0;
  successful_operations = 0;
  failed_operations = 0;
  per_kind = replicate operation_kind_count 0;
  latency = new_latency_histogram;
  latest_error = [];
}

unfoldable pub set_configured_clients : ℤ → RunStats → RunStats
set_configured_clients n s = record s { configured_clients = n }

unfoldable pub worker_started : RunStats → RunStats
worker_started s = record s { active_clients = wrap_int64 (s.active_clients +ℤ pos 1) }

unfoldable pub worker_stopped : RunStats → RunStats
worker_stopped s =
    if ltb_ℤ (pos 0) s.active_clients
    then record s { active_clients = s.active_clients -ℤ pos 1 }
    else s

-- `if err != nil { s.latestError = compactErrorText(err.Error()) }`.
note_error : Option Error → Text → Text
note_error none latest = latest
note_error (some e) latest = compact_error_text (message e)

abbrev pub is_none {ℓ} : {A : Type ℓ} → Option A → Bool
is_none none = true
is_none (some a) = false

-- The counters of an operation that completed after the warmup.
count_operation : ℤ → ℤ → Option Error → RunStats → RunStats
count_operation kind latency e s = record s {
  total_operations = add_uint64 s.total_operations 1;
  successful_operations =
      if is_none e then add_uint64 s.successful_operations 1 else s.successful_operations;
  failed_operations = if is_none e then s.failed_operations else add_uint64 s.failed_operations 1;
  per_kind =
      if leb_ℤ (pos 0) kind && ltb_ℤ kind (pos operation_kind_count)
      then update_at (λ n. add_uint64 n 1) (pos_part kind) s.per_kind
      else s.per_kind;
  latency = record_latency latency s.latency;
}

unfoldable pub record_operation : ℤ → ℤ → ℤ → Option Error → RunStats → RunStats
unfolding note_error count_operation
record_operation kind latency completed_at e s =
    let noted = record s { latest_error = note_error e s.latest_error } in
    if ltb_ℤ completed_at s.measurement_started_at
    then noted
    else count_operation kind latency e noted

unfoldable pub finish : ℤ → Option Error → RunStats → RunStats
unfolding note_error
finish finished_at e s = record s {
  finished_at = if is_none s.finished_at then some finished_at else s.finished_at;
  latest_error = note_error e s.latest_error;
}

abbrev end_at : Option ℤ → ℤ → ℤ
end_at none now = now
end_at (some t) now = t

module _ (fl : Floats) where
  open fl use {F, zero, of_int64, of_uint64, div, seconds}

  duration_milliseconds : ℤ → F
  duration_milliseconds d = div (of_int64 d) (of_int64 (pos millisecond))

  average_milliseconds : ℤ → ℕ → F
  average_milliseconds sum total =
      if total == 0
      then zero
      else div (div (of_int64 sum) (of_uint64 total)) (of_int64 (pos millisecond))

  -- The zero time is 0. Time.Sub saturates at the ends of int64, which no run reaches.
  elapsed_seconds : ℤ → RunStats → F
  elapsed_seconds now s =
      let ended = end_at s.finished_at now in
      let elapsed =
        if ltb_ℤ s.measurement_started_at ended
        then seconds (ended -ℤ s.measurement_started_at)
        else zero in
      let is_zero_time = leb_ℤ s.run_started_at (pos 0) && leb_ℤ (pos 0) s.run_started_at in
      if is_none s.finished_at && (not is_zero_time && ltb_ℤ now s.measurement_started_at)
      then zero
      else elapsed

  -- `p50`, `p90`, `p95` and `p99` are the float literals of the percentiles.
  unfoldable pub sample : F → F → F → F → ℤ → RunStats → Sample F
  unfolding duration_milliseconds average_milliseconds elapsed_seconds
  sample p50 p90 p95 p99 now s =
      let at = λ (p : F). duration_milliseconds (pos (quantile fl p s.latency)) in
      let kind = λ (k : ℕ). get_or s.per_kind k 0 in
      record {
        latency = record {
          min_milliseconds = duration_milliseconds (pos s.latency.min);
          max_milliseconds = duration_milliseconds (pos s.latency.max);
          average_milliseconds = average_milliseconds s.latency.sum s.latency.total;
          p50_milliseconds = at p50;
          p90_milliseconds = at p90;
          p95_milliseconds = at p95;
          p99_milliseconds = at p99;
          buckets = (metrics_snapshot fl s.latency).buckets;
          count = s.latency.total;
          sum_seconds = seconds s.latency.sum;
        };
        elapsed_seconds = elapsed_seconds now s;
        total_operations = s.total_operations;
        successful_operations = s.successful_operations;
        failed_operations = s.failed_operations;
        active_clients = s.active_clients;
        configured_clients = s.configured_clients;
        operation_counts = record {
          point_read = kind 0;
          range_read = kind 1;
          history_insert = kind 2;
          account_update = kind 3;
          transaction = kind 4;
          join = kind 5;
          aggregation = kind 6;
          lock_contention = kind 7;
          hot_update = kind 8;
        };
        latest_error = s.latest_error;
      }
