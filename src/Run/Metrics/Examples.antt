-- ===== src/Run/Metrics/Examples.antt =====
-- A snapshot of a run of two clients, written to a full and to an open writer.
use pg_gobench.Base.{
  ℕ, ◌≡◌, refl, ◌==◌, true, none, some, [], ◌∷◌, pos, Text, codes, plain, if◌then◌else◌,
}
use pg_gobench.Run.Sample.{MetricsSnapshot}
use pg_gobench.Run.Metrics.{Writer, write_prometheus}
use pg_gobench.Run.Metrics.Writing.{Ends, lines_of, write_prometheus-Ends}
use pg_gobench.Run.Metrics.Scraper.{counter, text_of}
use pg_gobench.Run.Metrics.Reading.{write_prometheus-read_back}

-- Floats as numbers of thousandths, each written as a word.
abbrev shown : ℕ → Text
shown x = codes "0.5"

abbrev two_clients : MetricsSnapshot ℕ
two_clients = record {
  run_active = true;
  run_duration_seconds = 10000;
  configured_clients = pos 2;
  active_clients = pos 1;
  operations_total = 4096;
  operation_errors_total = 3;
  tps = 409600;
  operation_latency = record {
    buckets =
        record { upper_bound_seconds = 1; cumulative_count = 4000 }
        ∷ record { upper_bound_seconds = 2; cumulative_count = 4096 }
        ∷ [];
    count = 4096;
    sum_seconds = 5000;
  };
}

-- A writer that takes three chunks.
abbrev full : Writer
full i = if i == 3 then some (plain (codes "broken pipe")) else none

write_prometheus-Ends_example :
    Ends full
      (lines_of shown shown two_clients)
      []
      (write_prometheus shown shown full two_clients [])
write_prometheus-Ends_example = write_prometheus-Ends shown shown full two_clients []

abbrev open_writer : Writer
open_writer i = none

write_prometheus-read_back_example :
    ((write_prometheus shown shown open_writer two_clients []).1 ≡ none)
    × (counter
          (codes "pg_gobench_run_active")
          (text_of (write_prometheus shown shown open_writer two_clients []).0)
        ≡ some (pos 1))
    × (counter
          (codes "pg_gobench_configured_clients")
          (text_of (write_prometheus shown shown open_writer two_clients []).0)
        ≡ some (pos 2))
    × (counter
          (codes "pg_gobench_active_clients")
          (text_of (write_prometheus shown shown open_writer two_clients []).0)
        ≡ some (pos 1))
    × (counter
          (codes "pg_gobench_operations_total")
          (text_of (write_prometheus shown shown open_writer two_clients []).0)
        ≡ some (pos 4096))
    × (counter
          (codes "pg_gobench_operation_errors_total")
          (text_of (write_prometheus shown shown open_writer two_clients []).0)
        ≡ some (pos 3))
    × (counter
          (codes "pg_gobench_operation_latency_seconds_count")
          (text_of (write_prometheus shown shown open_writer two_clients []).0)
        ≡ some (pos 4096))
write_prometheus-read_back_example =
    write_prometheus-read_back shown shown open_writer two_clients (λ i. refl) (λ x. refl)
      (λ x. refl) (λ x. refl)
