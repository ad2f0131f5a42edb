-- ===== src/Run/Metrics/Reading.antt =====
-- The numbers of a snapshot are read back from its text.
use mathlib.Core.List.{append_assoc, map-append}
use pg_gobench.Base.{
  ℕ, ◌+◌, ◌≡◌, refl, ap, ap₂, ◌∙◌, inl, inr, arith, Bool, true, false, Option, none, some, List, [],
  ◌∷◌, ◌++◌, if◌then◌else◌, map, length, ℤ, pos, Text, codes, All, All-append, format_int,
  read_int-format_int, lacks, lacks-append, format_int-lacks,
}
use pg_gobench.Run.Sample.{MetricsSnapshot, LatencyHistogramSnapshot, LatencyHistogramBucket}
use pg_gobench.Run.Metrics.{
  Writer, bool_gauge_value, metric_chunk, bucket_chunk, latency_name, write_prometheus,
}
use pg_gobench.Run.Metrics.Writing.{
  bucket_lines, histogram_lines, last_lines, lines_of, write_prometheus-Ends,
}
use pg_gobench.Run.Metrics.Scraper.{
  Entry, read_entries, value_of, read_value, counter, text_of, chunk_of, IsPlain, read_entries-text,
}

none-ne-some {ℓ} : {A B : Type ℓ} {o : Option A} {a : A} → o ≡ none → o ≡ some a → B
none-ne-some e f = absurd (cc)

-- The names and values that a snapshot stands for.
abbrev bucket_key : Text → Text → Text
bucket_key name bound = name ++ (codes "_bucket{le=\"" ++ (bound ++ codes "\"}"))

bucket_chunk-key :
    (name bound : Text) (n : ℕ)
    → bucket_chunk name bound n ≡ chunk_of (bucket_key name bound, format_int (pos n))
unfolding bucket_chunk
bucket_chunk-key name bound n = simp append_assoc

module _ {F : Type 0} (show show_bound : F → Text) where
  pub bucket_entries : Text → List (LatencyHistogramBucket F) → List Entry
  bucket_entries name [] = []
  bucket_entries name (b ∷ bs) =
      (bucket_key name (show_bound b.upper_bound_seconds), format_int (pos b.cumulative_count))
      ∷ bucket_entries name bs

  pub last_entries : Text → LatencyHistogramSnapshot F → List Entry
  last_entries name h =
      (bucket_key name (codes "+Inf"), format_int (pos h.count))
      ∷ (name ++ codes "_count", format_int (pos h.count))
      ∷ (name ++ codes "_sum", show h.sum_seconds)
      ∷ []

  pub entries_of : MetricsSnapshot F → List Entry
  unfolding bucket_entries last_entries
  entries_of m =
      (codes "pg_gobench_run_active", format_int (bool_gauge_value m.run_active))
        ∷ (codes "pg_gobench_run_duration_seconds", show m.run_duration_seconds)
        ∷ (codes "pg_gobench_configured_clients", format_int m.configured_clients)
        ∷ (codes "pg_gobench_active_clients", format_int m.active_clients)
        ∷ (codes "pg_gobench_operations_total", format_int (pos m.operations_total))
        ∷ (codes "pg_gobench_operation_errors_total", format_int (pos m.operation_errors_total))
        ∷ (codes "pg_gobench_tps", show m.tps)
        ∷ bucket_entries latency_name m.operation_latency.buckets
      ++ last_entries latency_name m.operation_latency

  chunks_of_buckets :
      (name : Text) (bs : List (LatencyHistogramBucket F))
      → map (λ x. x.1) (bucket_lines show show_bound name bs)
        ≡ map chunk_of (bucket_entries name bs)
  unfolding bucket_lines bucket_entries
  chunks_of_buckets name [] = refl
  chunks_of_buckets name (b ∷ bs) =
      ap₂ (λ c cs. c ∷ cs)
        (bucket_chunk-key name (show_bound b.upper_bound_seconds) b.cumulative_count)
        (chunks_of_buckets name bs)

  chunks_of_lines :
      (m : MetricsSnapshot F)
      → map (λ x. x.1) (lines_of show show_bound m) ≡ map chunk_of (entries_of m)
  unfolding lines_of histogram_lines last_lines entries_of last_entries metric_chunk
  chunks_of_lines m =
      let bs = m.operation_latency.buckets in
      let tail : map (λ x. x.1) (last_lines show show_bound latency_name m.operation_latency)
          ≡ map chunk_of (last_entries latency_name m.operation_latency) =
        ap
          (λ c.
            c
            ∷ map chunk_of (
                (latency_name ++ codes "_count", format_int (pos m.operation_latency.count))
                ∷ (latency_name ++ codes "_sum", show m.operation_latency.sum_seconds)
                ∷ []))
          (bucket_chunk-key latency_name (codes "+Inf") m.operation_latency.count) in
      simp (map-append, chunks_of_buckets, tail)

  bucket_entries-IsPlain :
      ((x : F) → lacks 10 (show_bound x) ≡ true)
      → ((x : F) → lacks 32 (show_bound x) ≡ true)
      → (bs : List (LatencyHistogramBucket F)) → All IsPlain (bucket_entries latency_name bs)
  unfolding bucket_entries
  bucket_entries-IsPlain p q [] = tt
  bucket_entries-IsPlain p q (b ∷ bs) = (
    (
      lacks-append 10 (show_bound b.upper_bound_seconds) (codes "\"}") (p b.upper_bound_seconds)
          refl,
      lacks-append 32 (show_bound b.upper_bound_seconds) (codes "\"}") (q b.upper_bound_seconds)
          refl,
      format_int-lacks 10 (pos b.cumulative_count) (omega arith),
    ),
    bucket_entries-IsPlain p q bs,
  )

  entries_of-IsPlain :
      ((x : F) → lacks 10 (show x) ≡ true)
      → ((x : F) → lacks 10 (show_bound x) ≡ true)
      → ((x : F) → lacks 32 (show_bound x) ≡ true)
      → (m : MetricsSnapshot F) → All IsPlain (entries_of m)
  unfolding entries_of last_entries
  entries_of-IsPlain n p q m =
      let int = λ (z : ℤ). format_int-lacks 10 z (omega arith) in
      (
        (refl, refl, int (bool_gauge_value m.run_active)),
        (
          (refl, refl, n m.run_duration_seconds),
          (
            (refl, refl, int m.configured_clients),
            (
              (refl, refl, int m.active_clients),
              (
                (refl, refl, int (pos m.operations_total)),
                (
                  (refl, refl, int (pos m.operation_errors_total)),
                  (
                    (refl, refl, n m.tps),
                    All-append IsPlain (bucket_entries latency_name m.operation_latency.buckets)
                        (last_entries latency_name m.operation_latency)
                        (bucket_entries-IsPlain p q m.operation_latency.buckets)
                        (
                          (refl, refl, int (pos m.operation_latency.count)),
                          (
                            (refl, refl, int (pos m.operation_latency.count)),
                            ((refl, refl, n m.operation_latency.sum_seconds), tt),
                          ),
                        ),
                  ),
                ),
              ),
            ),
          ),
        ),
      )

  bool_gauge_value-flag : (b : Bool) → bool_gauge_value b ≡ (if b then pos 1 else pos 0)
  unfolding bool_gauge_value
  bool_gauge_value-flag true = refl
  bool_gauge_value-flag false = refl

  -- The count is found behind the buckets.
  value_of-count :
      (bs : List (LatencyHistogramBucket F)) (h : LatencyHistogramSnapshot F)
      → value_of
          (latency_name ++ codes "_count")
          (bucket_entries latency_name bs ++ last_entries latency_name h)
        ≡ some (format_int (pos h.count))
  unfolding value_of bucket_entries last_entries
  value_of-count [] h = refl
  value_of-count (b ∷ bs) h = value_of-count bs h

  all_written :
      (w : Writer) (m : MetricsSnapshot F)
      → ((i : ℕ) → w i ≡ none)
      → write_prometheus show show_bound w m []
        ≡ (map (λ x. x.1) (lines_of show show_bound m), none)
  all_written w m a = elim (write_prometheus-Ends show show_bound w m []) [
    | inl e ↦ e
    | inr (taken, e, g, s) ↦ (none-ne-some (a (0 + length s.before)) s.refused)
  ]

  -- When the writer takes every chunk and no float is written with a line end or a bound with a
  -- space, no error is returned, and a scraper finds in the text written exactly
  -- the gauge of the run, 1 while it is active and else 0, the two numbers of clients, the two counters and the count of the latencies.
  pub write_prometheus-read_back :
      (w : Writer) (m : MetricsSnapshot F)
      → ((i : ℕ) → w i ≡ none)
      → ((x : F) → lacks 10 (show x) ≡ true)
      → ((x : F) → lacks 10 (show_bound x) ≡ true)
      → ((x : F) → lacks 32 (show_bound x) ≡ true)
      → ((write_prometheus show show_bound w m []).1 ≡ none)
        × (counter
              (codes "pg_gobench_run_active")
              (text_of (write_prometheus show show_bound w m []).0)
            ≡ some (if m.run_active then pos 1 else pos 0))
        × (counter
              (codes "pg_gobench_configured_clients")
              (text_of (write_prometheus show show_bound w m []).0)
            ≡ some m.configured_clients)
        × (counter
              (codes "pg_gobench_active_clients")
              (text_of (write_prometheus show show_bound w m []).0)
            ≡ some m.active_clients)
        × (counter
              (codes "pg_gobench_operations_total")
              (text_of (write_prometheus show show_bound w m []).0)
            ≡ some (pos m.operations_total))
        × (counter
              (codes "pg_gobench_operation_errors_total")
              (text_of (write_prometheus show show_bound w m []).0)
            ≡ some (pos m.operation_errors_total))
        × (counter
              (codes "pg_gobench_operation_latency_seconds_count")
              (text_of (write_prometheus show show_bound w m []).0)
            ≡ some (pos m.operation_latency.count))
  unfolding counter value_of read_value entries_of
  write_prometheus-read_back w m a n p q =
      let written = all_written w m a ∙ ap (λ cs. (cs, none)) (chunks_of_lines m) in
      let read = read_entries-text (entries_of m) (entries_of-IsPlain n p q m) in
      let at = λ (key : Text).
        ap (λ r. read_value (value_of key (read_entries (text_of r.0)))) written
        ∙ ap (λ es. read_value (value_of key es)) read in
      (
        ap (λ r. r.1) written,
        at (codes "pg_gobench_run_active")
            ∙ read_int-format_int (bool_gauge_value m.run_active)
            ∙ ap some (bool_gauge_value-flag m.run_active),
        at (codes "pg_gobench_configured_clients") ∙ read_int-format_int m.configured_clients,
        at (codes "pg_gobench_active_clients") ∙ read_int-format_int m.active_clients,
        at (codes "pg_gobench_operations_total") ∙ read_int-format_int (pos m.operations_total),
        at (codes "pg_gobench_operation_errors_total")
            ∙ read_int-format_int (pos m.operation_errors_total),
        at (codes "pg_gobench_operation_latency_seconds_count")
            ∙ ap read_value (value_of-count m.operation_latency.buckets m.operation_latency)
            ∙ read_int-format_int (pos m.operation_latency.count),
      )
