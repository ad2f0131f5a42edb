-- ===== src/Run/Metrics/Writing.antt =====
-- What is written before an error, and all that is written without one.
use mathlib.Core.List.{append-nil, append_assoc}
use mathlib.Core.Path.{fun_ext}
use pg_gobench.Base.{
  ℕ, suc, ◌+◌, length-append, ◌≡◌, refl, sym, ap, subst, ◌∙◌, ◌⊎◌, inl, inr, arith, Option, none,
  some, List, [], ◌∷◌, ◌++◌, map, length, pos, Text, codes, Error, wrap, format_int, Option-cases,
}
use pg_gobench.Run.Sample.{MetricsSnapshot, LatencyHistogramSnapshot, LatencyHistogramBucket}
use pg_gobench.Run.Metrics.{
  Writer, Writes, and_then, ◌>>◌, done, write_chunk, bool_gauge_value, metric_chunk, bucket_chunk,
  write_prometheus_metric, latency_name, write_buckets, write_prometheus_histogram,
  write_prometheus,
}

-- A chunk with the label of its error.
abbrev pub Labelled : Type 0
Labelled = Text × Text

pub write_all : Writer → List Labelled → Writes
write_all w [] = done
write_all w ((label, chunk) ∷ xs) = write_chunk w label chunk >> write_all w xs

and_then_assoc :
    (r : List Text × Option Error) (f g : Writes) → and_then (and_then r f) g ≡ and_then r (f >> g)
and_then_assoc (sent, some e) f g = refl
and_then_assoc (sent, none) f g = refl

and_then_done : (r : List Text × Option Error) → and_then r done ≡ r
and_then_done (sent, some e) = refl
and_then_done (sent, none) = refl

and_then-pointwise :
    (r : List Text × Option Error) (f g : Writes)
    → ((sent : List Text) → f sent ≡ g sent)
    → and_then r f ≡ and_then r g
and_then-pointwise (sent, some e) f g h = refl
and_then-pointwise (sent, none) f g h = h sent

write_all-append :
    (w : Writer) (xs ys : List Labelled) (sent : List Text)
    → write_all w (xs ++ ys) sent ≡ and_then (write_all w xs sent) (write_all w ys)
unfolding write_all
write_all-append w [] ys sent = refl
write_all-append w ((label, chunk) ∷ xs) ys sent =
    and_then-pointwise (write_chunk w label chunk sent) (write_all w (xs ++ ys))
      (write_all w xs >> write_all w ys) (λ s. write_all-append w xs ys s)
    ∙ sym (and_then_assoc (write_chunk w label chunk sent) (write_all w xs) (write_all w ys))

-- The lines of a text in the exposition format, with the labels of their errors.
abbrev pub metric_line : Text → Text → Labelled
metric_line name value = (name, metric_chunk name value)

module _ {F : Type 0} (show show_bound : F → Text) where
  unfoldable pub bucket_lines : Text → List (LatencyHistogramBucket F) → List Labelled
  bucket_lines name [] = []
  bucket_lines name (b ∷ bs) =
      (
        name ++ codes " bucket",
        bucket_chunk name (show_bound b.upper_bound_seconds) b.cumulative_count,
      )
      ∷ bucket_lines name bs

  unfoldable pub last_lines : Text → LatencyHistogramSnapshot F → List Labelled
  last_lines name h =
      (name ++ codes " +Inf bucket", bucket_chunk name (codes "+Inf") h.count)
      ∷ metric_line (name ++ codes "_count") (format_int (pos h.count))
      ∷ metric_line (name ++ codes "_sum") (show h.sum_seconds)
      ∷ []

  unfoldable pub histogram_lines : Text → LatencyHistogramSnapshot F → List Labelled
  unfolding bucket_lines last_lines
  histogram_lines name h = bucket_lines name h.buckets ++ last_lines name h

  unfoldable pub lines_of : MetricsSnapshot F → List Labelled
  unfolding histogram_lines
  lines_of m =
      metric_line (codes "pg_gobench_run_active") (format_int (bool_gauge_value m.run_active))
      ∷ metric_line (codes "pg_gobench_run_duration_seconds") (show m.run_duration_seconds)
      ∷ metric_line (codes "pg_gobench_configured_clients") (format_int m.configured_clients)
      ∷ metric_line (codes "pg_gobench_active_clients") (format_int m.active_clients)
      ∷ metric_line (codes "pg_gobench_operations_total") (format_int (pos m.operations_total))
      ∷ metric_line (codes "pg_gobench_operation_errors_total")
          (format_int (pos m.operation_errors_total))
      ∷ metric_line (codes "pg_gobench_tps") (show m.tps)
      ∷ histogram_lines latency_name m.operation_latency

  write_buckets-lines :
      (w : Writer) (name : Text) (bs : List (LatencyHistogramBucket F)) (sent : List Text)
      → write_buckets show show_bound w name bs sent ≡ write_all w (bucket_lines name bs) sent
  unfolding write_buckets write_all bucket_lines
  write_buckets-lines w name [] sent = refl
  write_buckets-lines w name (b ∷ bs) sent =
      and_then-pointwise
        (write_chunk w (name ++ codes " bucket")
          (bucket_chunk name (show_bound b.upper_bound_seconds) b.cumulative_count) sent)
        (write_buckets show show_bound w name bs) (write_all w (bucket_lines name bs))
        (λ s. write_buckets-lines w name bs s)

  write_histogram-lines :
      (w : Writer) (name : Text) (h : LatencyHistogramSnapshot F)
      → (write_prometheus_histogram show show_bound w name h >> done)
        ≡ write_all w (histogram_lines name h)
  unfolding write_prometheus_histogram write_prometheus_metric write_all histogram_lines
  write_histogram-lines w name h = fun_ext (λ sent.
      and_then_done (write_prometheus_histogram show show_bound w name h sent)
      ∙ ap (λ r. and_then r (write_all w (last_lines name h)))
          (write_buckets-lines w name h.buckets sent)
      ∙ sym (write_all-append w (bucket_lines name h.buckets) (last_lines name h) sent))

  write_prometheus-lines :
      (w : Writer) (m : MetricsSnapshot F) (sent : List Text)
      → write_prometheus show show_bound w m sent ≡ write_all w (lines_of m) sent
  unfolding write_prometheus write_prometheus_metric write_all lines_of
  write_prometheus-lines w m sent =
      rw (write_histogram-lines w latency_name m.operation_latency) refl

-- The chunks up to one that the writer refuses.
pub record RefusedAt (w : Writer) (xs : List Labelled) (first : ℕ) (taken : List Text) (e : Error)
    : Type 0 where
  pub before : List Labelled
  pub label : Text
  pub chunk : Text
  pub after : List Labelled
  pub cause : Error
  pub whole : xs ≡ before ++ (label, chunk) ∷ after
  pub taken_is : taken ≡ map (λ x. x.1) before
  pub refused : w (first + length before) ≡ some cause
  pub error_is : e ≡ wrap (codes "write " ++ (label ++ codes " metric")) cause

-- The two ways in which writing ends.
abbrev pub Ends : Writer → List Labelled → List Text → List Text × Option Error → Type 0
Ends w xs sent r =
    (r ≡ (sent ++ map (λ x. x.1) xs, none))
    ⊎ ((taken : List Text) × (e : Error) × (r ≡ (sent ++ taken, some e))
        × RefusedAt w xs (length sent) taken e)

later_index :
    (sent : List Text) (chunk : Text) (xs : List Labelled)
    → length (sent ++ chunk ∷ []) + length xs ≡ length sent + suc (length xs)
later_index sent chunk xs = omega (arith, length-append sent (chunk ∷ []))

later-Ends :
    (w : Writer) (label chunk : Text) (xs : List Labelled) (sent : List Text)
    (r : List Text × Option Error)
    → Ends w xs (sent ++ chunk ∷ []) r
    → Ends w ((label, chunk) ∷ xs) sent r
later-Ends w label chunk xs sent r (inl e) =
    inl (e ∙ ap (λ s. (s, none)) (append_assoc sent (chunk ∷ []) (map (λ x. x.1) xs)))
later-Ends w label chunk xs sent r (inr (taken, e, g, s)) = inr (
  chunk ∷ taken,
  e,
  g ∙ ap (λ t. (t, some e)) (append_assoc sent (chunk ∷ []) taken),
  record {
    before = (label, chunk) ∷ s.before;
    label = s.label;
    chunk = s.chunk;
    after = s.after;
    cause = s.cause;
    whole = ap (λ ys. (label, chunk) ∷ ys) s.whole;
    taken_is = ap (λ ts. chunk ∷ ts) s.taken_is;
    refused = subst (λ n. w n ≡ some s.cause) (later_index sent chunk s.before) s.refused;
    error_is = s.error_is;
  },
)

refused_first :
    (w : Writer) (label chunk : Text) (xs : List Labelled) (sent : List Text) (e : Error)
    → w (length sent) ≡ some e
    → RefusedAt w
        ((label, chunk) ∷ xs)
        (length sent)
        []
        (wrap (codes "write " ++ (label ++ codes " metric")) e)
refused_first w label chunk xs sent e r = record {
  before = [];
  label = label;
  chunk = chunk;
  after = xs;
  cause = e;
  whole = refl;
  taken_is = refl;
  refused = subst (λ n. w n ≡ some e) (omega arith) r;
  error_is = refl;
}

write_all-Ends :
    (w : Writer) (xs : List Labelled) (sent : List Text) → Ends w xs sent (write_all w xs sent)
unfolding write_all write_chunk
write_all-Ends w [] sent = inl (ap (λ s. (s, none)) (sym (append-nil sent)))
write_all-Ends w ((label, chunk) ∷ xs) sent = elim (Option-cases (w (length sent))) [
  | inl n ↦
      rw (n, write_chunk)
        (later-Ends w label chunk xs sent (write_all w xs (sent ++ chunk ∷ []))
          (write_all-Ends w xs (sent ++ chunk ∷ [])))
  | inr (e, r) ↦
      rw (r, write_chunk)
        (inr (
          [],
          wrap (codes "write " ++ (label ++ codes " metric")) e,
          ap (λ s. (s, some (wrap (codes "write " ++ (label ++ codes " metric")) e)))
              (sym (append-nil sent)),
          refused_first w label chunk xs sent e r,
        ))
]

-- WritePrometheus writes the lines of the snapshot in order, a chunk for each, and ends without an
-- error; or it ends at the first chunk that the writer refuses, with all chunks before it written
-- and the writer's error under the name of the metric.
pub write_prometheus-Ends :
    {F : Type 0} (show show_bound : F → Text) (w : Writer) (m : MetricsSnapshot F)
    (sent : List Text)
    → Ends w (lines_of show show_bound m) sent (write_prometheus show show_bound w m sent)
write_prometheus-Ends show show_bound w m sent =
    subst (λ r. Ends w (lines_of show show_bound m) sent r)
      (sym (write_prometheus-lines show show_bound w m sent))
      (write_all-Ends w (lines_of show show_bound m) sent)
