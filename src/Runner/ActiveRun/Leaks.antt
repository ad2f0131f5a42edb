-- ===== src/Runner/ActiveRun/Leaks.antt =====
-- No goroutine of a worker is lost: it can still be cancelled, or has been.
use mathlib.Core.List.{reverse}
use pg_gobench.Base.{
  ℕ, zero, suc, ◌≡◌, refl, sym, subst, inl, inr, Bool, true, false, not, ◌&&◌, ◌||◌, Option, none,
  some, List, [], ◌∷◌, ◌++◌, arith, ◌==◌, Bool-cases, length, ℤ, pos, ltb_ℤ, leb_ℤ, Error,
}
use pg_gobench.Benchmark.Options.{StartOptions, AlterOptions}
use pg_gobench.Runner.Stats.{set_configured_clients}
use pg_gobench.Runner.ActiveRun.{
  ActiveRun, delete, start_worker, start_loop, stop_loop, rounds, resize_workers, new_active_run,
  exit_worker, finish, resize_to, alter, await_completion, Round, after_run, before_run,
  worker_round, RunEvent, alters, works, exits, finishes, completes, step, run,
}
use pg_gobench.Runner.ActiveRun.Ending.{alter-branches}

pub has : ℕ → List ℕ → Bool
has id [] = false
has id (x ∷ xs) = (id == x) || has id xs

has-append : (id : ℕ) (xs ys : List ℕ) → has id (xs ++ ys) ≡ (has id xs || has id ys)
unfolding has
has-append id [] ys = refl
has-append id (x ∷ xs) ys = ground (arith, has-append id xs ys)

has-delete : (id x : ℕ) (xs : List ℕ) → has id (delete x xs) ≡ (has id xs && not (id == x))
unfolding has delete
has-delete id x [] = refl
has-delete id x (y ∷ xs) = ground (arith, has-delete id x xs)

-- Every goroutine is one of the workers, or its context was cancelled.
abbrev pub IsCovered : ActiveRun → Type 0
IsCovered r =
    (id : ℕ) → has id r.goroutines ≡ true → (has id r.workers || has id r.cancelled) ≡ true

start_worker-IsCovered : (r : ActiveRun) → IsCovered r → IsCovered (start_worker r)
unfolding start_worker has
start_worker-IsCovered r c id = ground (
  arith,
  c id,
  has-append id r.workers (r.next_id ∷ []),
  has-append id r.goroutines (r.next_id ∷ []),
)

start_loop-IsCovered :
    (fuel : ℕ) (target : ℤ) (r : ActiveRun) → IsCovered r → IsCovered (start_loop fuel target r)
unfolding start_loop
start_loop-IsCovered zero target r c = c
start_loop-IsCovered (suc fuel) target r c =
    let more = start_loop-IsCovered fuel target (start_worker r) (start_worker-IsCovered r c) in
    elim (Bool-cases (ltb_ℤ (pos (length r.workers)) target)) [ inl t ↦ rw t more | inr f ↦ rw f c ]

cancel-IsCovered :
    (x : ℕ) (r : ActiveRun)
    → IsCovered r
    → IsCovered (record r { workers = delete x r.workers; cancelled = x ∷ r.cancelled })
unfolding has
cancel-IsCovered x r c id = ground (arith, c id, has-delete id x r.workers)

stop_loop-IsCovered :
    (ids : List ℕ) (target : ℤ) (r : ActiveRun) → IsCovered r → IsCovered (stop_loop ids target r)
unfolding stop_loop
stop_loop-IsCovered [] target r c = c
stop_loop-IsCovered (x ∷ ids) target r c =
    let rest =
      stop_loop-IsCovered ids target
        (record r { workers = delete x r.workers; cancelled = x ∷ r.cancelled })
        (cancel-IsCovered x r c) in
    elim (Bool-cases (leb_ℤ (pos (length r.workers)) target)) [ inl t ↦ rw t c | inr f ↦ rw f rest ]

resize_workers-IsCovered :
    (target : ℤ) (r : ActiveRun) → IsCovered r → IsCovered (resize_workers target r)
unfolding resize_workers
resize_workers-IsCovered target r c =
    let set = record r { stats = set_configured_clients target r.stats } in
    let after = start_loop (rounds target) target set in
    let grown = start_loop-IsCovered (rounds target) target set c in
    elim (Bool-cases (leb_ℤ (pos (length after.workers)) target)) [
      | inl t ↦ rw t grown
      | inr f ↦ rw f (stop_loop-IsCovered (reverse after.workers) target after grown)
    ]

resize_to-IsCovered : (n : Option ℤ) (r : ActiveRun) → IsCovered r → IsCovered (resize_to n r)
unfolding resize_to
resize_to-IsCovered none r c = c
resize_to-IsCovered (some n) r c = resize_workers-IsCovered n r c

alter-IsCovered : (a : AlterOptions) (r : ActiveRun) → IsCovered r → IsCovered (alter a r).0
alter-IsCovered a r c = elim (alter-branches a r) [
  | inl e ↦ subst (λ t. IsCovered t) (sym e) c
  | inr e ↦ subst (λ t. IsCovered t) (sym e) (resize_to-IsCovered a.clients r c)
]

worker_round-IsCovered : (d : Round) (r : ActiveRun) → IsCovered r → IsCovered (worker_round d r).0
unfolding worker_round before_run after_run finish
worker_round-IsCovered d r c id = ground (arith, c id)

finish-IsCovered :
    (now : ℤ) (e : Option Error) (r : ActiveRun) → IsCovered r → IsCovered (finish now e r)
unfolding finish
finish-IsCovered now e r c id = ground (arith, c id)

step-IsCovered : (e : RunEvent) (r : ActiveRun) → IsCovered r → IsCovered (step e r)
unfolding step exit_worker await_completion
step-IsCovered (alters a) r c = alter-IsCovered a r c
step-IsCovered (works d) r c = worker_round-IsCovered d r c
step-IsCovered (exits x) r c =
    λ id. ground (arith, c id, has-delete id x r.workers, has-delete id x r.goroutines)
step-IsCovered (finishes now e) r c = finish-IsCovered now e r c
step-IsCovered completes r c = λ id. ground (arith, c id)

run_from-IsCovered : (es : List RunEvent) (r : ActiveRun) → IsCovered r → IsCovered (run es r)
run_from-IsCovered [] r c = c
run_from-IsCovered (e ∷ es) r c = run_from-IsCovered es (step e r) (step-IsCovered e r c)

-- Whatever happens to a new run, and in whatever order: each goroutine of a worker that has not
-- ended is among the workers, where a later resize can cancel it, or its context was cancelled.
pub run-IsCovered :
    (o : StartOptions) (now : ℤ) (es : List RunEvent) → IsCovered (run es (new_active_run o now))
unfolding new_active_run has
run-IsCovered o now es =
    run_from-IsCovered es (new_active_run o now) (resize_workers-IsCovered o.clients _ (λ id h. cc))
