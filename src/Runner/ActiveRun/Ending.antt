-- ===== src/Runner/ActiveRun/Ending.antt =====
-- How a run goes on and ends, under every order of events.
use mathlib.Core.List.{reverse}
use pg_gobench.Base.{
  ℕ, zero, suc, ◌≤◌, ◌≡◌, ◌≢◌, sym, subst, ◌↔◌, ◌⊎◌, inl, inr, true, false, Option, none, some,
  List, [], ◌∷◌, ◌++◌, ◌==◌, leb_ℤ, ltb_ℤ, Bool-cases, length, ℤ, pos, arith, Error, ok,
}
use pg_gobench.Benchmark.Options.{StartOptions, AlterOptions, apply_alter}
use pg_gobench.Benchmark.Options.Altering.{apply_alter-ok_iff}
use pg_gobench.Runner.ActiveRun.{
  ActiveRun, RunEvent, alters, works, exits, finishes, completes, Round, delete, start_worker,
  start_loop, stop_loop, rounds, resize_workers, exit_worker, finish, alter, resize_to, check_alter,
  await_completion, worker_round, before_run, after_run, is_counted_operation_error, step, run,
}
use pg_gobench.Runner.Stats.{set_configured_clients}
use pg_gobench.Runner.ActiveRun.Workers.{IsAscending}

IsAscending-weaken : (a a' b : ℕ) (xs : List ℕ) → a' ≤ a → IsAscending a xs b → IsAscending a' xs b
IsAscending-weaken a a' b [] l h = omega arith
IsAscending-weaken a a' b (x ∷ xs) l (m, h) = (omega arith, h)

IsAscending-append :
    (a b : ℕ) (xs : List ℕ) → IsAscending a xs b → IsAscending a (xs ++ b ∷ []) (suc b)
IsAscending-append a b [] h = (h, omega arith)
IsAscending-append a b (x ∷ xs) (l, h) = (l, IsAscending-append (suc x) b xs h)

IsAscending-delete :
    (id a b : ℕ) (xs : List ℕ) → IsAscending a xs b → IsAscending a (delete id xs) b
unfolding delete
IsAscending-delete id a b [] h = h
IsAscending-delete id a b (x ∷ xs) (l, h) =
    let rest = IsAscending-delete id (suc x) b xs h in
    elim (Bool-cases (x == id)) [
      | inl t ↦ rw t (IsAscending-weaken (suc x) a b (delete id xs) (omega arith) rest)
      | inr f ↦ rw f (l, rest)
    ]

-- The ids in the map ascend and are below the next one; the final error is the one given, if one
-- is.
pub record Keeps (first : Option (Option Error)) (r : ActiveRun) : Type 0 where
  pub ascending : IsAscending 0 r.workers r.next_id
  pub final_is : (first ≡ none) ⊎ (r.final ≡ first)

start_loop-Keeps :
    (fuel : ℕ) (target : ℤ) (first : Option (Option Error)) (r : ActiveRun)
    → Keeps first r
    → Keeps first (start_loop fuel target r)
unfolding start_loop start_worker
start_loop-Keeps zero target first r k = k
start_loop-Keeps (suc fuel) target first r k =
    let more = start_loop-Keeps fuel target first (start_worker r) record {
      ascending = IsAscending-append 0 r.next_id r.workers k.ascending;
      final_is = k.final_is;
    } in
    elim (Bool-cases (ltb_ℤ (pos (length r.workers)) target)) [ inl t ↦ rw t more | inr f ↦ rw f k ]

stop_loop-Keeps :
    (ids : List ℕ) (target : ℤ) (first : Option (Option Error)) (r : ActiveRun)
    → Keeps first r
    → Keeps first (stop_loop ids target r)
unfolding stop_loop
stop_loop-Keeps [] target first r k = k
stop_loop-Keeps (id ∷ ids) target first r k =
    let rest =
      stop_loop-Keeps ids target first
        (record r { workers = delete id r.workers; cancelled = id ∷ r.cancelled })
        record {
          ascending = IsAscending-delete id 0 r.next_id r.workers k.ascending;
          final_is = k.final_is;
        } in
    elim (Bool-cases (leb_ℤ (pos (length r.workers)) target)) [ inl t ↦ rw t k | inr f ↦ rw f rest ]

resize_workers-Keeps :
    (target : ℤ) (first : Option (Option Error)) (r : ActiveRun)
    → Keeps first r
    → Keeps first (resize_workers target r)
unfolding resize_workers
resize_workers-Keeps target first r k =
    let set = record r { stats = set_configured_clients target r.stats } in
    let grown =
      start_loop-Keeps (rounds target) target first set
        record { ascending = k.ascending; final_is = k.final_is } in
    let after = start_loop (rounds target) target set in
    elim (Bool-cases (leb_ℤ (pos (length after.workers)) target)) [
      | inl t ↦ rw t grown
      | inr f ↦ rw f (stop_loop-Keeps (reverse after.workers) target first after grown)
    ]

finish-Keeps :
    (now : ℤ) (e : Option Error) (first : Option (Option Error)) (r : ActiveRun)
    → Keeps first r
    → Keeps first (finish now e r)
unfolding finish
finish-Keeps now e first r k = record {
  ascending = ground (arith, k.ascending);
  final_is = ground (arith, k.final_is);
}

worker_round-Keeps :
    (d : Round) (first : Option (Option Error)) (r : ActiveRun)
    → Keeps first r
    → Keeps first (worker_round d r).0
unfolding worker_round before_run after_run finish
worker_round-Keeps d first r k = record {
  ascending = ground (arith, k.ascending);
  final_is = ground (arith, k.final_is);
}

resize_to-Keeps :
    (n : Option ℤ) (first : Option (Option Error)) (r : ActiveRun)
    → Keeps first r
    → Keeps first (resize_to n r)
unfolding resize_to
resize_to-Keeps none first r k = k
resize_to-Keeps (some n) first r k = resize_workers-Keeps n first r k

-- What Alter makes of a run, from the answer of its checks.
pub alter-branches :
    (a : AlterOptions) (r : ActiveRun)
    → ((alter a r).0 ≡ r) ⊎ ((alter a r).0 ≡ resize_to a.clients r)
unfolding alter
alter-branches a r = ground arith

alter-Keeps :
    (a : AlterOptions) (first : Option (Option Error)) (r : ActiveRun)
    → Keeps first r
    → Keeps first (alter a r).0
alter-Keeps a first r k = elim (alter-branches a r) [
  | inl e ↦ subst (λ t. Keeps first t) (sym e) k
  | inr e ↦ subst (λ t. Keeps first t) (sym e) (resize_to-Keeps a.clients first r k)
]

step-Keeps :
    (e : RunEvent) (first : Option (Option Error)) (r : ActiveRun)
    → Keeps first r
    → Keeps first (step e r)
unfolding step exit_worker await_completion
step-Keeps (alters a) first r k = alter-Keeps a first r k
step-Keeps (works d) first r k = worker_round-Keeps d first r k
step-Keeps (exits id) first r k = record {
  ascending = IsAscending-delete id 0 r.next_id r.workers k.ascending;
  final_is = k.final_is;
}
step-Keeps (finishes now e) first r k = finish-Keeps now e first r k
step-Keeps completes first r k = record {
  ascending = ground (arith, k.ascending);
  final_is = ground (arith, k.final_is);
}

run-Keeps :
    (es : List RunEvent) (first : Option (Option Error)) (r : ActiveRun)
    → Keeps first r
    → Keeps first (run es r)
run-Keeps [] first r k = k
run-Keeps (e ∷ es) first r k = run-Keeps es first (step e r) (step-Keeps e first r k)

-- Whatever happens to a run that is finished, by whichever worker or watcher, its final error stays
-- the one of the first call of finish, and the ids of its workers ascend and are below the next id.
pub run-first_final :
    (es : List RunEvent) (e : Option Error) (r : ActiveRun)
    → r.final ≡ some e
    → IsAscending 0 r.workers r.next_id
    → ((run es r).final ≡ some e) × IsAscending 0 (run es r).workers (run es r).next_id
run-first_final es e r f h =
    let k = run-Keeps es (some e) r record { ascending = h; final_is = inr f } in
    (ground (arith, k.final_is), k.ascending)

-- A worker goes on after a round exactly when it was let through by the pacing gate and its
-- operation succeeded, or failed with an error that is counted while its context was alive.
pub worker_round-goes_on_iff :
    (d : Round) (r : ActiveRun)
    → ((worker_round d r).1 ≡ true) ↔ (
        (d.pace_error ≡ none)
        × ((d.error ≡ none)
            ⊎ ((e : Error) × (d.error ≡ some e)
                × (d.cancelled_in_run ≡ false)
                × (d.cancelled_after ≡ false)
                × (is_counted_operation_error e ≡ true))))
unfolding worker_round before_run after_run
worker_round-goes_on_iff d r = ground arith

-- A worker that does not go on had its context cancelled, or has finished the run.
pub worker_round-leaves :
    (d : Round) (r : ActiveRun)
    → (worker_round d r).1 ≡ false
    → (d.cancelled_in_wait ≡ true)
      ⊎ ((d.cancelled_in_run ≡ true)
          ⊎ ((d.cancelled_after ≡ true) ⊎ ((worker_round d r).0.final ≢ none)))
unfolding worker_round before_run after_run finish
worker_round-leaves d r h = ground arith

-- Options that ApplyAlter accepts are never refused by the run itself.
pub apply_alter-check_alter :
    (o : StartOptions) (a : AlterOptions) (o' : StartOptions)
    → apply_alter o a ≡ ok o'
    → check_alter a ≡ ok tt
unfolding check_alter
apply_alter-check_alter o a o' h =
    let v = ((apply_alter-ok_iff o a o').0 h).0 in
    ground (arith, v.some_field, v.clients_ok, v.target_tps_ok)
