-- ===== src/Runner/ActiveRun.antt =====
-- activeRun of internal/benchrunner/runtime.go. A section under the run's mutex, or a step of a
-- worker between two calls into other code, is one function. The map of workers is the list of its
-- keys in ascending order; the wait group is the list of the workers whose goroutine has not ended.
pub mod Workers
pub mod Ending
pub mod Leaks
mod Examples
use pg_gobench.Base.{
  ℕ, zero, suc, ◌+◌, ◌≡◌, Bool, true, false, not, ◌&&◌, ◌||◌, Option, none, some, List, [], ◌∷◌,
  ◌++◌, ◌==◌, if◌then◌else◌, length, ℤ, pos, ltb_ℤ, leb_ℤ, ◌-ℤ◌, ◌*ℤ◌, wrap_int64, Text, codes,
  Error, plain, wrap, counted, Result, ok, err, ◌>>◌, refuse_if,
}
use mathlib.Core.List.{reverse}
use pg_gobench.Benchmark.Options.{StartOptions, AlterOptions, is_none, refuse_below_one}
use pg_gobench.Runner.Stats.{
  RunStats, set_configured_clients, worker_started, worker_stopped, record_operation,
}
use pg_gobench.Runner.Stats

-- `final` is none before the first call of finish, and then the error given to it. `cancelled` holds
-- the workers whose own context was cancelled; `stopped` tells of stopCtx, `closed` of done.
pub record ActiveRun : Type 0 where
  pub stats : RunStats
  pub workers : List ℕ
  pub next_id : ℕ
  pub goroutines : List ℕ
  pub cancelled : List ℕ
  pub stopped : Bool
  pub final : Option (Option Error)
  pub closed : Bool

pub delete : ℕ → List ℕ → List ℕ
delete id [] = []
delete id (x ∷ xs) = let rest = delete id xs in if x == id then rest else x ∷ rest

-- startWorkerLocked, up to the new goroutine.
pub start_worker : ActiveRun → ActiveRun
start_worker r = record r {
  stats = worker_started r.stats;
  workers = r.workers ++ r.next_id ∷ [];
  next_id = suc r.next_id;
  goroutines = r.goroutines ++ r.next_id ∷ [];
}

-- `for len(r.workers) < target`, on fuel. Each round adds a worker, so `target` rounds are enough.
pub start_loop : ℕ → ℤ → ActiveRun → ActiveRun
start_loop zero target r = r
start_loop (suc fuel) target r =
    let more = start_loop fuel target (start_worker r) in
    if ltb_ℤ (pos (length r.workers)) target then more else r

-- The loop over the sorted ids.
pub stop_loop : List ℕ → ℤ → ActiveRun → ActiveRun
stop_loop [] target r = r
stop_loop (id ∷ ids) target r =
    let rest =
      stop_loop ids target
        (record r { workers = delete id r.workers; cancelled = id ∷ r.cancelled }) in
    if leb_ℤ (pos (length r.workers)) target then r else rest

abbrev rounds : ℤ → ℕ
rounds (pos n) = n
rounds _ = 0

-- resizeWorkers. The keys in ascending order, reversed, are the ids in descending order.
unfoldable pub resize_workers : ℤ → ActiveRun → ActiveRun
unfolding start_loop stop_loop
resize_workers target r =
    let configured = record r { stats = set_configured_clients target r.stats } in
    let grown = start_loop (rounds target) target configured in
    if leb_ℤ (pos (length grown.workers)) target
    then grown
    else stop_loop (reverse grown.workers) target grown

-- newActiveRun at a time, with the workers of its first resize.
unfoldable pub new_active_run : StartOptions → ℤ → ActiveRun
new_active_run o now = resize_workers o.clients record {
  stats = Stats.new_run_stats now (wrap_int64 (o.warmup_seconds *ℤ pos 1000000000)) o.clients;
  workers = [];
  next_id = 0;
  goroutines = [];
  cancelled = [];
  stopped = false;
  final = none;
  closed = false;
}

-- The deferred calls of a worker: workerStopped and wg.Done.
unfoldable pub exit_worker : ℕ → ActiveRun → ActiveRun
exit_worker id r = record r {
  stats = worker_stopped r.stats;
  workers = delete id r.workers;
  goroutines = delete id r.goroutines;
}

-- finish, at a time that the clock gives; only the first call has an effect.
unfoldable pub finish : ℤ → Option Error → ActiveRun → ActiveRun
finish now e r = elim r.final [
  | some first ↦ r
  | none ↦ record r { stats = Stats.finish now e r.stats; stopped = true; final = some e }
]

-- The checks of Alter.
unfoldable pub check_alter : AlterOptions → Result (Unit {0})
check_alter a = do
  refuse_if (is_none a.clients && is_none a.target_tps)
      (codes "alter request must include at least one field")
  refuse_below_one a.clients (codes "clients must be at least 1")
  refuse_below_one a.target_tps (codes "target_tps must be at least 1")

pub resize_to : Option ℤ → ActiveRun → ActiveRun
resize_to none r = r
resize_to (some n) r = resize_workers n r

-- Alter: the run after it, the update of the pacing gate if there is one, and the error.
unfoldable pub alter : AlterOptions → ActiveRun → ActiveRun × Option ℤ × Result (Unit {0})
unfolding resize_to
alter a r = elim (check_alter a) [
  | err e ↦ (r, none, err e)
  | ok _ ↦ (resize_to a.clients r, a.target_tps, ok tt)
]

-- awaitCompletion: the wait group has counted down to 0.
unfoldable pub await_completion : ActiveRun → ActiveRun
await_completion r = elim r.goroutines [ [] ↦ record r { closed = true } | _ ∷ _ ↦ r ]

-- errors.As for a countedOperationError.
unfoldable pub is_counted_operation_error : Error → Bool
is_counted_operation_error (counted e) = true
is_counted_operation_error (wrap p e) = is_counted_operation_error e
is_counted_operation_error (Error.joined a b) =
    is_counted_operation_error a || is_counted_operation_error b
is_counted_operation_error _ = false

-- What a worker does in a round: the error of pace.Wait, what RunOnce returns with the times about
-- it, and whether ctx.Err() is set at each of the places where the loop reads it.
pub record Round : Type 0 where
  pub pace_error : Option Error
  pub cancelled_in_wait : Bool
  pub kind : ℤ
  pub error : Option Error
  pub started_at : ℤ
  pub finished_at : ℤ
  pub cancelled_in_run : Bool
  pub cancelled_after : Bool

-- The loop of a worker from RunOnce on; the flag says that the loop goes on.
after_run : Round → Option Error → ActiveRun → ActiveRun × Bool
after_run d none r = (
  record r {
    stats = record_operation d.kind (d.finished_at -ℤ d.started_at) d.finished_at none r.stats;
  },
  true,
)
after_run d (some e) r =
    let noted = record r {
      stats =
          record_operation d.kind (d.finished_at -ℤ d.started_at) d.finished_at (some e) r.stats;
    } in
    if d.cancelled_in_run
    then (r, false)
    else if d.cancelled_after
    then (noted, false)
    else if is_counted_operation_error e
    then (noted, true)
    else (finish d.finished_at (some e) noted, false)

before_run : Round → Option Error → ActiveRun → ActiveRun × Bool
unfolding after_run
before_run d (some e) r =
    if d.cancelled_in_wait
    then (r, false)
    else (finish d.started_at (some (wrap (codes "pace workload") e)) r, false)
before_run d none r = after_run d d.error r

-- One round of the loop of startWorkerLocked's goroutine.
unfoldable pub worker_round : Round → ActiveRun → ActiveRun × Bool
unfolding before_run
worker_round d r = before_run d d.pace_error r

-- What happens to a run once it is made, in an order that the scheduler picks: a call of Alter, a
-- round of a worker, the end of a worker, a call of finish by one of the two watchers, and the end
-- of awaitCompletion's wait.
pub data RunEvent : Type 0 where
  alters : AlterOptions → RunEvent
  works : Round → RunEvent
  exits : ℕ → RunEvent
  finishes : ℤ → Option Error → RunEvent
  completes : RunEvent

unfoldable pub step : RunEvent → ActiveRun → ActiveRun
step (alters a) r = (alter a r).0
step (works d) r = (worker_round d r).0
step (exits id) r = exit_worker id r
step (finishes now e) r = finish now e r
step completes r = await_completion r

abbrev pub run : List RunEvent → ActiveRun → ActiveRun
run [] r = r
run (e ∷ es) r = run es (step e r)
