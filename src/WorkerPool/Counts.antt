-- ===== src/WorkerPool/Counts.antt =====
-- The counters that `stats` reports (ext/iodine/iodine_worker_pool.c) against what happened.
use iodine.Base.{
  ℕ, ◌+◌, ◌≤◌, ◌≡◌, true, false, [], ◌∷◌, Option, none, some, arith, u64, length, length-append,
  length-set, get_elem?, subst, sym, Option-cases, inl, inr,
}
use iodine.Ruby.{Value}
use iodine.WorkerPool.Pool.{
  Worker, Pool, Action, waiting, executing, returned, exited, enqueues, advances, unblocks,
  runs_deferred, closes, finishes_close, frees, step, enqueue, unblock, leave_operation,
  worker_pool_complete, run_deferred, close, finish_close, free,
}
use iodine.WorkerPool.Moves.{Moves, leaves, wakes, takes, operates, completes, step-Moves}
use iodine.WorkerPool.Workers.{in_flight, in_flight-set, in_flight_of_exited}

pub record Counted (p : Pool) : Type 0 where
  pub submits : p.submitted_count ≡ u64 (length p.history.submitted)
  pub completes : p.completed_count ≡ u64 (length p.history.completed)
  pub in_progress : p.in_progress_count ≡ u64 (in_flight p.workers)
  pub flow : length p.history.started ≡ in_flight p.workers + length p.history.completed
  pub threads : p.worker_count ≡ length p.workers
  pub capped : p.worker_count ≤ p.max_workers

pub move-Counted :
    (i : ℕ) (w : Worker) (p q : Pool)
    → get_elem? p.workers i ≡ some w
    → Moves i w p q
    → Counted p
    → Counted q
unfolding leave_operation worker_pool_complete
move-Counted i w p q g (leaves f s e) c =
    let v = record w { phase = exited } in
    subst Counted (sym e)
      (ground (arith, in_flight-set p.workers i w v g, length-set p.workers i v))
move-Counted i w p q g (wakes f s e) c =
    let v = record w { interrupted = false } in
    subst Counted (sym e)
      (ground (arith, in_flight-set p.workers i w v g, length-set p.workers i v))
move-Counted i w p q g (takes x rest f s n e e') c =
    let v = record w { current_op = some x.blocking_operation; phase = executing x } in
    subst Counted (sym e') (
      ground (
        arith,
        in_flight-set p.workers i w v g,
        length-set p.workers i v,
        length-append p.history.started (x ∷ []),
      ))
move-Counted i w p q g (operates x f e) c =
    let v = record w { current_op = none; phase = returned x } in
    subst Counted (sym e)
      (ground (arith, in_flight-set p.workers i w v g, length-set p.workers i v))
move-Counted i w p q g (completes x f e) c =
    let v = record w { phase = waiting } in
    subst Counted (sym e) (
      ground (
        arith,
        in_flight-set p.workers i w v g,
        length-set p.workers i v,
        length-append p.history.completed (x ∷ []),
      ))

enqueue-Counted :
    (callback : Option Value) (operation : Option ℕ) (p : Pool)
    → Counted p
    → Counted (enqueue callback operation p).0
unfolding enqueue
enqueue-Counted none operation p c = c
enqueue-Counted (some v) none p c = ground arith
enqueue-Counted (some v) (some op) p c = ground (
  arith,
  length-append p.history.submitted (record { blocking_operation = op; callback = v } ∷ []),
)

unblock-Counted :
    (i : ℕ) (w : Worker) (p : Pool)
    → get_elem? p.workers i ≡ some w
    → Counted p
    → Counted (unblock i w p)
unfolding unblock
unblock-Counted i w p g c =
    let v = record w { interrupted = true } in
    ground (arith, in_flight-set p.workers i w v g, length-set p.workers i v)

-- Every step of any thread keeps the counters equal to what happened, modulo the word size.
pub step-Counted : (a : Action) (p q : Pool) → step a p ≡ some q → Counted p → Counted q
unfolding step run_deferred close finish_close free
step-Counted (enqueues v op) p q h c = ground (arith, enqueue-Counted v op p c)
step-Counted (advances i) p q h c = let (w, g, m) = step-Moves i p q h in move-Counted i w p q g m c
step-Counted (unblocks i) p q h c = elim (Option-cases (get_elem? p.workers i)) [
  | inl e ↦ absurd (ground arith)
  | inr (w, e) ↦ ground (arith, unblock-Counted i w p e c)
]
step-Counted runs_deferred p q h c = ground arith
step-Counted closes p q h c = ground arith
step-Counted finishes_close p q h c = ground (arith, in_flight_of_exited p.workers)
step-Counted frees p q h c = ground arith
