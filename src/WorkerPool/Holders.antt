-- ===== src/WorkerPool/Holders.antt =====
-- The pool of ext/iodine/iodine_worker_pool.c as a client of `IodineStore`: what it has put there
-- and what it has taken back.
use iodine.Base.{
  ℕ, ◌+◌, ◌≡◌, refl, sym, subst, true, false, List, [], ◌∷◌, ◌++◌, Option, none, some, arith,
  if◌then◌else◌, get_elem?, Option-cases, inl, inr,
}
use iodine.Ruby.{Value, one_of}
use iodine.WorkerPool.Pool.{
  Work, Worker, Pool, Action, waiting, executing, returned, exited, callbacks, enqueues, advances,
  unblocks, runs_deferred, closes, finishes_close, frees, step, enqueue, unblock, leave_operation,
  worker_pool_complete, run_deferred, close, finish_close, free,
}
use iodine.WorkerPool.Workers.{
  holds, holds-append, holds-callbacks-append, carried, carried-set, carried_of_exited,
}
use iodine.WorkerPool.Moves.{Moves, leaves, wakes, takes, operates, completes, step-Moves}

-- The callbacks that the pool still has to call or to let go of, and the pool itself while open.
abbrev pub keeps : Value → Pool → ℕ
keeps v p =
    holds v (callbacks p.queue)
    + carried v p.workers
    + holds v (callbacks p.deferred)
    + (if p.initialized then one_of p.self v else 0)

-- Of the value `v` the pool has stored as many as it has released and still keeps.
pub record Holds (v : Value) (p : Pool) : Type 0 where
  pub balance : holds v p.history.stored ≡ holds v p.history.released + keeps v p
  pub opened : p.closing ≡ true → p.initialized ≡ true

move-Holds :
    (v : Value) (i : ℕ) (w : Worker) (p q : Pool)
    → get_elem? p.workers i ≡ some w
    → Moves i w p q
    → Holds v p
    → Holds v q
unfolding leave_operation worker_pool_complete
move-Holds v i w p q g (leaves f s e) h =
    subst (Holds v) (sym e)
      (ground (arith, carried-set v p.workers i w (record w { phase = exited }) g))
move-Holds v i w p q g (wakes f s e) h =
    subst (Holds v) (sym e)
      (ground (arith, carried-set v p.workers i w (record w { interrupted = false }) g))
move-Holds v i w p q g (takes x rest f s n e e') h = subst (Holds v) (sym e') (
    ground (
      arith,
      carried-set v p.workers i w
          (record w { current_op = some x.blocking_operation; phase = executing x }) g,
    ))
move-Holds v i w p q g (operates x f e) h = subst (Holds v) (sym e) (
    ground
      (arith, carried-set v p.workers i w (record w { current_op = none; phase = returned x }) g))
move-Holds v i w p q g (completes x f e) h = subst (Holds v) (sym e) (
    ground (
      arith,
      carried-set v p.workers i w (record w { phase = waiting }) g,
      holds-callbacks-append v p.deferred (x ∷ []),
    ))

enqueue-Holds :
    (v : Value) (callback : Option Value) (operation : Option ℕ) (p : Pool)
    → Holds v p
    → Holds v (enqueue callback operation p).0
unfolding enqueue
enqueue-Holds v none operation p h = h
enqueue-Holds v (some x) none p h = ground arith
enqueue-Holds v (some x) (some op) p h = ground (
  arith,
  holds-append v p.history.stored (x ∷ []),
  holds-callbacks-append v p.queue (record { blocking_operation = op; callback = x } ∷ []),
)

unblock-Holds :
    (v : Value) (i : ℕ) (w : Worker) (p : Pool)
    → get_elem? p.workers i ≡ some w
    → Holds v p
    → Holds v (unblock i w p)
unfolding unblock
unblock-Holds v i w p g h =
    ground (arith, carried-set v p.workers i w (record w { interrupted = true }) g)

run_deferred-Holds :
    (v : Value) (p q : Pool) (xs : List Work)
    → p.deferred ≡ xs
    → run_deferred p ≡ some q
    → Holds v p
    → Holds v q
unfolding run_deferred
run_deferred-Holds v p q [] e r h = absurd (ground arith)
run_deferred-Holds v p q (x ∷ xs) e r h =
    ground (arith, holds-append v p.history.released (x.callback ∷ []))

finish_close-Holds : (v : Value) (p q : Pool) → finish_close p ≡ some q → Holds v p → Holds v q
unfolding finish_close
finish_close-Holds v p q r h = ground (
  arith,
  carried_of_exited v p.workers,
  holds-append v (p.history.released ++ callbacks p.queue) (p.self ∷ []),
  holds-append v p.history.released (callbacks p.queue),
)

-- Every step of any thread keeps the balance, for every value.
pub step-Holds : (v : Value) (a : Action) (p q : Pool) → step a p ≡ some q → Holds v p → Holds v q
unfolding step close free
step-Holds v (enqueues x op) p q r h = ground (arith, enqueue-Holds v x op p h)
step-Holds v (advances i) p q r h = let (w, g, m) = step-Moves i p q r in move-Holds v i w p q g m h
step-Holds v (unblocks i) p q r h = elim (Option-cases (get_elem? p.workers i)) [
  | inl e ↦ absurd (ground arith)
  | inr (w, e) ↦ ground (arith, unblock-Holds v i w p e h)
]
step-Holds v runs_deferred p q r h = run_deferred-Holds v p q p.deferred refl r h
step-Holds v closes p q r h = ground arith
step-Holds v finishes_close p q r h = finish_close-Holds v p q r h
step-Holds v frees p q r h = ground arith
