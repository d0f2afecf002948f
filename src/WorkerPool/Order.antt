-- ===== src/WorkerPool/Order.antt =====
-- The order in which the pool of ext/iodine/iodine_worker_pool.c serves its work, and what becomes
-- of the work that it does not serve.
use iodine.Base.{
  ℕ, ◌≡◌, refl, sym, ap, ◌∙◌, subst, true, false, List, [], ◌∷◌, ◌++◌, append_assoc, append-nil,
  Option, none, some, arith, length, length-set, get_elem?, Option-cases, inl, inr,
}
use iodine.Ruby.{Value}
use iodine.WorkerPool.Pool.{
  Work, Worker, Pool, Action, waiting, returned, exited, enqueues, advances, unblocks,
  runs_deferred, closes, finishes_close, frees, step, enqueue, unblock, leave_operation,
  worker_pool_complete, run_deferred, close, finish_close, free,
}
use iodine.WorkerPool.Moves.{Moves, leaves, wakes, takes, operates, completes, step-Moves}

-- Work is served in the order of submission; what `close` discards and what still waits comes
-- after all that was served. Nothing is discarded before the shutdown. The callbacks come in the
-- order of completion. A pool that joins is shut down, and a pool that is not open is shut down, has no
-- work and no workers.
pub record Ordered (p : Pool) : Type 0 where
  pub served : p.history.submitted ≡ p.history.started ++ (p.history.discarded ++ p.queue)
  pub kept : p.shutdown ≡ false → p.history.discarded ≡ []
  pub answers : p.history.completed ≡ p.history.called_back ++ p.deferred
  pub joining : p.closing ≡ true → p.shutdown ≡ true
  pub emptied :
      p.initialized ≡ false → (p.shutdown ≡ true) × (p.queue ≡ []) × (length p.workers ≡ 0)

append_one :
    (xs ys zs : List Work) (x : Work) → (xs ++ (ys ++ zs)) ++ x ∷ [] ≡ xs ++ (ys ++ (zs ++ x ∷ []))
append_one xs ys zs x =
    append_assoc xs (ys ++ zs) (x ∷ []) ∙ ap (◌++◌ xs) (append_assoc ys zs (x ∷ []))

pub move-Ordered : (i : ℕ) (w : Worker) (p q : Pool) → Moves i w p q → Ordered p → Ordered q
unfolding leave_operation worker_pool_complete
move-Ordered i w p q (leaves f s e) o =
    subst Ordered (sym e) (ground (arith, length-set p.workers i (record w { phase = exited })))
move-Ordered i w p q (wakes f s e) o =
    subst Ordered (sym e)
      (ground (arith, length-set p.workers i (record w { interrupted = false })))
move-Ordered i w p q (takes x rest f s n e e') o = subst Ordered (sym e') (record {
  served = rw (o.served, o.kept s, e) (sym (append_assoc p.history.started (x ∷ []) rest));
  kept = o.kept;
  answers = o.answers;
  joining = o.joining;
  emptied = λ d. absurd (ground (arith, o.emptied d));
})
move-Ordered i w p q (operates x f e) o =
    subst Ordered (sym e)
      (ground (arith, length-set p.workers i (record w { current_op = none; phase = returned x })))
move-Ordered i w p q (completes x f e) o = subst Ordered (sym e) (record {
  served = o.served;
  kept = o.kept;
  answers = rw o.answers (append_assoc p.history.called_back p.deferred (x ∷ []));
  joining = o.joining;
  emptied = ground (arith, length-set p.workers i (record w { phase = waiting }));
})

enqueue-Ordered :
    (callback : Option Value) (operation : Option ℕ) (p : Pool)
    → Ordered p
    → Ordered (enqueue callback operation p).0
unfolding enqueue
enqueue-Ordered none operation p o = o
enqueue-Ordered (some v) none p o = ground arith
enqueue-Ordered (some v) (some op) p o = ground (
  arith,
  append_one p.history.started p.history.discarded p.queue
      (record { blocking_operation = op; callback = v }),
)

finish_close-Ordered : (p q : Pool) → finish_close p ≡ some q → Ordered p → Ordered q
unfolding finish_close
finish_close-Ordered p q h o = ground (arith, append-nil (p.history.discarded ++ p.queue))

run_deferred-Ordered : (p q : Pool) → run_deferred p ≡ some q → Ordered p → Ordered q
unfolding run_deferred
run_deferred-Ordered p q h o = go p.deferred refl
  where
    go : (xs : List Work) → p.deferred ≡ xs → Ordered q
    go [] e = absurd (ground arith)
    go (x ∷ xs) e = ground (arith, append_assoc p.history.called_back (x ∷ []) xs)

-- Every step of any thread keeps the order.
pub step-Ordered : (a : Action) (p q : Pool) → step a p ≡ some q → Ordered p → Ordered q
unfolding step unblock close free
step-Ordered (enqueues v op) p q h o = ground (arith, enqueue-Ordered v op p o)
step-Ordered (advances i) p q h o = let (w, g, m) = step-Moves i p q h in move-Ordered i w p q m o
step-Ordered (unblocks i) p q h o = elim (Option-cases (get_elem? p.workers i)) [
  | inl e ↦ absurd (ground arith)
  | inr (w, e) ↦ ground (arith, length-set p.workers i (record w { interrupted = true }))
]
step-Ordered runs_deferred p q h o = run_deferred-Ordered p q h o
step-Ordered closes p q h o = ground arith
step-Ordered finishes_close p q h o = finish_close-Ordered p q h o
step-Ordered frees p q h o = ground arith
