-- ===== src/WorkerPool/Closing.antt =====
-- What a shutdown does to the threads of ext/iodine/iodine_worker_pool.c, and that the joins of
-- `worker_pool_close` end.
use iodine.Base.{
  ℕ, zero, suc, ◌<◌, ◌≡◌, ◌≢◌, refl, ◌∙◌, true, false, List, [], ◌∷◌, Option, none, some, arith,
  get_elem?, Bool-cases, inl, inr,
}
use iodine.WorkerPool.Pool.{
  Worker, Phase, Pool, Action, Reach, here, next, waiting, executing, returned, exited, enqueues,
  advances, unblocks, runs_deferred, closes, finishes_close, frees, step, advance, leave_operation,
  worker_pool_complete, enqueue, unblock, run_deferred, close, finish_close, free, all_exited,
  is_exited, put_worker, tear_down,
}
use iodine.WorkerPool.Workers.{sum_of, sum_of-set}
use iodine.WorkerPool.Moves.{Moves, leaves, wakes, takes, operates, completes, step-Moves}

-- A shutdown is final, and from then on no work is accepted and none is started.
pub step_of_shutdown :
    (a : Action) (p q : Pool)
    → step a p ≡ some q
    → p.shutdown ≡ true
    → (q.shutdown ≡ true)
      × (q.history.submitted ≡ p.history.submitted)
      × (q.history.started ≡ p.history.started)
unfolding step enqueue unblock run_deferred close finish_close free leave_operation
    worker_pool_complete
step_of_shutdown (enqueues none op) p q h s = ground arith
step_of_shutdown (enqueues (some v) op) p q h s = ground arith
step_of_shutdown (advances i) p q h s = go (step-Moves i p q h).0 (step-Moves i p q h).2
  where
    go :
        (w : Worker)
        → Moves i w p q
        → (q.shutdown ≡ true)
          × (q.history.submitted ≡ p.history.submitted)
          × (q.history.started ≡ p.history.started)
    go w (leaves f t e) = ground arith
    go w (wakes f t e) = ground arith
    go w (takes x rest f t n e e') = ground arith
    go w (operates x f e) = ground arith
    go w (completes x f e) = ground arith
step_of_shutdown (unblocks i) p q h s = ground arith
step_of_shutdown runs_deferred p q h s = ground arith
step_of_shutdown closes p q h s = ground arith
step_of_shutdown finishes_close p q h s = ground arith
step_of_shutdown frees p q h s = ground arith

-- How many steps a thread still makes after a shutdown.
abbrev pub rank : Phase → ℕ
rank (executing x) = 3
rank (returned x) = 2
rank waiting = 1
rank exited = 0

abbrev pub ranks : List Worker → ℕ
ranks = sum_of (λ w. rank w.phase)

-- A worker that has not left, by its place.
find_running :
    (ws : List Worker)
    → all_exited ws ≡ false
    → (i : ℕ) × (w : Worker) × (get_elem? ws i ≡ some w) × (w.phase ≢ exited)
find_running [] h = cc
find_running (w ∷ ws) h = elim (Bool-cases (is_exited w.phase)) [
  | inl gone ↦ let (i, v, g, n) = find_running ws (ground arith) in (suc i, v, g, n)
  | inr stays ↦ (0, w, refl, λ e. ground arith)
]

-- The step that a thread makes after a shutdown.
abbrev Leaves : ℕ → Pool → Pool → Option Pool → Type 0
Leaves i p q r =
    (r ≡ some q)
    × (q.shutdown ≡ true)
    × (q.closing ≡ p.closing)
    × (ranks q.workers < ranks p.workers)

advance-Leaves :
    (ph : Phase) (i : ℕ) (w : Worker) (p : Pool)
    → get_elem? p.workers i ≡ some w
    → w.phase ≡ ph
    → ph ≢ exited
    → p.shutdown ≡ true
    → (q : Pool) × Leaves i p q (advance ph i w p)
unfolding advance
advance-Leaves waiting i w p g e n s =
    let v = record w { phase = exited } in
    let sum = sum_of-set (λ (u : Worker). rank u.phase) p.workers i w v g in
    (put_worker i v p, (rw s, s, refl, ground (arith, sum)))
advance-Leaves (executing x) i w p g e n s =
    let v = record w { current_op = none; phase = returned x } in
    let sum = sum_of-set (λ (u : Worker). rank u.phase) p.workers i w v g in
    (leave_operation i w x p, (refl, s, refl, ground (arith, sum)))
advance-Leaves (returned x) i w p g e n s =
    let v = record w { phase = waiting } in
    let sum = sum_of-set (λ (u : Worker). rank u.phase) p.workers i w v g in
    (worker_pool_complete i w x p, (refl, s, refl, ground (arith, sum)))
advance-Leaves exited i w p g e n s = absurd (n refl)

step-Leaves :
    (i : ℕ) (w : Worker) (p : Pool)
    → get_elem? p.workers i ≡ some w
    → w.phase ≢ exited
    → p.shutdown ≡ true
    → (q : Pool) × Leaves i p q (step (advances i) p)
unfolding step
step-Leaves i w p g n s =
    let (q, l) = advance-Leaves w.phase i w p g refl n s in (q, (rw (g, step) l.0, l.1, l.2, l.3))

abbrev pub IsClosed : Pool → Type 0
IsClosed p = (p.initialized ≡ false) × (p.workers ≡ []) × (p.queue ≡ [])

joined :
    (p : Pool)
    → p.closing ≡ true
    → all_exited p.workers ≡ true
    → step finishes_close p ≡ some (tear_down p)
unfolding step finish_close
joined p c e = rw (c, e)

Reach-step : {p q r : Pool} (a : Action) → step a p ≡ some q → Reach q r → Reach p r
Reach-step a e here = next a here e
Reach-step a e (next b run f) = next b (Reach-step a e run) f

-- A `close` that waits for its threads always gets to its end: there are steps of the threads
-- after which it returns, with no worker and no work left.
pub close_returns :
    (fuel : ℕ) (p : Pool)
    → ranks p.workers < fuel
    → p.shutdown ≡ true
    → p.closing ≡ true
    → (q : Pool) × Reach p q × IsClosed q
close_returns zero p h s c = absurd (omega arith)
close_returns (suc fuel) p h s c = elim (Bool-cases (all_exited p.workers)) [
  | inl gone ↦ (tear_down p, next finishes_close here (joined p c gone), (refl, refl, refl))
  | inr some_left ↦
      let (i, w, g, n) = find_running p.workers some_left in
      let (q, l) = step-Leaves i w p g n s in
      let (r, run, closed) = close_returns fuel q (omega (arith, l.3, h)) l.1 (l.2 ∙ c) in
      (r, Reach-step (advances i) l.0 run, closed)
]
