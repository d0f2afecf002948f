-- ===== src/WorkerPool/Moves.antt =====
-- The steps of a worker's thread in ext/iodine/iodine_worker_pool.c, one case for each way through
-- `worker_wait_and_execute` and `worker_thread_func`.
use iodine.Base.{
  ℕ, ◌≡◌, refl, true, false, List, [], ◌∷◌, some, arith, get_elem?, Bool-cases, inl, inr,
  Option-cases,
}
use iodine.WorkerPool.Pool.{
  Work, Worker, Phase, Pool, waiting, executing, returned, exited, put_worker, start_work,
  take_work, leave_operation, worker_pool_complete, advance, step, advances,
}

pub data Moves (i : ℕ) (w : Worker) (p : Pool) (q : Pool) : Type 0 where
  leaves :
      w.phase ≡ waiting
      → p.shutdown ≡ true
      → q ≡ put_worker i (record w { phase = exited }) p
      → Moves i w p q
  wakes :
      w.phase ≡ waiting
      → p.shutdown ≡ false
      → q ≡ put_worker i (record w { interrupted = false }) p
      → Moves i w p q
  takes :
      (x : Work) (rest : List Work)
      → w.phase ≡ waiting
      → p.shutdown ≡ false
      → w.interrupted ≡ false
      → p.queue ≡ x ∷ rest
      → q ≡ start_work i w x rest p
      → Moves i w p q
  operates : (x : Work) → w.phase ≡ executing x → q ≡ leave_operation i w x p → Moves i w p q
  completes : (x : Work) → w.phase ≡ returned x → q ≡ worker_pool_complete i w x p → Moves i w p q

take_queue :
    (i : ℕ) (w : Worker) (p q : Pool) (xs : List Work)
    → w.phase ≡ waiting
    → p.queue ≡ xs
    → p.shutdown ≡ false
    → w.interrupted ≡ false
    → take_work i w p ≡ some q
    → Moves i w p q
unfolding take_work
take_queue i w p q [] e f running calm h = ground arith
take_queue i w p q (x ∷ rest) e f running calm h = takes x rest e running calm f (ground arith)

advance-Moves :
    (ph : Phase) (i : ℕ) (w : Worker) (p q : Pool)
    → w.phase ≡ ph
    → advance ph i w p ≡ some q
    → Moves i w p q
unfolding advance
advance-Moves waiting i w p q e h = elim (Bool-cases p.shutdown) [
  | inl shut ↦ leaves e shut (ground arith)
  | inr running ↦ elim (Bool-cases w.interrupted) [
    | inl hit ↦ wakes e running (ground arith)
    | inr calm ↦ take_queue i w p q p.queue e refl running calm h
  ]
]
advance-Moves (executing x) i w p q e h = operates x e (ground arith)
advance-Moves (returned x) i w p q e h = completes x e (ground arith)
advance-Moves exited i w p q e h = cc

-- A step of thread `i` is one of these moves of a worker that the pool has.
pub step-Moves :
    (i : ℕ) (p q : Pool)
    → step (advances i) p ≡ some q
    → (w : Worker) × (get_elem? p.workers i ≡ some w) × Moves i w p q
unfolding step
step-Moves i p q h = elim (Option-cases (get_elem? p.workers i)) [
  | inl e ↦ absurd (ground arith)
  | inr (w, e) ↦ (w, e, advance-Moves w.phase i w p q refl (ground arith))
]
