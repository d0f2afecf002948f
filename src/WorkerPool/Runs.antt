-- ===== src/WorkerPool/Runs.antt =====
-- What holds of a pool of ext/iodine/iodine_worker_pool.c after any steps of any threads.
use iodine.Base.{
  ℕ, zero, suc, ◌+◌, ◌≡◌, refl, ap, true, false, [], ◌++◌, Option, none, some, arith, Option-cases,
  inl, inr, u64, length, length-append,
}
use iodine.Ruby.{Value}
use iodine.WorkerPool.Pool.{
  Pool, Reach, here, next, allocate, initialize, create_workers, create_worker, close, statistics,
  open_pool, started_or_closed,
}
use iodine.WorkerPool.Workers.{holds, carried_of_length}
use iodine.WorkerPool.Counts.{Counted, step-Counted}
use iodine.WorkerPool.Order.{Ordered, step-Ordered}
use iodine.WorkerPool.Holders.{Holds, step-Holds}

-- What the three invariants say together.
pub record Inv (p : Pool) : Type 0 where
  pub counted : Counted p
  pub ordered : Ordered p
  pub balanced : (v : Value) → Holds v p

-- A pool before its threads are made.
allocate-Inv : (self : Value) → Inv (allocate self)
unfolding allocate
allocate-Inv self = record {
  counted = ground arith;
  ordered = ground arith;
  balanced = λ v. ground arith;
}

create_worker-Inv :
    (t : Option ℕ) (p q : Pool)
    → create_worker t p ≡ some q
    → p.initialized ≡ true
    → Inv p
    → (q.initialized ≡ true) × Inv q
unfolding create_worker
create_worker-Inv none p q e o i = cc
create_worker-Inv (some t) p q e o i = (
  ground arith,
  record {
    counted = ground (arith, i.counted);
    ordered = ground (arith, i.ordered);
    balanced = λ v. ground (arith, i.balanced v);
  },
)

create_workers-Inv :
    (left i : ℕ) (spawn : ℕ → Option ℕ) (p : Pool)
    → p.initialized ≡ true
    → Inv p
    → Inv (create_workers left i spawn p).0
unfolding create_workers
create_workers-Inv zero i spawn p o v = v
create_workers-Inv (suc left) i spawn p o v = elim (Option-cases (create_worker (spawn i) p)) [
  | inl e ↦ rw (e, create_workers) v
  | inr (q, e) ↦
      let (o', v') = create_worker-Inv (spawn i) p q e o v in
      rw (e, create_workers) (create_workers-Inv left (i + 1) spawn q o' v')
]

close-Inv : (p : Pool) → Inv p → Inv (close p)
unfolding close
close-Inv p i = record {
  counted = ground (arith, i.counted);
  ordered = ground (arith, i.ordered);
  balanced = λ v. ground (arith, i.balanced v);
}

open_pool-Inv : (n : ℕ) (self : Value) → Inv (open_pool n (allocate self))
unfolding open_pool allocate
open_pool-Inv n self = record {
  counted = ground arith;
  ordered = ground arith;
  balanced = λ v. ground arith;
}

started_or_closed-Inv : (r : Pool × Option ℕ) → Inv r.0 → Inv (started_or_closed r).0
unfolding started_or_closed
started_or_closed-Inv (p, none) i = i
started_or_closed-Inv (p, some k) i = close-Inv p i

pub initialize-Inv :
    (size : Option (Option ℕ)) (spawn : ℕ → Option ℕ) (self : Value)
    → Inv (initialize size spawn (allocate self)).0
initialize-Inv none spawn self = unfold initialize in allocate-Inv self
initialize-Inv (some none) spawn self = unfold initialize in allocate-Inv self
initialize-Inv (some (some n)) spawn self =
    let rest = create_workers n 0 spawn (open_pool n (allocate self)) in
    unfold initialize in
    (started_or_closed-Inv rest
      (create_workers-Inv n 0 spawn _ (unfold open_pool in refl) (open_pool-Inv n self)))

pub Reach-Inv : {p q : Pool} → Reach p q → Inv p → Inv q
Reach-Inv here i = i
Reach-Inv (next {q} {r} a run e) i =
    let j = Reach-Inv run i in
    record {
      counted = step-Counted a q r e j.counted;
      ordered = step-Ordered a q r e j.ordered;
      balanced = λ v. step-Holds v a q r e (j.balanced v);
    }

-- The pools of a running program: made by `WorkerPool.new`, then stepped by any threads.
pub data Live (q : Pool) : Type 0 where
  live :
      (size : Option (Option ℕ)) (spawn : ℕ → Option ℕ) (self : Value)
      → Reach (initialize size spawn (allocate self)).0 q
      → Live q

-- The counters are what they count, the work is served in order, and every stored value is
-- released or still kept, in every pool that a program can have.
pub Live-Inv : (q : Pool) → Live q → Inv q
Live-Inv q (live size spawn self run) = Reach-Inv run (initialize-Inv size spawn self)

-- While a pool is open, what `stats` calls submitted is the sum of what it calls queued, in
-- progress and completed, modulo the word size.
pub statistics-sum :
    (q : Pool)
    → Live q
    → q.initialized ≡ true
    → q.shutdown ≡ false
    → (statistics q).submitted
      ≡ u64 ((statistics q).queued + (statistics q).in_progress + (statistics q).completed)
unfolding statistics
statistics-sum q l opened shut =
    let i = Live-Inv q l in
    ground (
      arith,
      i.counted,
      i.ordered.kept shut,
      ap length i.ordered.served,
      length-append q.history.started (q.history.discarded ++ q.queue),
    )

-- When `close` has returned and the deferred calls are done, every value was released as often as
-- it was stored.
pub closed_releases :
    (q : Pool) (v : Value)
    → Live q
    → q.initialized ≡ false
    → q.deferred ≡ []
    → holds v q.history.stored ≡ holds v q.history.released
closed_releases q v l shut done =
    let i = Live-Inv q l in
    ground (arith, i.balanced v, i.ordered.emptied shut, carried_of_length v q.workers)
