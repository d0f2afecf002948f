-- ===== src/WorkerPool/Examples.antt =====
-- A pool of one thread (ext/iodine/iodine_worker_pool.c), from its creation to its close.
use iodine.Base.{arith, ◌≡◌, refl, List, [], ◌∷◌, Option, none, some, u64, ◌+◌}
use iodine.Ruby.{qnil, object}
use iodine.WorkerPool.Queue.{Queue, Represents, Dequeued, dequeue_work-Dequeued}
use iodine.WorkerPool.Pool.{
  Pool, Action, Reach, here, next, allocate, initialize, step, enqueue, advance, close,
  finish_close, run_deferred, enqueues, advances, runs_deferred, closes, finishes_close, statistics,
}
use iodine.WorkerPool.Workers.{holds}
use iodine.WorkerPool.Runs.{Inv, Live, live, Live-Inv, statistics-sum, closed_releases}
use iodine.WorkerPool.Closing.{close_returns, IsClosed}

abbrev opened : Pool
opened = (initialize (some (some 1)) (λ i. some i) (allocate (object 1))).0

abbrev or_else : Pool → Option Pool → Pool
or_else p none = p
or_else p (some q) = q

abbrev after : List Action → Pool → Pool
after [] p = p
after (a ∷ actions) p = after actions (or_else p (step a p))

-- Two blocks of work, one of them started.
abbrev first_steps : List Action
first_steps =
    enqueues (some (object 7)) (some 3) ∷ enqueues (some (object 8)) (some 4) ∷ advances 0 ∷ []

abbrev busy : Pool
busy = after first_steps opened

busy-Live : Live busy
unfolding step initialize allocate enqueue advance
busy-Live =
    live (some (some 1)) (λ i. some i) (object 1)
      (next (advances 0)
        (next (enqueues (some (object 8)) (some 4))
          (next (enqueues (some (object 7)) (some 3)) here refl) refl)
        refl)

Live-Inv_example : Inv busy
Live-Inv_example = Live-Inv busy busy-Live

-- One block is queued, one in progress.
statistics-sum_example :
    (statistics busy).submitted
    ≡ u64 ((statistics busy).queued + (statistics busy).in_progress + (statistics busy).completed)
unfolding step initialize allocate enqueue advance
statistics-sum_example = statistics-sum busy busy-Live refl refl

-- The thread finishes its block, hears of the shutdown and leaves; the other block is discarded.
abbrev closing : Pool
closing = after (closes ∷ []) busy

abbrev closed : Pool
closed = after (advances 0 ∷ advances 0 ∷ advances 0 ∷ finishes_close ∷ runs_deferred ∷ []) closing

closed-Live : Live closed
unfolding step initialize allocate enqueue advance close finish_close run_deferred
closed-Live =
    live (some (some 1)) (λ i. some i) (object 1)
      (next runs_deferred
        (next finishes_close
          (next (advances 0)
            (next (advances 0)
              (next (advances 0)
                (next closes
                  (next (advances 0)
                    (next (enqueues (some (object 8)) (some 4))
                      (next (enqueues (some (object 7)) (some 3)) here refl) refl)
                    refl)
                  refl)
                refl)
              refl)
            refl)
          refl)
        refl)

closed_releases_example :
    holds (object 8) closed.history.stored ≡ holds (object 8) closed.history.released
unfolding step initialize allocate enqueue advance close finish_close run_deferred
closed_releases_example = closed_releases closed (object 8) closed-Live refl refl

close_returns_example : (q : Pool) × Reach closing q × IsClosed q
unfolding step initialize allocate enqueue advance close
close_returns_example = close_returns 4 closing (omega arith) refl refl

-- A queue with the node at 16, and one at 32 that is not in it.
abbrev node_at_16 : Queue
node_at_16 = record {
  node = λ p. record { blocking_operation = p; callback = qnil; next = 0 };
  work_head = 16;
  work_tail = 16;
}

node_at_16-Represents : Represents node_at_16 (16 ∷ [])
node_at_16-Represents = record {
  chain = (refl, (λ e. omega arith), refl);
  ends = refl;
  distinct = (tt, tt);
}

dequeue_work-Dequeued_example : Dequeued node_at_16 (16 ∷ [])
dequeue_work-Dequeued_example = dequeue_work-Dequeued node_at_16 (16 ∷ []) node_at_16-Represents
