-- ===== src/WorkerPool/Pool.antt =====
-- The thread pool of ext/iodine/iodine_worker_pool.c. Each definition is one step that the code
-- makes under the mutex or the GVL, so a run is a sequence of such steps in any order. The queue
-- is the list that WorkerPool/Queue.antt shows its memory to represent.
use iodine.Base.{
  ℕ, zero, suc, ◌+◌, ◌≡◌, Bool, true, false, not, ◌&&◌, ◌||◌, List, [], ◌∷◌, ◌++◌, map, Option,
  none, some, leb, if◌then◌else◌, u64, sub64, length, get_elem?, set,
}
use iodine.Ruby.{Value}
pub use iodine.WorkerPool.State.{
  Work, Phase, waiting, executing, returned, exited, Worker, History, Pool, Error, block_required,
  shut_down, invalid_operation, not_an_integer, size_not_positive, thread_failed, no_history,
}

-- worker_pool_allocate
unfoldable pub allocate : Value → Pool
allocate self = record {
  self = self;
  queue = [];
  workers = [];
  worker_count = 0;
  max_workers = 0;
  submitted_count = 0;
  in_progress_count = 0;
  completed_count = 0;
  initialized = false;
  shutdown = true;
  deferred = [];
  closing = false;
  history = no_history;
}

-- `rb_thread_create` gives a thread or nil.
unfoldable pub create_worker : Option ℕ → Pool → Option Pool
create_worker thread p = elim thread [
  | none ↦ none
  | some t ↦
      if leb p.max_workers p.worker_count
      then none
      else some (record p {
        workers =
            record { thread = t; interrupted = false; current_op = none; phase = waiting }
            ∷ p.workers;
        worker_count = p.worker_count + 1;
      })
]

-- The loop of `worker_pool_initialize`: the pool, and the round that failed.
unfoldable pub create_workers : ℕ → ℕ → (ℕ → Option ℕ) → Pool → Pool × Option ℕ
create_workers zero i spawn p = (p, none)
create_workers (suc left) i spawn p = elim (create_worker (spawn i) p) [
  | none ↦ (p, some i)
  | some q ↦ create_workers left (i + 1) spawn q
]

-- The first half of `worker_pool_close`, up to the joins; it does nothing to a pool that is shut.
unfoldable pub close : Pool → Pool
close p =
    if p.shutdown || not p.initialized then p else record p { shutdown = true; closing = true }

-- The assignments of `worker_pool_initialize`, with `IodineStore.add(self)`.
unfoldable pub open_pool : ℕ → Pool → Pool
open_pool requested p = record p {
  initialized = true;
  max_workers = requested;
  shutdown = false;
  history = record (p.history) { stored = p.history.stored ++ p.self ∷ [] };
}

-- A thread that cannot be made closes the pool.
unfoldable pub started_or_closed : Pool × Option ℕ → Pool × Option Error
started_or_closed (p, none) = (p, none)
started_or_closed (p, some i) = (close p, some (thread_failed i))

-- The size as `NUM2LONG` gives it: `none` is no integer, `some none` is below 1.
unfoldable pub initialize : Option (Option ℕ) → (ℕ → Option ℕ) → Pool → Pool × Option Error
unfolding create_workers create_worker close open_pool started_or_closed
initialize none spawn p = (p, some not_an_integer)
initialize (some none) spawn p = (p, some size_not_positive)
initialize (some (some requested)) spawn p =
    started_or_closed (create_workers requested 0 spawn (open_pool requested p))

unfoldable pub enqueue : Option Value → Option ℕ → Pool → Pool × Option Error
enqueue none operation p = (p, some block_required)
enqueue (some callback) operation p = if p.shutdown then (p, some shut_down) else elim operation [
  | none ↦ (p, some invalid_operation)
  | some op ↦
      let work : Work = record { blocking_operation = op; callback = callback } in
      (
        record p {
          queue = p.queue ++ work ∷ [];
          submitted_count = u64 (p.submitted_count + 1);
          history = record (p.history) {
            submitted = p.history.submitted ++ work ∷ [];
            stored = p.history.stored ++ callback ∷ [];
          };
        },
        none,
      )
]

abbrev pub put_worker : ℕ → Worker → Pool → Pool
put_worker i w p = record p { workers = set p.workers i w }

-- The dequeue of `worker_wait_and_execute`, under the mutex.
abbrev pub start_work : ℕ → Worker → Work → List Work → Pool → Pool
start_work i w work rest p = record p {
  queue = rest;
  workers =
      set p.workers i
        (record w { current_op = some work.blocking_operation; phase = executing work });
  in_progress_count = u64 (p.in_progress_count + 1);
  history = record (p.history) { started = p.history.started ++ work ∷ [] };
}

-- `worker_wait_and_execute` from the lock to the unlock before the operation; `none` while
-- `pthread_cond_wait` blocks. A NULL from it ends the thread.
unfoldable pub take_work : ℕ → Worker → Pool → Option Pool
take_work i w p =
    if p.shutdown
    then some (put_worker i (record w { phase = exited }) p)
    else if w.interrupted
    then some (put_worker i (record w { interrupted = false }) p)
    else elim p.queue [ [] ↦ none | work ∷ rest ↦ some (start_work i w work rest p) ]

-- The operation is over: the lock, `current_op = NULL`, the unlock.
unfoldable pub leave_operation : ℕ → Worker → Work → Pool → Pool
leave_operation i w work p = put_worker i (record w { current_op = none; phase = returned work }) p

-- worker_pool_complete, and the next round of `worker_thread_func`
unfoldable pub worker_pool_complete : ℕ → Worker → Work → Pool → Pool
worker_pool_complete i w work p = record p {
  workers = set p.workers i (record w { phase = waiting });
  in_progress_count = sub64 p.in_progress_count 1;
  completed_count = u64 (p.completed_count + 1);
  deferred = p.deferred ++ work ∷ [];
  history = record (p.history) { completed = p.history.completed ++ work ∷ [] };
}

unfoldable pub advance : Phase → ℕ → Worker → Pool → Option Pool
unfolding take_work leave_operation worker_pool_complete
advance waiting i w p = take_work i w p
advance (executing work) i w p = some (leave_operation i w work p)
advance (returned work) i w p = some (worker_pool_complete i w work p)
advance exited i w p = none

-- worker_unblock_func
unfoldable pub unblock : ℕ → Worker → Pool → Pool
unblock i w p =
    let q = put_worker i (record w { interrupted = true }) p in
    elim w.current_op [
      | none ↦ q
      | some op ↦ record q {
        history = record (p.history) { cancelled = p.history.cancelled ++ op ∷ [] };
      }
    ]

-- worker_pool_deferred_callback
unfoldable pub run_deferred : Pool → Option Pool
run_deferred p = elim p.deferred [
  | [] ↦ none
  | work ∷ rest ↦ some (record p {
    deferred = rest;
    history = record (p.history) {
      called_back = p.history.called_back ++ work ∷ [];
      released = p.history.released ++ work.callback ∷ [];
    };
  })
]

abbrev pub is_exited : Phase → Bool
is_exited exited = true
is_exited phase = false

abbrev pub all_exited : List Worker → Bool
all_exited [] = true
all_exited (w ∷ ws) = is_exited w.phase && all_exited ws

abbrev pub callbacks : List Work → List Value
callbacks = map (λ w. w.callback)

-- What `worker_pool_close` does after the joins.
abbrev pub tear_down : Pool → Pool
tear_down p = record p {
  workers = [];
  worker_count = 0;
  queue = [];
  initialized = false;
  closing = false;
  history = record (p.history) {
    discarded = p.history.discarded ++ p.queue;
    released = (p.history.released ++ callbacks p.queue) ++ p.self ∷ [];
  };
}

-- The second half of `worker_pool_close`: `none` while a join waits.
unfoldable pub finish_close : Pool → Option Pool
finish_close p = if p.closing && all_exited p.workers then some (tear_down p) else none

-- worker_pool_free, which the collector calls
unfoldable pub free : Pool → Pool
free p = if p.initialized && not p.shutdown then record p { shutdown = true } else p

pub record Statistics : Type 0 where
  pub workers : ℕ
  pub queued : ℕ
  pub in_progress : ℕ
  pub completed : ℕ
  pub submitted : ℕ
  pub closed : Bool

-- worker_pool_statistics
unfoldable pub statistics : Pool → Statistics
statistics p = record {
  workers = if p.initialized then p.worker_count else 0;
  queued = if p.initialized then length p.queue else 0;
  in_progress = if p.initialized then p.in_progress_count else 0;
  completed = p.completed_count;
  submitted = p.submitted_count;
  closed = p.shutdown;
}

-- What can happen to a pool, from any thread.
pub data Action : Type 0 where
  enqueues : Option Value → Option ℕ → Action
  advances : ℕ → Action
  unblocks : ℕ → Action
  runs_deferred : Action
  closes : Action
  finishes_close : Action
  frees : Action

-- `none` where the action is blocked.
unfoldable pub step : Action → Pool → Option Pool
step (enqueues callback operation) p = some (enqueue callback operation p).0
step (advances i) p = elim (get_elem? p.workers i) [ none ↦ none | some w ↦ advance w.phase i w p ]
step (unblocks i) p = elim (get_elem? p.workers i) [ none ↦ none | some w ↦ some (unblock i w p) ]
step runs_deferred p = run_deferred p
step closes p = some (close p)
step finishes_close p = finish_close p
step frees p = some (free p)

-- The pools that a sequence of steps leads to.
pub data Reach (p : Pool) : Pool → Type 0 where
  here : Reach p p
  next : {q r : Pool} (a : Action) → Reach p q → step a q ≡ some r → Reach p r
