-- ===== src/WorkerPool/State.antt =====
-- The data of a pool of ext/iodine/iodine_worker_pool.c. `History` records what happened and is
-- read by no operation.
use iodine.Base.{ℕ, Bool, List, [], Option}
use iodine.Ruby.{Value}

-- struct iodine_worker_pool_work
pub record Work : Type 0 where
  pub blocking_operation : ℕ
  pub callback : Value

-- Where a worker's thread is in `worker_thread_func`: at the wait of `worker_wait_and_execute`, in
-- the operation, back with its work, or gone.
pub data Phase : Type 0 where
  waiting : Phase
  executing : Work → Phase
  returned : Work → Phase
  exited : Phase

pub record Worker : Type 0 where
  pub thread : ℕ
  pub interrupted : Bool
  pub current_op : Option ℕ
  pub phase : Phase

pub record History : Type 0 where
  pub submitted : List Work
  pub started : List Work
  pub completed : List Work
  pub discarded : List Work
  pub called_back : List Work
  pub stored : List Value
  pub released : List Value
  pub cancelled : List ℕ

-- struct iodine_worker_pool, the tasks it gave to `fio_defer`, and whether `close` is joining.
pub record Pool : Type 0 where
  pub self : Value
  pub queue : List Work
  pub workers : List Worker
  pub worker_count : ℕ
  pub max_workers : ℕ
  pub submitted_count : ℕ
  pub in_progress_count : ℕ
  pub completed_count : ℕ
  pub initialized : Bool
  pub shutdown : Bool
  pub deferred : List Work
  pub closing : Bool
  pub history : History

pub data Error : Type 0 where
  block_required shut_down invalid_operation not_an_integer size_not_positive : Error
  thread_failed : ℕ → Error

abbrev pub no_history : History
no_history = record {
  submitted = [];
  started = [];
  completed = [];
  discarded = [];
  called_back = [];
  stored = [];
  released = [];
  cancelled = [];
}
