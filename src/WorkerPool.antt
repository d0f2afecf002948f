-- ===== src/WorkerPool.antt =====
-- ext/iodine/iodine_worker_pool.c
mod Examples
pub mod Queue
pub mod State
pub mod Pool
pub mod Workers
pub mod Moves
pub mod Counts
pub mod Order
pub mod Holders
pub mod Runs
pub mod Closing
