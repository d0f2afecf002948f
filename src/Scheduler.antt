-- ===== src/Scheduler.antt =====
-- ext/iodine/scheduler.c, the C half of the fiber scheduler: one-shot waits on a file descriptor,
-- and the transfers between a buffer and a descriptor.
mod Examples
pub mod Attach
pub mod Once
pub mod Faults
pub mod Io
pub mod Transfer
