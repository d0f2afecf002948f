-- ===== src/Pubsub.antt =====
-- The pub/sub half of ext/iodine/iodine_connection.c: the arguments of its Ruby methods, and the
-- subscriptions of a connection.
mod Examples
pub mod Arguments
pub mod Refusals
pub mod Room
pub mod Split
pub mod Lifetime
pub mod Filing
pub mod Delivery
pub mod Delivering
