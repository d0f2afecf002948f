-- ===== src/Connection.antt =====
-- ext/iodine/iodine_connection.c: the Ruby object that stands for a client, its methods and its
-- events.
mod Examples
pub mod State
pub mod Methods
pub mod Events
pub mod Lifecycle
pub mod Creation
