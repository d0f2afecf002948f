-- ===== src/Http.antt =====
-- ext/iodine/iodine_http.c: from a request to the Rack `env`, and from the application's response
-- to what facil.io sends.
mod Examples
pub mod Names
pub mod Host
pub mod Scheme
pub mod Response
pub mod Upgrades
pub mod Request
pub mod Headers
pub mod Env
