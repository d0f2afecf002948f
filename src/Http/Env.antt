-- ===== src/Http/Env.antt =====
-- `copy2env` and `initialize_env_template` of ext/iodine/iodine_http.c: the Rack `env` of a request.
pub mod Keys
pub mod Tables
pub mod Copying
pub mod Steps
pub mod Given
mod Examples
