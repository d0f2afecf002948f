-- ===== src/Params.antt =====
-- `http_add_to_params` of ext/iodine/http.c: how `user[tags][]` files a value in the nested hashes
-- and arrays of a request's parameters, and `parse_nested_query` of ext/iodine/iodine_helpers.c.
pub mod Tree
pub mod Reading
pub mod Adding
pub mod Query
pub mod Depth
pub mod Places
pub mod Keeping
pub mod Segments
pub mod Written
pub mod Filing
pub mod Parsing
mod Examples
