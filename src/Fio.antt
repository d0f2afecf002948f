-- ===== src/Fio.antt =====
-- What the code of ext/iodine uses of the facil.io library, as interfaces.
pub mod Table
pub mod Stream
