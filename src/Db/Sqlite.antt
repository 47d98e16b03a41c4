-- ===== src/Db/Sqlite.antt =====
-- rusqlite as the program uses it: an interface with its laws (Defs), an instance of it (Memory), lemmas on rows
-- (Rows), and two tables in one database (Pair).
pub mod Defs
pub mod Memory
pub mod Rows
pub mod Pair
pub use Defs.*
