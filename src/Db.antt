-- ===== src/Db.antt =====
-- The crate cloudsync-db: the tables of the SQLite database. Sqlite is the interface to a table;
-- Inodes, Cursors, Files and Accounts are the four tables, and Migrations brings their schema up
-- to date.
pub mod Sqlite
pub mod Error
pub mod Inodes
pub mod Files
pub mod Accounts
pub mod Cursors
pub mod Migrations
pub mod Tests
