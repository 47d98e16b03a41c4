-- ===== src/Daemon.antt =====
-- crates/cloudsync-daemon: the handler of requests.
pub mod Handler
pub mod Tests
