-- ===== src/Ipc.antt =====
-- crates/cloudsync-ipc: the messages between a shell extension and the daemon, their way over a
-- socket, and the resolution of local paths.
pub mod Messages
pub mod Error
pub mod Transport
pub mod Server
pub mod Client
pub mod PathResolver
pub mod Tests
