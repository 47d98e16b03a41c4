-- ===== src/Core.antt =====
-- The crate cloudsync-core: cloud paths (CloudPath), the sync state of a file (FileState), the
-- values that cross the provider interface (Types) and that interface (Provider).
pub mod CloudPath
pub mod FileState
pub mod ProviderId
pub mod Types
pub mod Provider
pub mod Host
pub mod LocalPath
pub mod Display
pub mod Tests
