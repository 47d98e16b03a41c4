-- ===== src/Providers.antt =====
-- crates/cloudsync-providers: the storage of the tokens for Google Drive.
pub mod TokenStorage
