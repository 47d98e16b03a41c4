-- ===== src/Vfs.antt =====
-- crates/cloudsync-vfs: the mounted file system, with its inodes, its cached metadata and its cached
-- content, and the synchronisation of the metadata with the provider.
pub mod Inode
pub mod MetadataSync
pub mod Cache
pub mod Content
pub mod Filesystem
pub mod Tests
