-- ===== src/Lib.antt =====
-- Verification of the core of the file synchronisation program (crates/): the paths, items and
-- errors that all parts share, the queue of sync operations and the engine that fills and
-- executes it, the tables of the database, the mounted file system with its inodes, its metadata
-- and its cached contents, the messages that a shell extension and the daemon exchange, and the
-- stored tokens of a provider.
--
-- How the parts interact. A shell extension asks the daemon for the state of files, or to pin or
-- release them; the daemon's handler resolves the local path and reads or updates the table of
-- files. A cloud provider lists folders and reports changes; the engine queues a download for
-- each file in them, and executes the queue in the order of priority and age. The file system
-- numbers files by inodes, which it keeps in a database, so that the numbers stay the same from
-- one run to the next, and shows the files of a table that the metadata synchronisation fills
-- from the same listing and changes. A file is downloaded into a cache when it is opened, and
-- read from there.
--
-- Files.
--   Prelude: numbers, lists, texts and results that all modules use.
--   Core: crates/cloudsync-core/src. CloudPath is the type of that name with `new`, `parent`,
--     `file_name`, `join` and `is_root`; ProviderId its slugs; Types the items, changes and
--     errors, and Display the errors' messages; FileState the states of a file. Provider is the
--     trait `CloudProvider`, Host what is taken of the clock, of uuid and of the file system,
--     and LocalPath is `std::path::Path::join`.
--   Sync: crates/cloudsync-sync/src. Operation is operation.rs; Queue is queue.rs, over
--     BinaryHeap, the laws that std documents, with a list as an instance; Engine is
--     `initial_sync` and `refresh_sync` of engine.rs, and Execution its `execute_operations`.
--   Db: crates/cloudsync-db/src. Sqlite is the interface to a table, with an instance in
--     memory; Inodes is vfs_inodes.rs, Files is files.rs, Accounts is accounts.rs, Migrations is
--     migrations.rs, Cursors is sync_cursors.rs.
--   Vfs: crates/cloudsync-vfs/src. Inode is the `InodeManager` of inode.rs, MetadataSync is
--     the `MetadataSyncer` of metadata_sync.rs, Cache is cache.rs, Content is content_cache.rs,
--     with the threads that share one file in Content/Threads, and Filesystem is the callbacks
--     of filesystem.rs.
--   Ipc: crates/cloudsync-ipc/src. Messages is messages.rs, PathResolver is path_resolver.rs,
--     Error is error.rs, Transport is transport.rs, Server is `handle_connection` of server.rs,
--     and Client is the requests of client.rs.
--   Providers: crates/cloudsync-providers/src. TokenStorage is gdrive/token_storage.rs.
--   Daemon: crates/cloudsync-daemon/src. Handler is handler.rs.
--   Core/Tests, Sync/Tests, Db/Tests, Db/Cursors/Tests, Vfs/Tests, Vfs/MetadataSync/Tests,
--     Vfs/Content/Tests, Vfs/Filesystem/Tests, Db/Migrations/Tests, Db/Accounts/Tests,
--     Providers/TokenStorage/Tests, Ipc/Server/Tests, Ipc/Tests and Daemon/Tests run the
--     definitions on concrete data.
--
-- How the code is modelled. A method that talks to a service, the clock or the database maps a
-- state, of any type, to its result and the state after it; nothing is assumed of the services.
-- A table is any type with the statements that the program makes and the behaviour that SQLite
-- documents for them, failures included. A queue is any type with the laws of a binary heap; the
-- lock around it is held for a whole method, so that a method is one function. A loop takes a
-- bound on its rounds, and answers none when the bound is reached: execute_operations has as
-- many rounds as there are queued operations and one more, which is enough, since every round
-- takes one away; refresh_sync and incremental_sync take the bound as an argument, since the
-- number of pages is the provider's; the loop of a connection takes the list of the rounds'
-- shutdown signals. Threads that ask for one file at once are a relation of steps, one for each
-- access to what they share. A 64-bit counter wraps at 2 ^ 64. A callback that panics gives no
-- reply. Migrations are only followed for SQL that neither ends its transaction nor has effects
-- outside of it. A text is the list of its code points, an instant a natural number, and a
-- decimal number in a message has at most 20 digits, as a 64-bit number has.
--
-- Not modelled: logging; the mounting of the file system; the listener and the tasks of the
-- server and the connecting of a client; the configuration; the provider for Google Drive; the
-- opening of the database; the start of the daemon and its timers; what the deletion of an
-- account takes along in other tables. They are glue to the system or to services, or stand on
-- the parts that are modelled.
pub mod Prelude
pub mod Core
pub mod Sync
pub mod Db
pub mod Vfs
pub mod Ipc
pub mod Providers
pub mod Daemon
