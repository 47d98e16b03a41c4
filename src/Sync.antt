-- ===== src/Sync.antt =====
-- The crate cloudsync-sync: operations (Operation), the queue (Queue, over the heap interface
-- BinaryHeap) and the engine that fills and empties it (Engine).
pub mod Error
pub mod Operation
pub mod BinaryHeap
pub mod Queue
pub mod Engine
pub mod Execution
pub mod Tests
