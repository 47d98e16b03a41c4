-- ===== src/Sync/BinaryHeap.antt =====
-- `std::collections::BinaryHeap` as its documentation describes it: a bag of elements from which
-- `pop` takes a greatest one. Which of several greatest elements it takes is not specified.
mod Defs
mod ListHeap
pub use Defs.{BinaryHeap}
unfoldable pub use ListHeap.{list_heap, take_greatest}
pub use ListHeap.{IsOrder}
