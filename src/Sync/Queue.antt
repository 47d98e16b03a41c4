-- ===== src/Sync/Queue.antt =====
-- crates/cloudsync-sync/src/queue.rs: the priority queue of sync operations, over any heap that
-- meets the laws of BinaryHeap. Each method holds the lock from its start to its end, so it is one
-- function on the heap.
pub mod Order
pub mod Sorting
pub mod Removal
pub mod Draining
pub mod Agreement
pub mod Refinement
use mathlib.Core.Option
use uni_cloud_file_sync_thin.Prelude.{
  ℕ, Bool, Option, none, some, List, [], ◌∷◌, Ordering, lt, eq, gt, compare, keep, ite, dec_text,
  Result, ok, err, ◌==◌,
}
use uni_cloud_file_sync_thin.Sync.Operation.{
  SyncOperation, SyncPriority, OperationId, cmp_priority, rank,
}
use uni_cloud_file_sync_thin.Sync.BinaryHeap.{BinaryHeap}
use uni_cloud_file_sync_thin.Sync.Error.{Error, queue_empty, operation_not_found}

-- `Ord for QueuedOperation`; a queued operation is a newtype around the operation.
unfoldable pub cmp : SyncOperation → SyncOperation → Ordering
cmp a b = elim (cmp_priority a.priority b.priority) [
  | eq ↦ compare b.created_at a.created_at
  | lt ↦ lt
  | gt ↦ gt
]

-- The comparison of `list`.
unfoldable pub cmp_listed : SyncOperation → SyncOperation → Ordering
cmp_listed a b = elim (cmp_priority b.priority a.priority) [
  | eq ↦ compare a.created_at b.created_at
  | lt ↦ lt
  | gt ↦ gt
]

module _ {A : Type 0} (order : A → A → Ordering) where
  -- `slice::sort_by` is stable, which determines its result.
  unfoldable pub insert_by : A → List A → List A
  insert_by x [] = x ∷ []
  insert_by x (y ∷ ys) =
      let rest = y ∷ insert_by x ys in elim (order x y) [ gt ↦ rest | _ ↦ x ∷ y ∷ ys ]

  unfoldable pub sort_by : List A → List A
  unfolding insert_by
  sort_by [] = []
  sort_by (x ∷ xs) = insert_by x (sort_by xs)

-- `iter().position(|op| op.operation.id == *id)` and `Vec::remove` at that position.
unfoldable pub take_by_id :
    OperationId → List SyncOperation → Option (SyncOperation × List SyncOperation)
unfolding dec_text
take_by_id id [] = none
take_by_id id (x ∷ xs) =
    ite (dec_text x.id id) (some (x, xs)) (Option.map (λ p. (p.0, x ∷ p.1)) (take_by_id id xs))

module _ {Heap : Type 0} (heap : BinaryHeap cmp Heap) where
  abbrev pub QueueResult : Type 0
  QueueResult = Result Error SyncOperation × Heap

  -- `SyncQueue::push`
  unfoldable pub push : SyncOperation → Heap → Heap
  push operation queue = heap.push queue operation

  -- `SyncQueue::pop`
  unfoldable pub pop : Heap → QueueResult
  pop queue = elim (heap.pop queue) [
    | none ↦ (err queue_empty, queue)
    | some (operation, rest) ↦ (ok operation, rest)
  ]

  -- `SyncQueue::peek`
  unfoldable pub peek : Heap → QueueResult
  peek queue = elim (heap.peek queue) [
    | none ↦ (err queue_empty, queue)
    | some operation ↦ (ok operation, queue)
  ]

  -- `SyncQueue::remove`. The heap is drained before the search, and a search that fails returns
  -- before the heap is rebuilt.
  unfoldable pub remove : OperationId → Heap → QueueResult
  unfolding take_by_id
  remove operation_id queue =
      let (operations, drained) = heap.drain queue in
      elim (take_by_id operation_id operations) [
        | none ↦ (err (operation_not_found operation_id), drained)
        | some (removed, rest) ↦ (ok removed, heap.collect rest)
      ]

  -- `SyncQueue::len`
  unfoldable pub len : Heap → ℕ
  len queue = heap.len queue

  -- `SyncQueue::is_empty`
  unfoldable pub is_empty : Heap → Bool
  is_empty queue = heap.len queue == 0

  -- `SyncQueue::list`
  unfoldable pub list : Heap → List SyncOperation
  unfolding sort_by cmp_listed
  list queue = sort_by cmp_listed (heap.iter queue)

  -- `SyncQueue::list_by_priority`
  unfoldable pub list_by_priority : SyncPriority → Heap → List SyncOperation
  unfolding keep
  list_by_priority priority queue = keep (λ q. rank q.priority == rank priority) (heap.iter queue)

  -- `SyncQueue::clear`
  unfoldable pub clear : Heap → Heap
  clear queue = heap.clear queue
