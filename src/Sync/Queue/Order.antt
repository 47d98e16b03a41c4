-- ===== src/Sync/Queue/Order.antt =====
-- The order of the queue: which operation comes before which, and the two comparisons that decide it.
use uni_cloud_file_sync_thin.Prelude.{◌≤◌, ◌<◌, ◌≡◌, ◌≢◌, ◌⊎◌, ◌↔◌, lt, gt, arith}
use uni_cloud_file_sync_thin.Sync.Operation.{SyncOperation, rank}
use uni_cloud_file_sync_thin.Sync.Queue.{cmp, cmp_listed}
use uni_cloud_file_sync_thin.Sync.BinaryHeap.{IsOrder}

-- A higher priority comes first, and within a priority the older operation.
abbrev pub Precedes : SyncOperation → SyncOperation → Type 0
Precedes a b =
    (rank b.priority < rank a.priority)
    ⊎ ((rank a.priority ≡ rank b.priority) × (a.created_at ≤ b.created_at))

-- The heap's comparison and that of `list` decide the order.
pub cmp_iff : (a b : SyncOperation) → (cmp a b ≢ lt) ↔ Precedes a b
unfolding cmp
cmp_iff a b = ground arith

pub cmp_listed_iff : (a b : SyncOperation) → (cmp_listed a b ≢ gt) ↔ Precedes a b
unfolding cmp_listed
cmp_listed_iff a b = ground arith

Precedes-refl : (a : SyncOperation) → Precedes a a
Precedes-refl a = omega arith

pub Precedes-trans : (a b c : SyncOperation) → Precedes a b → Precedes b c → Precedes a c
Precedes-trans a b c p q = omega arith

pub Precedes-total : (a b : SyncOperation) → ¬ Precedes a b → Precedes b a
Precedes-total a b h = ground arith

-- So the heap's comparison is an order, as `BinaryHeap` asks.
pub cmp-IsOrder : IsOrder cmp
cmp-IsOrder = record {
  cmp_refl = λ a. (cmp_iff a a).1 (Precedes-refl a);
  cmp_trans =
      λ a b c p q. (cmp_iff a c).1 (Precedes-trans a b c ((cmp_iff a b).0 p) ((cmp_iff b c).0 q));
  cmp_total = λ a b e. (cmp_iff b a).1 (Precedes-total a b (λ p. (cmp_iff a b).1 p e));
}
