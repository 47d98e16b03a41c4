-- ===== src/Sync/Queue/Agreement.antt =====
-- The order of `list` and the order of popping, compared.
use mathlib.Core.HLevel.{¬_prop}
use mathlib.Core.List.Perm
use mathlib.Core.List.Pairwise
use mathlib.Core.List.{mem-cons, mem-cons_self, Pairwise-map}
use mathlib.Core.Logic.Or
use uni_cloud_file_sync_thin.Prelude.{
  ℕ, ◌≤◌, List, [], ◌∷◌, map, Perm, Pairwise, length, ◌≡◌, ◌≢◌, arith, compare, Ordering, lt, eq,
  gt,
}
use mathlib.Core.Path.{ap₂}
use uni_cloud_file_sync_thin.Sync.BinaryHeap.{BinaryHeap}
use uni_cloud_file_sync_thin.Sync.Operation.{SyncOperation, rank}
use uni_cloud_file_sync_thin.Sync.Queue.{cmp, list}
use uni_cloud_file_sync_thin.Sync.Queue.Order.{Precedes}
use uni_cloud_file_sync_thin.Sync.Queue.Sorting.{list-Precedes}
use uni_cloud_file_sync_thin.Sync.Queue.Draining.{pop_all, pop_all-Drained}

-- What the order of the queue looks at.
abbrev pub Key : Type 0
Key = ℕ × ℕ

abbrev pub key : SyncOperation → Key
key op = (rank op.priority, op.created_at)

cmp_key : Key → Key → Ordering
cmp_key a b = elim (compare b.0 a.0) [ eq ↦ compare a.1 b.1 | lt ↦ lt | gt ↦ gt ]

abbrev NotAfter : Key → Key → Type 0
NotAfter a b = cmp_key a b ≢ gt

NotAfter-of_Precedes : (a b : SyncOperation) → Precedes a b → NotAfter (key a) (key b)
unfolding cmp_key
NotAfter-of_Precedes a b p = ground arith

NotAfter-antisymm : (a b : Key) → NotAfter a b → NotAfter b a → a ≡ b
unfolding cmp_key
NotAfter-antisymm a b p q = ground arith

NotAfter-refl : (a : Key) → NotAfter a a
unfolding cmp_key
NotAfter-refl a = ground arith

heads_NotAfter :
    (a b : Key) (l r : List Key) → Pairwise NotAfter (a ∷ l) → Perm (b ∷ r) (a ∷ l) → NotAfter a b
heads_NotAfter a b l r (Pairwise.cons below _) p =
    Or.elim ¬_prop (mem-cons.0 ((Perm.mem_iff p).0 mem-cons_self)) (λ e. rw e (NotAfter-refl a))
      (below b)

-- Two sorted lists of the same keys are one list.
sorted_unique : (l r : List Key) → Pairwise NotAfter l → Pairwise NotAfter r → Perm l r → l ≡ r
sorted_unique [] r sl sr p = Perm.nil-eq p
sorted_unique (a ∷ l) [] sl sr p = Perm.eq-nil p
sorted_unique (a ∷ l) (b ∷ r) sl sr p =
    let heads =
      NotAfter-antisymm a b (heads_NotAfter a b l r sl (Perm.symm p))
        (heads_NotAfter b a r l sr p) in
    let tails = Perm.cons_inv (Perm.trans p (Perm.symm (Perm.cons' heads Perm.rfl))) in
    ap₂ ◌∷◌ heads (sorted_unique l r (Pairwise.of_cons sl) (Pairwise.of_cons sr) tails)

keys_sorted : (l : List SyncOperation) → Pairwise Precedes l → Pairwise NotAfter (map key l)
keys_sorted l h = (Pairwise-map (λ a b. ¬_prop) key).1 (Pairwise.imp NotAfter-of_Precedes h)

-- Operation by operation, `list` has the priority and the creation time of what popping yields, in
-- as many rounds as there are operations or more.
pub list-pop_all :
    {Heap : Type 0} (heap : BinaryHeap cmp Heap) (n : ℕ) (queue : Heap)
    → length (heap.iter queue) ≤ n
    → map key (list heap queue) ≡ map key (pop_all heap n queue).0
list-pop_all heap n queue h =
    let (same, sorted) = list-Precedes heap queue in
    let drained = pop_all-Drained heap n queue h in
    sorted_unique (map key (list heap queue)) (map key (pop_all heap n queue).0)
      (keys_sorted (list heap queue) sorted) (keys_sorted (pop_all heap n queue).0 drained.0)
      (Perm.map key (Perm.trans same (Perm.symm drained.1)))
