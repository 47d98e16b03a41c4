-- ===== src/Sync/Queue/Removal.antt =====
-- What `remove` leaves behind, when it finds the operation and when it does not.
use mathlib.Core.List.Perm
use mathlib.Core.List.{mem-cons, mem-cons_self, not-mem-nil}
use mathlib.Core.HLevel.{¬_prop}
use mathlib.Core.Logic.Or
use uni_cloud_file_sync_thin.Prelude.{
  none, some, List, [], ◌∷◌, Mem, Perm, ◌≡◌, ◌≢◌, ◌⊎◌, inl, inr, refl, ok, err, dec_text, if_pos,
  if_neg,
}
use uni_cloud_file_sync_thin.Sync.BinaryHeap.{BinaryHeap}
use uni_cloud_file_sync_thin.Sync.Error.{operation_not_found}
use uni_cloud_file_sync_thin.Sync.Operation.{SyncOperation, OperationId}
use uni_cloud_file_sync_thin.Sync.Queue.{cmp, take_by_id, remove}

-- No operation of the list has the identifier.
abbrev pub Lacks : OperationId → List SyncOperation → Type 0
Lacks id l = (op : SyncOperation) → Mem op l → op.id ≢ id

Lacks-cons :
    (id : OperationId) (x : SyncOperation) (xs : List SyncOperation)
    → x.id ≢ id
    → Lacks id xs
    → Lacks id (x ∷ xs)
Lacks-cons id x xs miss h op m = Or.elim ¬_prop (mem-cons.0 m) (λ e. rw e miss) (h op)

-- The search takes out one operation with the identifier, or there is none.
pub take_by_id-cases :
    (id : OperationId) (l : List SyncOperation)
    → ((op : SyncOperation) × (rest : List SyncOperation) × (take_by_id id l ≡ some (op, rest))
        × (op.id ≡ id)
        × Perm l (op ∷ rest))
      ⊎ ((take_by_id id l ≡ none) × Lacks id l)
unfolding take_by_id
take_by_id-cases id [] = inr (refl, λ op m. absurd (not-mem-nil m))
take_by_id-cases id (x ∷ xs) = elim (dec_text x.id id) [
  | yes hit ↦ inl (x, xs, rw (if_pos _ hit) refl, hit, Perm.rfl)
  | no miss ↦ elim (take_by_id-cases id xs) [
    | inl (op, rest, e, same, p) ↦ inl (
      op,
      x ∷ rest,
      rw (if_neg _ miss, e) refl,
      same,
      Perm.trans (Perm.cons x p) (Perm.swap op x rest),
    )
    | inr (e, h) ↦ inr (rw (if_neg _ miss, e) refl, Lacks-cons id x xs miss h)
  ]
]

pub Lacks-of_none :
    (id : OperationId) (l : List SyncOperation) → take_by_id id l ≡ none → Lacks id l
Lacks-of_none id l h = elim (take_by_id-cases id l) [
  | inl (op, rest, e, same, p) ↦ cc
  | inr (e, lacks) ↦ lacks
]

module _ {Heap : Type 0} (heap : BinaryHeap cmp Heap) (id : OperationId) (queue : Heap) where
  -- When no operation has the identifier, `remove` reports it, and every queued operation is gone.
  pub remove_missing :
      Lacks id (heap.iter queue)
      → ((remove heap id queue).0 ≡ err (operation_not_found id))
        × (heap.iter (remove heap id queue).1 ≡ [])
  unfolding remove
  remove_missing h = elim (take_by_id-cases id (heap.drain queue).0) [
    | inl (op, rest, e, same, p) ↦
        absurd
          (h op ((Perm.mem_iff (heap.drain_perm queue)).0 ((Perm.mem_iff p).1 mem-cons_self)) same)
    | inr (e, _) ↦ rw (e, remove) (refl, heap.drain_clears queue)
  ]

  -- When some operation has the identifier, `remove` returns one that has, and the queue holds
  -- exactly the others.
  pub remove_found :
      ¬ Lacks id (heap.iter queue)
      → (op : SyncOperation) × ((remove heap id queue).0 ≡ ok op)
        × (op.id ≡ id)
        × Perm (heap.iter queue) (op ∷ heap.iter (remove heap id queue).1)
  unfolding remove
  remove_found h = elim (take_by_id-cases id (heap.drain queue).0) [
    | inl (op, rest, e, same, p) ↦ (
      op,
      rw (e, remove) refl,
      same,
      rw (e, remove)
          (Perm.trans (Perm.symm (heap.drain_perm queue))
            (Perm.trans p (Perm.cons op (Perm.symm (heap.iter-collect rest))))),
    )
    | inr (e, lacks) ↦ absurd (h (λ op m. lacks op ((Perm.mem_iff (heap.drain_perm queue)).1 m)))
  ]
