-- ===== src/Sync/Queue/Sorting.antt =====
-- The sort of `list`, and the order of its result.
use mathlib.Core.HLevel.{¬_prop}
use mathlib.Core.List.Perm
use mathlib.Core.List.Pairwise
use mathlib.Core.List.{mem-cons, not-mem-nil}
use mathlib.Core.Logic.Or
use uni_cloud_file_sync_thin.Prelude.{
  List, [], ◌∷◌, Perm, Pairwise, ◌≡◌, ◌≢◌, ◌⊎◌, inl, inr, Ordering, gt, arith,
}
use uni_cloud_file_sync_thin.Sync.BinaryHeap.{BinaryHeap}
use uni_cloud_file_sync_thin.Sync.Operation.{SyncOperation}
use uni_cloud_file_sync_thin.Sync.Queue.{cmp, cmp_listed, insert_by, sort_by, list}
use uni_cloud_file_sync_thin.Sync.Queue.Order.{
  Precedes, cmp_listed_iff, Precedes-trans, Precedes-total,
}

gt-cases : (c : Ordering) → (c ≡ gt) ⊎ (c ≢ gt)
gt-cases c = ground arith

-- Not after: the proposition that the comparison decides.
abbrev Ordered : List SyncOperation → Type 0
Ordered = Pairwise (λ a b. cmp_listed a b ≢ gt)

insert_by_after :
    (x y : SyncOperation) (l : List SyncOperation)
    → cmp_listed x y ≡ gt
    → insert_by cmp_listed x (y ∷ l) ≡ y ∷ insert_by cmp_listed x l
unfolding insert_by
insert_by_after x y l e = ground arith

insert_by_before :
    (x y : SyncOperation) (l : List SyncOperation)
    → cmp_listed x y ≢ gt
    → insert_by cmp_listed x (y ∷ l) ≡ x ∷ y ∷ l
unfolding insert_by
insert_by_before x y l e = ground arith

insert_by-perm :
    (x : SyncOperation) (l : List SyncOperation) → Perm (insert_by cmp_listed x l) (x ∷ l)
unfolding insert_by
insert_by-perm x [] = Perm.rfl
insert_by-perm x (y ∷ l) = elim (gt-cases (cmp_listed x y)) [
  | inl e ↦
      rw (insert_by_after x y l e) (Perm.trans (Perm.cons y (insert_by-perm x l)) (Perm.swap x y l))
  | inr e ↦ rw (insert_by_before x y l e) Perm.rfl
]

listed_trans :
    (a b c : SyncOperation) → cmp_listed a b ≢ gt → cmp_listed b c ≢ gt → cmp_listed a c ≢ gt
listed_trans a b c p q =
    (cmp_listed_iff a c).1
      (Precedes-trans a b c ((cmp_listed_iff a b).0 p) ((cmp_listed_iff b c).0 q))

listed_flip : (a b : SyncOperation) → cmp_listed a b ≡ gt → cmp_listed b a ≢ gt
listed_flip a b e = (cmp_listed_iff b a).1 (Precedes-total a b (λ p. (cmp_listed_iff a b).1 p e))

insert_by-Ordered :
    (x : SyncOperation) (l : List SyncOperation) → Ordered l → Ordered (insert_by cmp_listed x l)
unfolding insert_by
insert_by-Ordered x [] h = Pairwise.cons (λ b m. absurd (not-mem-nil m)) Pairwise.nil
insert_by-Ordered x (y ∷ l) (Pairwise.cons below h) = elim (gt-cases (cmp_listed x y)) [
  | inl e ↦ rw (insert_by_after x y l e) (
      Pairwise.cons
        (λ b m.
          Or.elim ¬_prop (mem-cons.0 ((Perm.mem_iff (insert_by-perm x l)).0 m))
            (λ same. rw same (listed_flip x y e)) (below b))
        (insert_by-Ordered x l h))
  | inr e ↦ rw (insert_by_before x y l e) (
      Pairwise.cons
        (λ b m.
          Or.elim ¬_prop (mem-cons.0 m) (λ same. rw same e)
            (λ inner. listed_trans x y b e (below b inner)))
        (Pairwise.cons below h))
]

sort_by-perm : (l : List SyncOperation) → Perm (sort_by cmp_listed l) l
unfolding sort_by
sort_by-perm [] = Perm.rfl
sort_by-perm (x ∷ l) =
    Perm.trans (insert_by-perm x (sort_by cmp_listed l)) (Perm.cons x (sort_by-perm l))

sort_by-Ordered : (l : List SyncOperation) → Ordered (sort_by cmp_listed l)
unfolding sort_by
sort_by-Ordered [] = Pairwise.nil
sort_by-Ordered (x ∷ l) = insert_by-Ordered x (sort_by cmp_listed l) (sort_by-Ordered l)

module _ {Heap : Type 0} (heap : BinaryHeap cmp Heap) (queue : Heap) where
  -- `list` holds exactly the queued operations, each earlier one due no later than each later one.
  pub list-Precedes : Perm (list heap queue) (heap.iter queue) × Pairwise Precedes (list heap queue)
  unfolding list
  list-Precedes = (
    sort_by-perm (heap.iter queue),
    Pairwise.imp (λ a b. (cmp_listed_iff a b).0) (sort_by-Ordered (heap.iter queue)),
  )
