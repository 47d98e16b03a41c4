-- ===== src/Sync/BinaryHeap/Defs.antt =====
-- The interface of `std::collections::BinaryHeap` that the queue uses, with the laws that its
-- documentation states. Which of several greatest elements is taken is not specified.
use uni_cloud_file_sync_thin.Prelude.{
  ℕ, Option, none, some, List, [], ◌∷◌, Mem, Perm, length, ◌≡◌, ◌≢◌, Ordering,
}

pub record BinaryHeap {A : Type 0} (cmp : A → A → Ordering) (Heap : Type 0) : Type 0 where
  -- `new`
  pub empty : Heap
  pub push : Heap → A → Heap
  pub pop : Heap → Option (A × Heap)
  pub peek : Heap → Option A
  -- `drain().collect()`: the elements in any order, and the heap that is left
  pub drain : Heap → List A × Heap
  pub clear : Heap → Heap
  -- `into_iter().collect()`
  pub collect : List A → Heap
  pub iter : Heap → List A
  pub len : Heap → ℕ
  -- "Creates an empty BinaryHeap as a max-heap."
  pub iter-empty : iter empty ≡ []
  -- "Pushes an item onto the binary heap."
  pub iter-push : (h : Heap) (a : A) → Perm (iter (push h a)) (a ∷ iter h)
  -- "Removes the greatest item from the binary heap and returns it, or None if it is empty."
  pub pop_none : (h : Heap) → pop h ≡ none → iter h ≡ []
  pub pop_some : (h h' : Heap) (a : A) → pop h ≡ some (a, h') → Perm (iter h) (a ∷ iter h')
  pub pop_greatest :
      (h h' : Heap) (a b : A) → pop h ≡ some (a, h') → Mem b (iter h) → cmp a b ≢ Ordering.lt
  -- "Returns the greatest item in the binary heap, or None if it is empty."
  pub peek_none : (h : Heap) → peek h ≡ none → iter h ≡ []
  pub peek_some : (h : Heap) (a : A) → peek h ≡ some a → Mem a (iter h)
  pub peek_greatest :
      (h : Heap) (a b : A) → peek h ≡ some a → Mem b (iter h) → cmp a b ≢ Ordering.lt
  -- "Clears the binary heap, returning an iterator over the removed elements in arbitrary order."
  pub drain_perm : (h : Heap) → Perm (drain h).0 (iter h)
  pub drain_clears : (h : Heap) → iter (drain h).1 ≡ []
  -- "Drops all items from the binary heap."
  pub iter-clear : (h : Heap) → iter (clear h) ≡ []
  pub iter-collect : (l : List A) → Perm (iter (collect l)) l
  -- "Returns the length of the binary heap."
  pub len-length : (h : Heap) → len h ≡ length (iter h)
