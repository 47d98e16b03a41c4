-- ===== src/Sync/Queue/Draining.antt =====
-- Popping a queue until it is empty, as its consumers do.
use mathlib.Core.List.Perm
use mathlib.Core.List.{mem-cons_of_mem}
use uni_cloud_file_sync_thin.Prelude.{
  ℕ, zero, suc, ◌≤◌, List, [], ◌∷◌, Mem, Perm, Pairwise, length, length-perm, nil-of_length, ◌≡◌,
  ◌⊎◌, inl, inr, refl, arith, ok, err, Result, Option-cases,
}
use uni_cloud_file_sync_thin.Sync.BinaryHeap.{BinaryHeap}
use uni_cloud_file_sync_thin.Sync.Error.{Error, queue_empty}
use uni_cloud_file_sync_thin.Sync.Operation.{SyncOperation}
use uni_cloud_file_sync_thin.Sync.Queue.{cmp, pop}
use uni_cloud_file_sync_thin.Sync.Queue.Order.{Precedes, cmp_iff}

module _ {Heap : Type 0} (heap : BinaryHeap cmp Heap) where
  -- What `pop` does, in terms of the operations queued.
  abbrev pub Pops : Heap → Result Error SyncOperation × Heap → Type 0
  Pops queue r =
      ((heap.iter queue ≡ []) × (r ≡ (err queue_empty, queue)))
      ⊎ ((op : SyncOperation) × (rest : Heap) × (r ≡ (ok op, rest))
          × Perm (heap.iter queue) (op ∷ heap.iter rest)
          × ((b : SyncOperation) → Mem b (heap.iter queue) → Precedes op b))

  -- `pop` fails with `QueueEmpty` on an empty queue only, and leaves it as it was; otherwise it
  -- takes out one operation, and no queued operation is due before that one.
  pub pop-Pops : (queue : Heap) → Pops queue (pop heap queue)
  unfolding pop
  pop-Pops queue = elim (Option-cases (heap.pop queue)) [
    | inl e ↦ inl (heap.pop_none queue e, rw (e, pop) refl)
    | inr ((op, rest), e) ↦ inr (
      op,
      rest,
      rw (e, pop) refl,
      heap.pop_some queue rest op e,
      λ b m. (cmp_iff op b).0 (heap.pop_greatest queue rest op b e m),
    )
  ]

  -- One round of `while let Ok(op) = queue.pop()`, with the rounds that follow.
  abbrev pub pop_round :
      (Heap → List SyncOperation × Heap)
      → Result Error SyncOperation × Heap
      → List SyncOperation × Heap
  pop_round rounds (err e, rest) = ([], rest)
  pop_round rounds (ok op, rest) = (op ∷ (rounds rest).0, (rounds rest).1)

  -- The loop, with a bound on the rounds.
  unfoldable pub pop_all : ℕ → Heap → List SyncOperation × Heap
  pop_all zero queue = ([], queue)
  pop_all (suc n) queue = pop_round (pop_all n) (pop heap queue)

  -- What popping until empty yields: the operations in order, and an empty queue.
  abbrev pub Drained : Heap → List SyncOperation × Heap → Type 0
  Drained queue r = Pairwise Precedes r.0 × Perm r.0 (heap.iter queue) × (heap.iter r.1 ≡ [])

  Drained-cons :
      (queue rest : Heap) (op : SyncOperation) (r : List SyncOperation × Heap)
      → Perm (heap.iter queue) (op ∷ heap.iter rest)
      → ((b : SyncOperation) → Mem b (heap.iter queue) → Precedes op b)
      → Drained rest r
      → Drained queue (op ∷ r.0, r.1)
  Drained-cons queue rest op r p first (sorted, same, empty) = (
    Pairwise.cons
        (λ b m. first b ((Perm.mem_iff p).1 (mem-cons_of_mem op ((Perm.mem_iff same).0 m)))) sorted,
    Perm.trans (Perm.cons op same) (Perm.symm p),
    empty,
  )

  -- As many rounds of popping as there are operations, or more, empty the queue and yield exactly the
  -- queued operations: those of a higher priority first, and within a priority the older first.
  pub pop_all-Drained :
      (n : ℕ) (queue : Heap) → length (heap.iter queue) ≤ n → Drained queue (pop_all n queue)
  unfolding pop_all
  pop_all-Drained zero queue h =
      let e = nil-of_length (heap.iter queue) h in (Pairwise.nil, rw e Perm.rfl, e)
  pop_all-Drained (suc n) queue h = elim (pop-Pops queue) [
    | inl (empty, e) ↦ rw e (Pairwise.nil, rw empty Perm.rfl, empty)
    | inr (op, rest, e, p, first) ↦ rw e (
        Drained-cons queue rest op (pop_all n rest) p first
          (pop_all-Drained n rest (omega (arith, length-perm p))))
  ]
