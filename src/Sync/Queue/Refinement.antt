-- ===== src/Sync/Queue/Refinement.antt =====
-- The queue against an abstract one: a bag of operations, which has no order. The abstract queue
-- says what may be answered; any answer that keeps the order of priority and age is allowed.
use mathlib.Core.List.Perm
use mathlib.Core.Quot
use mathlib.Core.Quot.{Quot}
use uni_cloud_file_sync_thin.Prelude.{
  ℕ, List, [], ◌∷◌, Mem, Perm, length, Result, ok, err, ◌≡◌, inl, inr, Option-cases,
}
use uni_cloud_file_sync_thin.Sync.BinaryHeap.{BinaryHeap}
use uni_cloud_file_sync_thin.Sync.Error.{Error, queue_empty, operation_not_found}
use uni_cloud_file_sync_thin.Sync.Operation.{SyncOperation, OperationId}
use uni_cloud_file_sync_thin.Sync.Queue.{cmp, push, pop, peek, remove, len, clear}
use uni_cloud_file_sync_thin.Sync.Queue.Draining.{pop-Pops}
use uni_cloud_file_sync_thin.Sync.Queue.Order.{Precedes, cmp_iff}
use uni_cloud_file_sync_thin.Sync.Queue.Removal.{Lacks, take_by_id-cases}

-- A list whose order is forgotten.
abbrev pub Bag : Type 0
Bag = Quot (λ (xs ys : List SyncOperation). Perm xs ys)

abbrev pub bag : List SyncOperation → Bag
bag = Quot.mk

pub data Call : Type 0 where
  to_push : SyncOperation → Call
  to_pop to_peek to_clear to_count : Call
  to_remove : OperationId → Call

pub data Answer : Type 0 where
  done : Answer
  operation : Result Error SyncOperation → Answer
  number : ℕ → Answer

-- No operation of the list is due before this one.
abbrev pub IsNext : SyncOperation → List SyncOperation → Type 0
IsNext op l = (b : SyncOperation) → Mem b l → Precedes op b

-- What the abstract queue may answer, and what it then holds. A search that fails empties it.
pub data Does : Bag → Call → Answer → Bag → Type 0 where
  pushed :
      (op : SyncOperation) (l : List SyncOperation) → Does (bag l) (to_push op) done (bag (op ∷ l))
  pop_empty : Does (bag []) to_pop (operation (err queue_empty)) (bag [])
  popped :
      (op : SyncOperation) (l : List SyncOperation)
      → IsNext op (op ∷ l)
      → Does (bag (op ∷ l)) to_pop (operation (ok op)) (bag l)
  peek_empty : Does (bag []) to_peek (operation (err queue_empty)) (bag [])
  peeked :
      (op : SyncOperation) (l : List SyncOperation)
      → Mem op l
      → IsNext op l
      → Does (bag l) to_peek (operation (ok op)) (bag l)
  removed :
      (id : OperationId) (op : SyncOperation) (l : List SyncOperation)
      → op.id ≡ id
      → Does (bag (op ∷ l)) (to_remove id) (operation (ok op)) (bag l)
  missing :
      (id : OperationId) (l : List SyncOperation)
      → Lacks id l
      → Does (bag l) (to_remove id) (operation (err (operation_not_found id))) (bag [])
  counted : (l : List SyncOperation) → Does (bag l) to_count (number (length l)) (bag l)
  cleared : (l : List SyncOperation) → Does (bag l) to_clear done (bag [])

-- The answers to a list of calls.
pub data Runs : Bag → List Call → List Answer → Bag → Type 0 where
  stops : {b : Bag} → Runs b [] [] b
  goes :
      {b c d : Bag} {call : Call} {answer : Answer} {calls : List Call} {answers : List Answer}
      → Does b call answer c
      → Runs c calls answers d
      → Runs b (call ∷ calls) (answer ∷ answers) d

module _ {Heap : Type 0} (heap : BinaryHeap cmp Heap) where
  -- The method that a call stands for.
  unfoldable pub serve : Call → Heap → Answer × Heap
  unfolding push pop peek remove len clear
  serve (to_push op) queue = (done, push heap op queue)
  serve to_pop queue = let (r, rest) = pop heap queue in (operation r, rest)
  serve to_peek queue = let (r, rest) = peek heap queue in (operation r, rest)
  serve to_clear queue = (done, clear heap queue)
  serve to_count queue = (number (len heap queue), queue)
  serve (to_remove id) queue = let (r, rest) = remove heap id queue in (operation r, rest)

  unfoldable pub serve_all : List Call → Heap → List Answer × Heap
  unfolding serve
  serve_all [] queue = ([], queue)
  serve_all (call ∷ calls) queue =
      let served = serve call queue in
      let rest = serve_all calls served.1 in (served.0 ∷ rest.0, rest.1)

  abbrev pub view : Heap → Bag
  view queue = bag (heap.iter queue)

  view-perm :
      (queue : Heap) (l : List SyncOperation) → Perm (heap.iter queue) l → view queue ≡ bag l
  view-perm queue l p = Quot.sound p

  pop-Does :
      (queue : Heap)
      → Does (view queue) to_pop (operation (pop heap queue).0) (view (pop heap queue).1)
  pop-Does queue = elim (pop-Pops heap queue) [
    | inl (empty, e) ↦ rw e (rw empty pop_empty)
    | inr (op, rest, e, p, first) ↦
        rw (e, view-perm queue _ p)
          (popped op (heap.iter rest) (λ b m. first b ((Perm.mem_iff p).1 m)))
  ]

  peek-Does :
      (queue : Heap)
      → Does (view queue) to_peek (operation (peek heap queue).0) (view (peek heap queue).1)
  unfolding peek
  peek-Does queue = elim (Option-cases (heap.peek queue)) [
    | inl e ↦ rw (e, peek) (rw (heap.peek_none queue e) peek_empty)
    | inr (op, e) ↦
        rw (e, peek)
          (peeked op (heap.iter queue) (heap.peek_some queue op e)
            (λ b m. (cmp_iff op b).0 (heap.peek_greatest queue op b e m)))
  ]

  remove-Does :
      (id : OperationId) (queue : Heap)
      → Does
          (view queue)
          (to_remove id)
          (operation (remove heap id queue).0)
          (view (remove heap id queue).1)
  unfolding remove
  remove-Does id queue = elim (take_by_id-cases id (heap.drain queue).0) [
    | inl (op, rest, e, same, p) ↦
        rw
          (
            e,
            remove,
            view-perm queue _ (Perm.trans (Perm.symm (heap.drain_perm queue)) p),
            view-perm (heap.collect rest) rest (heap.iter-collect rest),
          )
          (removed id op rest same)
    | inr (e, lacks) ↦
        rw (e, remove, heap.drain_clears queue)
          (missing id (heap.iter queue)
            (λ op m. lacks op ((Perm.mem_iff (heap.drain_perm queue)).1 m)))
  ]

  serve-Does :
      (call : Call) (queue : Heap)
      → Does (view queue) call (serve call queue).0 (view (serve call queue).1)
  unfolding serve push len clear
  serve-Does (to_push op) queue =
      rw (view-perm _ _ (heap.iter-push queue op)) (pushed op (heap.iter queue))
  serve-Does to_pop queue = pop-Does queue
  serve-Does to_peek queue = peek-Does queue
  serve-Does to_clear queue = rw (heap.iter-clear queue) (cleared _)
  serve-Does to_count queue = rw (heap.len-length queue) (counted _)
  serve-Does (to_remove id) queue = remove-Does id queue

  -- The queue refines the abstract one: whatever methods are called in whatever order, the abstract
  -- queue that starts with the same bag of operations allows the same answers, and ends with the bag
  -- of operations that are queued then.
  pub serve_all-Runs :
      (calls : List Call) (queue : Heap)
      → Runs (view queue) calls (serve_all calls queue).0 (view (serve_all calls queue).1)
  unfolding serve_all
  serve_all-Runs [] queue = stops
  serve_all-Runs (call ∷ calls) queue =
      goes (serve-Does call queue) (serve_all-Runs calls (serve call queue).1)
