-- ===== src/Sync/Execution/Loop.antt =====
-- The loop of `execute_operations`: how it ends, and in which order it executes the queue.
use uni_cloud_file_sync_thin.Prelude.{
  Text, ℕ, zero, suc, ◌+◌, ◌≤◌, ◌<◌, Option, some, List, [], ◌∷◌, length, length-perm, ltb, ◌≡◌,
  ◌⊎◌, inl, inr, refl, ap, ◌∙◌, arith, Result, ok, err, Bool-cases,
}
use uni_cloud_file_sync_thin.Sync.Error as Failure
use uni_cloud_file_sync_thin.Sync.Operation.{SyncOperation}
use uni_cloud_file_sync_thin.Sync.Queue.{len, pop}
use uni_cloud_file_sync_thin.Sync.Queue.Draining.{pop_all, pop-Pops}
use uni_cloud_file_sync_thin.Sync.Engine.{SyncEngine, EngineState}
use uni_cloud_file_sync_thin.Sync.Execution.{
  execute_one, execute_download, count_success, execute_loop, execute_operations, ExecuteResult,
  limit_of,
}
use uni_cloud_file_sync_thin.Sync.Execution.Effects.{Executes, finished, Executes-cons}

module _ {World Heap : Type 0} (engine : SyncEngine World Heap) (local_root : Text) where
  open engine use {heap}

  -- The operations one after the other.
  execute_all : List SyncOperation → ℕ × World → ℕ × World
  execute_all [] acc = acc
  execute_all (operation ∷ operations) acc =
      execute_all operations (execute_one engine local_root operation acc)

  count_success-le :
      (executed : ℕ) (r : Result Failure.Error (Unit {0}) × World)
      → (executed ≤ (count_success engine local_root executed r).0)
        × ((count_success engine local_root executed r).0 ≤ executed + 1)
  unfolding count_success
  count_success-le executed (ok _, w) = omega arith
  count_success-le executed (err e, w) = omega arith

  -- An operation raises the count by one at most.
  execute_one-le :
      (operation : SyncOperation) (acc : ℕ × World)
      → (acc.0 ≤ (execute_one engine local_root operation acc).0)
        × ((execute_one engine local_root operation acc).0 ≤ acc.0 + 1)
  unfolding execute_one
  execute_one-le operation acc =
      ground (arith, count_success-le acc.0 (execute_download engine local_root operation acc.1))

  -- How the loop ends: after some rounds of popping, whose operations are executed.
  abbrev pub Ends : ℕ → ℕ → World → Heap → ExecuteResult engine local_root → Type 0
  Ends limit executed w queue r =
      (rounds : ℕ) × (total : ℕ) × (after : World) × (r
        ≡ some (ok total, record { world = after; queue = (pop_all heap rounds queue).1 }))
      × ((n : ℕ) × (total ≡ executed + n)
          × Executes engine local_root (pop_all heap rounds queue).0 w n after)
      × (total ≤ limit)
      × ((heap.iter (pop_all heap rounds queue).1 ≡ []) ⊎ (total ≡ limit))

  stopped-Ends :
      (limit executed : ℕ) (w : World) (queue : Heap)
      → executed ≤ limit
      → (heap.iter queue ≡ []) ⊎ (executed ≡ limit)
      → Ends limit executed w queue (some (ok executed, record { world = w; queue = queue }))
  unfolding pop_all
  stopped-Ends limit executed w queue b over =
      (0, executed, w, refl, (0, omega arith, finished), b, over)

  popped-Ends :
      (limit executed : ℕ) (w : World) (queue rest : Heap) (op : SyncOperation)
      (r : ExecuteResult engine local_root)
      → pop heap queue ≡ (ok op, rest)
      → Ends limit
          (execute_one engine local_root op (executed, w)).0
          (execute_one engine local_root op (executed, w)).1
          rest
          r
      → Ends limit executed w queue r
  unfolding pop_all
  popped-Ends limit executed w queue rest op r e (rounds, total, after, same, work, b, over) = (
    suc rounds,
    total,
    after,
    rw e same,
    rw e (Executes-cons engine local_root op executed w _ total after work),
    b,
    rw e over,
  )

  execute_loop-Ends :
      (fuel limit : ℕ) (acc : ℕ × World) (queue : Heap)
      → length (heap.iter queue) < fuel
      → acc.0 ≤ limit
      → Ends limit acc.0 acc.1 queue (execute_loop engine local_root fuel limit acc queue)
  unfolding execute_loop
  execute_loop-Ends zero limit acc queue h b = absurd (omega arith)
  execute_loop-Ends (suc fuel) limit acc queue h b = elim (Bool-cases (ltb acc.0 limit)) [
    | inl below ↦ rw below (elim (pop-Pops heap queue) [
      | inl (empty, e) ↦ rw e (stopped-Ends limit acc.0 acc.1 queue b (inl empty))
      | inr (op, rest, e, p, first) ↦ popped-Ends limit acc.0 acc.1 queue rest op _ e (
          rw e (
            execute_loop-Ends fuel limit (execute_one engine local_root op acc) rest
              (omega (arith, length-perm p)) (ground (arith, execute_one-le op acc))))
    ])
    | inr reached ↦ rw reached (stopped-Ends limit acc.0 acc.1 queue b (inr (ground arith)))
  ]

  -- What the loop leaves when it is not stopped by the limit.
  abbrev all_executed : ℕ → ℕ × World → Heap → ExecuteResult engine local_root
  all_executed fuel acc queue =
      let drained = pop_all heap fuel queue in
      let total = execute_all drained.0 acc in
      some (ok total.0, record { world = total.1; queue = drained.1 })

  execute_loop-all :
      (fuel limit : ℕ) (acc : ℕ × World) (queue : Heap)
      → length (heap.iter queue) < fuel
      → acc.0 + length (heap.iter queue) ≤ limit
      → execute_loop engine local_root fuel limit acc queue ≡ all_executed fuel acc queue
  unfolding execute_loop pop_all execute_all
  execute_loop-all zero limit acc queue h b = absurd (omega arith)
  execute_loop-all (suc fuel) limit acc queue h b = elim (pop-Pops heap queue) [
    | inl (empty, e) ↦ rw e (ground arith)
    | inr (op, rest, e, p, first) ↦ rw e (
        ground (
          arith,
          length-perm p,
          execute_one-le op acc,
          execute_loop-all fuel limit (execute_one engine local_root op acc) rest,
        ))
  ]

  execute_all-Executes :
      (operations : List SyncOperation) (acc : ℕ × World)
      → (n : ℕ) × ((execute_all operations acc).0 ≡ acc.0 + n)
        × Executes engine local_root operations acc.1 n (execute_all operations acc).1
  unfolding execute_all
  execute_all-Executes [] acc = (0, omega arith, finished)
  execute_all-Executes (operation ∷ operations) acc =
      Executes-cons engine local_root operation acc.0 acc.1 operations _ _
        (execute_all-Executes operations (execute_one engine local_root operation acc))

  -- `execute_operations` always ends without an error: after some rounds of popping, of which it
  -- has executed each operation, in their order, and counted the downloads that succeeded. It has
  -- counted no more than asked for, and leaves the queue empty unless it has counted as many as
  -- asked for; an operation that fails, or is no download, takes nothing off the limit.
  pub execute_operations-Ends :
      (max_operations : Option ℕ) (s : EngineState World Heap)
      → Ends
          (limit_of max_operations)
          0
          s.world
          s.queue
          (execute_operations engine local_root max_operations s)
  unfolding execute_operations len
  execute_operations-Ends max_operations s =
      execute_loop-Ends (suc (heap.len s.queue)) (limit_of max_operations) (0, s.world) s.queue
        (omega (arith, heap.len-length s.queue)) (omega arith)

  -- When no more operations are queued than the limit allows, `execute_operations` takes them all,
  -- in the order in which popping the queue until it is empty yields them, and leaves the queue as
  -- that popping leaves it. Of each download it makes the directories and lets the provider write
  -- the file below the local root; it skips the others; and it returns how many downloads succeeded
  -- in both steps.
  pub execute_operations-all :
      (max_operations : Option ℕ) (s : EngineState World Heap)
      → length (heap.iter s.queue) ≤ limit_of max_operations
      → (n : ℕ) × (after : World) × (execute_operations engine local_root max_operations s
          ≡ some (
            ok n,
            record {
              world = after;
              queue = (pop_all heap (suc (length (heap.iter s.queue))) s.queue).1;
            },
          ))
        × Executes engine local_root
            (pop_all heap (suc (length (heap.iter s.queue))) s.queue).0
            s.world
            n
            after
  unfolding execute_operations len
  execute_operations-all max_operations s h =
      let popped = pop_all heap (suc (length (heap.iter s.queue))) s.queue in
      let (n, total, done) = execute_all-Executes popped.0 (0, s.world) in
      let count : (execute_all popped.0 (0, s.world)).0 ≡ n = omega (arith, total) in
      (
        n,
        (execute_all popped.0 (0, s.world)).1,
        rw (heap.len-length s.queue) (
            execute_loop-all (suc (length (heap.iter s.queue))) (limit_of max_operations)
              (0, s.world) s.queue (omega arith) (omega arith)
            ∙ ap
                (λ k. some (
                  ok k,
                  record { world = (execute_all popped.0 (0, s.world)).1; queue = popped.1 },
                ))
                count),
        done,
      )
