-- ===== src/Sync/Tests.antt =====
-- Runs of the queue and the engine on a heap that is a list and a provider that serves two pages,
-- and the instances of the theorems there.
use uni_cloud_file_sync_thin.Prelude.{
  Text, text, ℕ, suc, Bool, true, false, Option, none, some, List, [], ◌∷◌, ◌++◌, map, Perm,
  Pairwise, ◌≡◌, refl, arith, ok, err, keep, ite, dec_text, ℕ_discrete,
}
use uni_cloud_file_sync_thin.Core.Types.{CloudItem, Change, ChangeList, Error}
use uni_cloud_file_sync_thin.Core.Host.{Host}
use uni_cloud_file_sync_thin.Core.Provider.{CloudProvider}
use uni_cloud_file_sync_thin.Sync.Error as Failure
use uni_cloud_file_sync_thin.Sync.Queue.Refinement.{
  Call, to_pop, to_remove, to_count, to_peek, to_clear, Runs, view, serve_all, serve_all-Runs,
}
use uni_cloud_file_sync_thin.Sync.BinaryHeap.{BinaryHeap, list_heap, take_greatest}
use uni_cloud_file_sync_thin.Sync.Operation.{
  SyncOperation, SyncOperationType, SyncPriority, upload, download, low, normal, high,
  download_high_priority,
}
use uni_cloud_file_sync_thin.Sync.Queue.{
  cmp, push, pop, peek, remove, len, is_empty, list, list_by_priority, clear, take_by_id,
}
use uni_cloud_file_sync_thin.Sync.Queue.Order.{Precedes, cmp-IsOrder}
use uni_cloud_file_sync_thin.Sync.Queue.Sorting
use uni_cloud_file_sync_thin.Sync.Queue.Draining.{pop_all, Drained, Pops}
use uni_cloud_file_sync_thin.Sync.Queue.Draining
use uni_cloud_file_sync_thin.Sync.Queue.Removal.{Lacks}
use uni_cloud_file_sync_thin.Sync.Queue.Removal
use uni_cloud_file_sync_thin.Sync.Queue.Agreement.{key}
use uni_cloud_file_sync_thin.Sync.Queue.Agreement
use uni_cloud_file_sync_thin.Sync.Engine.{SyncEngine, EngineState, initial_sync, refresh_sync}
use uni_cloud_file_sync_thin.Sync.Engine.Queueing.{download_of, files, changed_items, queued}
use uni_cloud_file_sync_thin.Sync.Engine.Refresh.{all_changes, Feed}
use uni_cloud_file_sync_thin.Sync.Engine.Refresh
use uni_cloud_file_sync_thin.Sync.Execution.{execute_operations, execute_download}
use uni_cloud_file_sync_thin.Sync.Execution.Loop.{Ends}
use uni_cloud_file_sync_thin.Sync.Execution.Effects.{Executes}
use uni_cloud_file_sync_thin.Sync.Execution.Loop

abbrev op : Text → SyncOperationType → SyncPriority → ℕ → SyncOperation
op id type priority created_at = record {
  id = id;
  account_id = text "a";
  file_id = text "f";
  path = text "/f";
  operation_type = type;
  priority = priority;
  created_at = created_at;
  size = none;
}

abbrev op_low : SyncOperation
op_low = op (text "low") upload low 1

abbrev op_old : SyncOperation
op_old = op (text "old") download high 2

abbrev op_new : SyncOperation
op_new = op (text "new") download high 3

abbrev heap : BinaryHeap cmp (List SyncOperation)
heap = list_heap cmp cmp-IsOrder

abbrev three : List SyncOperation
three = op_new ∷ op_low ∷ op_old ∷ []

program : Unit {0}
unfolding push pop peek remove take_by_id len is_empty list list_by_priority clear pop_all cmp
    take_greatest keep dec_text ℕ_discrete initial_sync refresh_sync execute_operations files
    changed_items download_high_priority execute_download
program = tt

run_pop_all : pop_all heap 3 three ≡ (op_old ∷ op_new ∷ op_low ∷ [], [])
unfolding program
run_pop_all = refl

run_list_by_priority : list_by_priority heap high three ≡ op_new ∷ op_old ∷ []
unfolding program
run_list_by_priority = refl

run_remove : remove heap (text "low") three ≡ (ok op_low, op_new ∷ op_old ∷ [])
unfolding program
run_remove = refl

pop_all-Drained_example : Drained heap three (pop_all heap 3 three)
pop_all-Drained_example = Draining.pop_all-Drained heap 3 three (omega arith)

list-Precedes_example : Perm (list heap three) three × Pairwise Precedes (list heap three)
list-Precedes_example = Sorting.list-Precedes heap three

list-pop_all_example : map key (list heap three) ≡ map key (pop_all heap 3 three).0
list-pop_all_example = Agreement.list-pop_all heap 3 three (omega arith)

no_gone : Lacks (text "gone") three
unfolding program
no_gone = Removal.Lacks-of_none (text "gone") three refl

remove_missing_example :
    ((remove heap (text "gone") three).0 ≡ err (Failure.operation_not_found (text "gone")))
    × ((remove heap (text "gone") three).1 ≡ [])
remove_missing_example = Removal.remove_missing heap (text "gone") three no_gone

abbrev file : Text → CloudItem
file id = record {
  id = id;
  name = id;
  path = text "/" ++ id;
  is_folder = false;
  size = some 3;
  content_hash = none;
  modified = 0;
  created = none;
  mime_type = none;
}

abbrev folder : CloudItem
folder = record (file (text "d")) { is_folder = true }

abbrev listing : List CloudItem
listing = folder ∷ file (text "x") ∷ file (text "y") ∷ []

abbrev change : Option CloudItem → Bool → Change
change item deleted = record { item = item; file_id = text "x"; deleted = deleted; timestamp = 0 }

abbrev page_one : ChangeList
page_one = record {
  changes = change (some (file (text "x"))) false ∷ change none true ∷ [];
  cursor = text "c1";
  has_more = true;
}

abbrev page_two : ChangeList
page_two = record {
  changes = change (some folder) false ∷ change (some (file (text "z"))) false ∷ [];
  cursor = text "c2";
  has_more = false;
}

abbrev feed : Option Text → ChangeList
feed none = page_one
feed (some cursor) = page_two

-- The world is a clock. The download of the file "y" fails.
abbrev provider : CloudProvider ℕ
provider = record {
  list_folder = λ path w. (ok listing, w);
  get_changes = λ cursor w. (ok (feed cursor), w);
  download = λ id path w. (ite (dec_text id (text "y")) (err Error.cancelled) (ok tt), w);
}

abbrev host : Host ℕ
host = record {
  now = λ w. (w, suc w);
  new_v4 = λ w. (w ∷ [], suc w);
  create_parent_dirs = λ path w. (ok tt, w);
}

abbrev engine : SyncEngine ℕ (List SyncOperation)
engine = record { provider = provider; host = host; heap = heap; account_id = text "a" }

abbrev start : EngineState ℕ (List SyncOperation)
start = record { world = 100; queue = op_low ∷ [] }

run_initial_sync : (initial_sync engine (text "/") start).0 ≡ ok 2
unfolding program
run_initial_sync = refl

-- Of the three operations one is an upload and one fails.
run_execute_operations :
    execute_operations engine (text "/local") none (initial_sync engine (text "/") start).1
    ≡ some (ok 1, record { world = 104; queue = [] })
unfolding program
run_execute_operations = refl

-- With a limit of one, an upload that is skipped and a download that fails take nothing off it.
run_limited :
    execute_operations engine
      (text "/local")
      (some 1)
      (record { world = 100; queue = op_low ∷ record op_old { file_id = text "y" } ∷ [] })
    ≡ some (ok 0, record { world = 100; queue = [] })
unfolding program
run_limited = refl

refresh_sync-queues_example :
    (after : EngineState ℕ (List SyncOperation)) × (refresh_sync engine 2 none start
      ≡ some (ok (2, text "c2"), after))
    × Perm (queued engine after) (
        map
          (download_of (text "a") normal)
          (files (changed_items (all_changes (page_one ∷ page_two ∷ []))))
        ++ queued engine start)
unfolding program
refresh_sync-queues_example =
    Refresh.refresh_sync-queues engine 2 none (page_one ∷ page_two ∷ []) start (omega arith)
      (λ w. refl, refl, (λ w. refl, refl))

execute_operations-Ends_example :
    Ends engine
      (text "/local")
      7
      0
      (initial_sync engine (text "/") start).1.world
      (initial_sync engine (text "/") start).1.queue
      (execute_operations engine (text "/local") (some 7) (initial_sync engine (text "/") start).1)
execute_operations-Ends_example =
    Loop.execute_operations-Ends engine (text "/local") (some 7)
      (initial_sync engine (text "/") start).1

abbrev waiting : EngineState ℕ (List SyncOperation)
waiting = record { world = 100; queue = three }

execute_operations-all_example :
    (n : ℕ) × (after : ℕ) × (execute_operations engine (text "/local") (some 3) waiting
      ≡ some (ok n, record { world = after; queue = (pop_all heap 4 three).1 }))
    × Executes engine (text "/local") (pop_all heap 4 three).0 100 n after
execute_operations-all_example =
    Loop.execute_operations-all engine (text "/local") (some 3) waiting (omega arith)

abbrev calls : List Call
calls = to_pop ∷ to_remove (text "low") ∷ to_count ∷ to_peek ∷ to_clear ∷ []

serve_all-Runs_example :
    Runs
      (view heap three)
      calls
      (serve_all heap calls three).0
      (view heap (serve_all heap calls three).1)
serve_all-Runs_example = serve_all-Runs heap calls three
