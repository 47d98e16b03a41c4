-- ===== src/Sync/Engine/Queueing.antt =====
-- What the engine adds to the queue for a listing or a list of changes.
use mathlib.Core.List.Perm
use mathlib.Core.List.{perm_append_comm, append_assoc, append-nil, map-append}
use uni_cloud_file_sync_thin.Prelude.{
  ℕ, ◌+◌, Option, none, some, List, [], ◌∷◌, ◌++◌, map, Perm, length, length-append, if◌then◌else◌,
  ◌≡◌, refl, arith, Bool-cases, inl, inr,
}
use uni_cloud_file_sync_thin.Core.CloudPath.{CloudPath}
use uni_cloud_file_sync_thin.Core.Types.{AccountId, FileId, CloudItem, Change}
use uni_cloud_file_sync_thin.Sync.Operation.{
  SyncOperation, SyncOperationType, SyncPriority, download, high, normal, download_high_priority,
  download_normal_priority,
}
use uni_cloud_file_sync_thin.Sync.Queue.{push}
use uni_cloud_file_sync_thin.Sync.Engine.{
  SyncEngine, EngineState, Maker, queue_item, queue_items, queue_change, queue_changed,
  queue_changes, make_high, make_normal,
}

-- An operation without the identifier and the time that it got.
pub record Request : Type 0 where
  pub account_id : AccountId
  pub file_id : FileId
  pub path : CloudPath
  pub operation_type : SyncOperationType
  pub priority : SyncPriority
  pub size : Option ℕ

abbrev pub request : SyncOperation → Request
request op = record {
  account_id = op.account_id;
  file_id = op.file_id;
  path = op.path;
  operation_type = op.operation_type;
  priority = op.priority;
  size = op.size;
}

-- The download of an item.
abbrev pub download_of : AccountId → SyncPriority → CloudItem → Request
download_of account_id priority item = record {
  account_id = account_id;
  file_id = item.id;
  path = item.path;
  operation_type = download;
  priority = priority;
  size = item.size;
}

-- The items that are not folders.
unfoldable pub files : List CloudItem → List CloudItem
files [] = []
files (item ∷ items) = let rest = files items in if item.is_folder then rest else item ∷ rest

files-cons :
    (item : CloudItem) (items : List CloudItem)
    → files (item ∷ items) ≡ files (item ∷ []) ++ files items
unfolding files
files-cons item items = ground arith

abbrev items_of : Option CloudItem → List CloudItem
items_of none = []
items_of (some item) = item ∷ []

-- The items that a list of changes reports as present.
unfoldable pub changed_items : List Change → List CloudItem
changed_items [] = []
changed_items (change ∷ changes) =
    let rest = changed_items changes in
    if change.deleted then rest else items_of change.item ++ rest

pub files-append : (xs ys : List CloudItem) → files (xs ++ ys) ≡ files xs ++ files ys
unfolding files
files-append [] ys = refl
files-append (x ∷ xs) ys = ground (arith, files-append xs ys)

changed_files-cons :
    (change : Change) (changes : List Change)
    → files (changed_items (change ∷ changes))
      ≡ files (changed_items (change ∷ [])) ++ files (changed_items changes)
unfolding changed_items files
changed_files-cons change changes = ground (
  arith,
  files-append (items_of change.item) (changed_items changes),
  append-nil (items_of change.item),
)

pub changed_items-append :
    (xs ys : List Change) → changed_items (xs ++ ys) ≡ changed_items xs ++ changed_items ys
unfolding changed_items
changed_items-append [] ys = refl
changed_items-append (x ∷ xs) ys = ground (
  arith,
  changed_items-append xs ys,
  append_assoc (items_of x.item) (changed_items xs) (changed_items ys),
)

module _ {World Heap : Type 0} (engine : SyncEngine World Heap) where
  open engine use {provider, host, heap, account_id}

  abbrev pub Acc : Type 0
  Acc = ℕ × EngineState World Heap

  -- The requests in the queue of a state.
  abbrev pub queued : EngineState World Heap → List Request
  queued s = map request (heap.iter s.queue)

  -- The second state has the requests of the items added, and counts them.
  pub record Adds (priority : SyncPriority) (items : List CloudItem) (before after : Acc)
      : Type 0 where
    pub counted : after.0 ≡ before.0 + length items
    pub added :
        Perm (queued after.1) (map (download_of account_id priority) items ++ queued before.1)

  Adds-nothing : (priority : SyncPriority) (acc : Acc) → Adds priority [] acc acc
  Adds-nothing priority acc = record { counted = omega arith; added = Perm.rfl }

  pub Adds-append :
      (priority : SyncPriority) (xs ys : List CloudItem) (a b c : Acc)
      → Adds priority xs a b
      → Adds priority ys b c
      → Adds priority (xs ++ ys) a c
  Adds-append priority xs ys a b c r s =
      let download_list = map (download_of account_id priority) in
      let swapped =
        Perm.append_right (queued a.1) (perm_append_comm (download_list ys) (download_list xs)) in
      record {
        counted = omega (arith, r.counted, s.counted, length-append xs ys);
        added = Perm.trans s.added (
            Perm.trans (Perm.append_left (download_list ys) r.added) (
              rw (map-append (download_of account_id priority) xs ys)
                (rw (append_assoc (download_list ys) (download_list xs) (queued a.1)) at swapped)));
      }

  -- The constructor of operations makes the download of its item.
  abbrev pub Makes : SyncPriority → Maker engine → Type 0
  Makes priority make =
      (item : CloudItem) (w : World)
      → request (make item w).0 ≡ download_of account_id priority item

  pub make_high-Makes : Makes high (make_high engine)
  unfolding download_high_priority
  make_high-Makes item w = refl

  make_normal-Makes : Makes normal (make_normal engine)
  unfolding download_normal_priority
  make_normal-Makes item w = refl

  module _ (priority : SyncPriority) (make : Maker engine) (makes : Makes priority make) where
    queue_item-Adds :
        (item : CloudItem) (acc : Acc)
        → Adds priority (files (item ∷ [])) acc (queue_item engine make item acc)
    unfolding queue_item files push
    queue_item-Adds item acc = elim (Bool-cases item.is_folder) [
      | inl folder ↦ simp folder (Adds-nothing priority acc)
      | inr file ↦ simp file (record {
        counted = omega arith;
        added =
            rw (← makes item acc.1.world)
              (Perm.map request (heap.iter-push acc.1.queue (make item acc.1.world).0));
      })
    ]

    pub queue_items-Adds :
        (items : List CloudItem) (acc : Acc)
        → Adds priority (files items) acc (queue_items engine make items acc)
    unfolding queue_items files
    queue_items-Adds [] acc = Adds-nothing priority acc
    queue_items-Adds (item ∷ items) acc = rw (files-cons item items) (
        Adds-append priority (files (item ∷ [])) (files items) acc _ _ (queue_item-Adds item acc)
          (queue_items-Adds items _))

  queue_change-Adds :
      (change : Change) (acc : Acc)
      → Adds normal (files (changed_items (change ∷ []))) acc (queue_change engine change acc)
  unfolding queue_change changed_items files
  queue_change-Adds change acc = elim (Bool-cases change.deleted) [
    | inl gone ↦ simp gone (Adds-nothing normal acc)
    | inr kept ↦ simp kept (go change.item)
  ]
    where
      go :
          (o : Option CloudItem)
          → Adds normal (files (items_of o ++ [])) acc (queue_changed engine o acc)
      go none = Adds-nothing normal acc
      go (some item) = queue_item-Adds normal (make_normal engine) make_normal-Makes item acc

  pub queue_changes-Adds :
      (changes : List Change) (acc : Acc)
      → Adds normal (files (changed_items changes)) acc (queue_changes engine changes acc)
  unfolding queue_changes changed_items files
  queue_changes-Adds [] acc = Adds-nothing normal acc
  queue_changes-Adds (change ∷ changes) acc = rw (changed_files-cons change changes) (
      Adds-append normal (files (changed_items (change ∷ []))) (files (changed_items changes)) acc _
        _ (queue_change-Adds change acc) (queue_changes-Adds changes _))
