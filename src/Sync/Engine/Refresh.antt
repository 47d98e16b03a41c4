-- ===== src/Sync/Engine/Refresh.antt =====
-- `initial_sync` and `refresh_sync` as a whole: what they queue and what they return.
use mathlib.Core.List.{append-nil}
use uni_cloud_file_sync_thin.Prelude.{
  Text, text, ℕ, zero, suc, ◌≤◌, true, false, Option, some, List, [], ◌∷◌, ◌++◌, map, Perm, length,
  ◌≡◌, ◌⊎◌, ap, ◌∙◌, arith, Result, ok, err,
}
use uni_cloud_file_sync_thin.Core.CloudPath.{CloudPath}
use uni_cloud_file_sync_thin.Core.Types.{CloudItem, Change, ChangeList, Error}
use uni_cloud_file_sync_thin.Core.Display.{display}
use uni_cloud_file_sync_thin.Sync.Error as Failure
use uni_cloud_file_sync_thin.Sync.Operation.{normal}
use uni_cloud_file_sync_thin.Sync.Engine.{
  SyncEngine, EngineState, RefreshResult, next_page, queue_changes, refresh_loop, refresh_sync,
}
use uni_cloud_file_sync_thin.Sync.Engine.Queueing.{
  download_of, files, changed_items, queued, Adds, Acc, queue_changes-Adds, Adds-append,
  files-append, changed_items-append,
}

abbrev pub all_changes : List ChangeList → List Change
all_changes [] = []
all_changes (page ∷ pages) = page.changes ++ all_changes pages

-- The cursor of the last page.
abbrev pub last_cursor : Text → List ChangeList → Text
last_cursor cursor [] = cursor
last_cursor cursor (page ∷ pages) = last_cursor page.cursor pages

files-changed :
    (xs ys : List Change)
    → files (changed_items (xs ++ ys)) ≡ files (changed_items xs) ++ files (changed_items ys)
files-changed xs ys =
    rw (changed_items-append xs ys) (files-append (changed_items xs) (changed_items ys))

module _ {World Heap : Type 0} (engine : SyncEngine World Heap) where
  open engine use {provider, host, heap, account_id}

  -- What `initial_sync` returns when it has queued the given number of downloads.
  abbrev pub Returns : ℕ → Result Failure.Error ℕ → Type 0
  Returns n r =
      (r ≡ ok n)
      ⊎ ((e : Error) × (r
            ≡ err (Failure.sync (text "Failed to get initial change token: " ++ display e))))

  -- The provider answers the cursor with the page, in whatever state of the world.
  abbrev pub Serves : Option Text → ChangeList → Type 0
  Serves cursor page = (w : World) → (provider.get_changes cursor w).0 ≡ ok page

  -- The pages are what the provider's change feed holds from the cursor on: each but the last says
  -- that more follow.
  abbrev pub Feed : Option Text → List ChangeList → Type 0
  Feed cursor [] = ⊥
  Feed cursor (page ∷ []) = Serves cursor page × (page.has_more ≡ false)
  Feed cursor (page ∷ next ∷ pages) =
      Serves cursor page × (page.has_more ≡ true) × Feed (some page.cursor) (next ∷ pages)

  -- The loop ends on the last page, with the changes of all pages queued.
  abbrev Refreshed : List ChangeList → Acc engine → RefreshResult engine → Type 0
  Refreshed pages acc r =
      (after : Acc engine) × (r ≡ some (ok (after.0, last_cursor [] pages), after.1))
      × Adds engine normal (files (changed_items (all_changes pages))) acc after

  -- `Adds` does not look at the world.
  Adds-world :
      (acc : Acc engine) (w : World) (items : List CloudItem) (after : Acc engine)
      → Adds engine normal items (acc.0, record { world = w; queue = acc.1.queue }) after
      → Adds engine normal items acc after
  Adds-world acc w items after a = record { counted = a.counted; added = a.added }

  served :
      (cursor : Option Text) (page : ChangeList) (w : World)
      → Serves cursor page
      → provider.get_changes cursor w ≡ (ok page, (provider.get_changes cursor w).1)
  served cursor page w h = ap (λ r. (r, (provider.get_changes cursor w).1)) (h w)

  refresh_loop-Refreshed :
      (fuel : ℕ) (cursor : Option Text) (pages : List ChangeList) (acc : Acc engine)
      → length pages ≤ fuel
      → Feed cursor pages
      → Refreshed pages acc (refresh_loop engine fuel cursor acc)
  unfolding refresh_loop
  refresh_loop-Refreshed zero cursor [] acc h f = absurd f
  refresh_loop-Refreshed zero cursor (page ∷ pages) acc h f = absurd (omega arith)
  refresh_loop-Refreshed (suc fuel) cursor [] acc h f = absurd f
  refresh_loop-Refreshed (suc fuel) cursor (page ∷ []) acc h (s, last) =
      let w = (provider.get_changes cursor acc.1.world).1 in
      let start : Acc engine = (acc.0, record { world = w; queue = acc.1.queue }) in
      let after = queue_changes engine page.changes start in
      rw (served cursor page acc.1.world s) (
        after,
        ap (λ b. next_page engine (refresh_loop engine fuel) b page.cursor after) last,
        rw append-nil (Adds-world acc w _ _ (queue_changes-Adds engine page.changes start)),
      )
  refresh_loop-Refreshed (suc fuel) cursor (page ∷ next ∷ pages) acc h (s, more, f) =
      let w = (provider.get_changes cursor acc.1.world).1 in
      let start : Acc engine = (acc.0, record { world = w; queue = acc.1.queue }) in
      let after = queue_changes engine page.changes start in
      let (last, e, rest) =
        refresh_loop-Refreshed fuel (some page.cursor) (next ∷ pages) after (omega arith) f in
      rw (served cursor page acc.1.world s) (
        last,
        ap (λ b. next_page engine (refresh_loop engine fuel) b page.cursor after) more ∙ e,
        rw (files-changed page.changes (all_changes (next ∷ pages))) (
            Adds-append engine normal (files (changed_items page.changes)) _ acc after last
              (Adds-world acc w _ _ (queue_changes-Adds engine page.changes start)) rest),
      )

  -- If the change feed from the cursor on consists of the given pages, and no more pages are fetched
  -- than the bound allows, `refresh_sync` ends, queues one download of normal priority for each file
  -- that the pages report as present, beside what was queued before, and returns their number and
  -- the cursor of the last page.
  pub refresh_sync-queues :
      (fuel : ℕ) (cursor : Option Text) (pages : List ChangeList) (s : EngineState World Heap)
      → length pages ≤ fuel
      → Feed cursor pages
      → (after : EngineState World Heap) × (refresh_sync engine fuel cursor s
          ≡ some (
            ok (length (files (changed_items (all_changes pages))), last_cursor [] pages),
            after,
          ))
        × Perm (queued engine after) (
            map (download_of account_id normal) (files (changed_items (all_changes pages)))
            ++ queued engine s)
  unfolding refresh_sync
  refresh_sync-queues fuel cursor pages s h f =
      let ((n, after), e, added) = refresh_loop-Refreshed fuel cursor pages (0, s) h f in
      let same : n ≡ length (files (changed_items (all_changes pages))) =
        omega (arith, added.counted) in
      (
        after,
        e ∙ ap {B = RefreshResult engine} (λ k. some (ok (k, last_cursor [] pages), after)) same,
        added.added,
      )
