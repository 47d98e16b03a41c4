-- ===== src/Vfs/Tests.antt =====
-- Runs of the inode manager on a table in memory, and the instances of the theorems there.
use uni_cloud_file_sync_thin.Prelude.{
  Text, text, ℕ, ◌≤◌, some, List, [], ◌∷◌, keep, find, ok, err, ◌≡◌, ◌⊎◌, inl, inr, refl, arith,
  dec_text, ℕ_discrete,
}
use uni_cloud_file_sync_thin.Db.Error.{DbError}
use uni_cloud_file_sync_thin.Db.Sqlite.{Table}
use uni_cloud_file_sync_thin.Db.Sqlite.Memory.{
  memory, memory_insert, memory_update, maximum, clear_of, all_clear,
}
use uni_cloud_file_sync_thin.Db.Inodes.{
  InodeRow, clash, by_file_id, by_inode, get_or_insert_inode, get_inode_by_file_id,
  get_file_id_by_inode, get_max_inode, insert_inode, remove_inode,
}
use uni_cloud_file_sync_thin.Vfs.Inode.{
  InodeManager, new, get_or_allocate, get_inode, get_file_id, remove,
}
use uni_cloud_file_sync_thin.Vfs.Inode.Allocation.{stored, Outcome}
use uni_cloud_file_sync_thin.Vfs.Inode.Allocation
use uni_cloud_file_sync_thin.Vfs.Inode.Keeping.{
  Call, allocate, forget, run, step, IsValid, Exclusive,
}
use uni_cloud_file_sync_thin.Vfs.Inode.Session
use uni_cloud_file_sync_thin.Vfs.Inode.Start.{InRange, Opens}
use uni_cloud_file_sync_thin.Vfs.Inode.Start

abbrev row : ℕ → Text → InodeRow
row inode file_id = record { inode = inode; file_id = file_id; created_at = 0 }

abbrev table : Table clash (List InodeRow)
table = memory clash

abbrev manager : List InodeRow → ℕ → InodeManager (List InodeRow)
manager rows next = record { conn = rows; next_inode = next }

-- After `new` on an empty table.
abbrev fresh : InodeManager (List InodeRow)
fresh = manager (row 1 (text "root") ∷ []) 2

abbrev one : InodeManager (List InodeRow)
one = manager (row 2 (text "a") ∷ row 1 (text "root") ∷ []) 3

program : Unit {0}
unfolding new get_or_allocate get_inode get_file_id remove clash by_file_id by_inode
    get_or_insert_inode get_inode_by_file_id get_file_id_by_inode get_max_inode insert_inode
    remove_inode memory_insert memory_update maximum clear_of all_clear find keep dec_text
    ℕ_discrete run step
program = tt

run_new : new table 0 [] ≡ (ok fresh, fresh.conn)
unfolding program
run_new = refl

run_get_or_allocate : get_or_allocate table 0 (text "a") fresh ≡ (ok 2, one)
unfolding program
run_get_or_allocate = refl

run_remove : (remove table (text "a") one).1 ≡ manager fresh.conn 3
unfolding program
run_remove = refl

fresh-IsValid : IsValid table fresh
unfolding program
fresh-IsValid = record { unique = (tt, tt); fresh = (omega arith, tt) }

one-IsValid : IsValid table one
unfolding program
one-IsValid = record { unique = ((refl, tt), (tt, tt)); fresh = (omega arith, (omega arith, tt)) }

get_or_allocate-Outcome_example :
    Outcome table 0 (text "a") fresh (get_or_allocate table 0 (text "a") fresh)
get_or_allocate-Outcome_example = Allocation.get_or_allocate-Outcome table 0 (text "a") fresh

get_or_allocate-lookup_example :
    ((get_inode table (text "a") one ≡ ok (some 2))
      ⊎ ((e : DbError) × (get_inode table (text "a") one ≡ err e)))
    × ((get_file_id table 2 one ≡ ok (some (text "a")))
        ⊎ ((e : DbError) × (get_file_id table 2 one ≡ err e)))
unfolding program
get_or_allocate-lookup_example =
    Session.get_or_allocate-lookup table 0 (text "a") fresh one 2 fresh-IsValid (omega arith) refl

abbrev calls : List Call
calls = allocate 5 (text "b") ∷ forget (text "b") ∷ []

run-IsValid_example :
    IsValid table (run table calls one)
    × (3 ≤ (run table calls one).next_inode)
    × ((run table calls one).next_inode ≤ 5)
    × Exclusive 2 (text "a") (stored table (run table calls one))
run-IsValid_example =
    Session.run-IsValid table calls one 2 (text "a") one-IsValid (omega arith) (omega arith)
      (inr refl, (inl (omega arith), tt))

abbrev later : InodeManager (List InodeRow)
later = manager (row 2 (text "a") ∷ row 1 (text "root") ∷ []) 4

get_or_allocate-unshared_example : text "a" ≡ text "a"
unfolding program
get_or_allocate-unshared_example =
    Session.get_or_allocate-unshared table 0 7 (text "a") (text "a") calls fresh one later 2
      fresh-IsValid (omega arith) refl refl

abbrev old : List InodeRow
old = row 2 (text "a") ∷ row 1 (text "root") ∷ []

old-InRange : InRange old
old-InRange = ((omega arith, omega arith), ((omega arith, omega arith), tt))

new-Opens_example : Opens table 4 old (new table 4 old)
new-Opens_example = Start.new-Opens table 4 old one-IsValid.unique old-InRange
