-- ===== src/Vfs/Inode/Allocation.antt =====
-- What `get_or_allocate`, `remove` and the lookups do on a table whose constraints hold and whose
-- inodes are all below the counter.
use uni_cloud_file_sync_thin.Prelude.{
  Text, ℕ, ◌+◌, ◌%◌, ◌^◌, Bool, false, List, [], ◌∷◌, All, keep, Result, ok, err, ◌≡◌, ◌≢◌, ◌⊎◌,
  inl, inr, refl, sym, ap, ◌∙◌, subst, arith, Bool-cases,
}
use uni_cloud_file_sync_thin.Db.Error.{DbError}
use uni_cloud_file_sync_thin.Db.Sqlite.{Table, Unique, Among}
use uni_cloud_file_sync_thin.Db.Sqlite.Rows.{All-among}
use uni_cloud_file_sync_thin.Db.Inodes.{InodeRow, clash, by_inode, by_file_id, get_or_insert_inode}
use uni_cloud_file_sync_thin.Db.Inodes.Mapping.{
  Maps, get_inode_by_file_id-cases, insert_inode-cases,
}
use uni_cloud_file_sync_thin.Vfs.Inode.{InodeManager, get_or_allocate}

pub All-keep :
    {Row : Type 0} (P : Row → Type 0) (p : Row → Bool) (l : List Row) → All P l → All P (keep p l)
unfolding keep
All-keep P p [] a = tt
All-keep P p (x ∷ l) a = elim (Bool-cases (p x)) [
  | inl kept ↦ rw kept (a.0, All-keep P p l a.1)
  | inr dropped ↦ rw dropped (All-keep P p l a.1)
]

pub Unique-keep :
    (p : InodeRow → Bool) (l : List InodeRow) → Unique clash l → Unique clash (keep p l)
unfolding keep
Unique-keep p [] u = tt
Unique-keep p (x ∷ l) u = elim (Bool-cases (p x)) [
  | inl kept ↦ rw kept (All-keep _ p l u.0, Unique-keep p l u.1)
  | inr dropped ↦ rw dropped (Unique-keep p l u.1)
]

-- Rows that do not clash differ in both columns.
clash-ne : (a b : InodeRow) → clash a b ≡ false → (a.inode ≢ b.inode) × (a.file_id ≢ b.file_id)
unfolding clash by_inode by_file_id
clash-ne a b h = ground arith

-- The columns' values.
abbrev Agree : InodeRow → InodeRow → Type 0
Agree a b = (a.inode ≡ b.inode) ⊎ (a.file_id ≡ b.file_id)

Agree-clash : (a b : InodeRow) → clash a b ≡ false → ¬ Agree a b
Agree-clash a b h = let (i, f) = clash-ne a b h in λ agree. ground arith

same_row :
    (l : List InodeRow) (a b : InodeRow)
    → Unique clash l
    → Among a l
    → Among b l
    → Agree a b
    → a ≡ b
same_row [] a b u m n h = absurd m
same_row (x ∷ l) a b u (inl e) (inl f) h = e ∙ sym f
same_row (x ∷ l) a b u (inl e) (inr n) h =
    absurd (Agree-clash x b (All-among _ b l u.0 n) (subst (λ y. Agree y b) e h))
same_row (x ∷ l) a b u (inr m) (inl f) h = absurd (
    Agree-clash x a (All-among _ a l u.0 m)
      (subst (λ y. Agree y a) f (elim h [ inl i ↦ inl (sym i) | inr i ↦ inr (sym i) ])))
same_row (x ∷ l) a b u (inr m) (inr n) h = same_row l a b u.1 m n h

-- A file has one inode, and an inode one file.
pub Maps-inode :
    (l : List InodeRow) (i j : ℕ) (f : Text) → Unique clash l → Maps i f l → Maps j f l → i ≡ j
Maps-inode l i j f u (a, m, ai, af) (b, n, bi, bf) =
    let e = same_row l a b u m n (inr (af ∙ sym bf)) in sym ai ∙ ap (λ r. r.inode) e ∙ bi

pub Maps-file_id :
    (l : List InodeRow) (i : ℕ) (f g : Text) → Unique clash l → Maps i f l → Maps i g l → f ≡ g
Maps-file_id l i f g u (a, m, ai, af) (b, n, bi, bf) =
    let e = same_row l a b u m n (inl (ai ∙ sym bi)) in sym af ∙ ap (λ r. r.file_id) e ∙ bf

module _ {Conn : Type 0} (table : Table clash Conn) where
  -- The rows behind a manager.
  abbrev pub stored : InodeManager Conn → List InodeRow
  stored s = table.rows s.conn

  -- What `get_or_allocate` does: it finds the file's inode and changes nothing, or it adds a row
  -- that maps the counter's value to the file, or it fails and leaves the rows as they were.
  abbrev pub Outcome : ℕ → Text → InodeManager Conn → Result DbError ℕ × InodeManager Conn → Type 0
  Outcome now file_id s r =
      ((inode : ℕ) × (r ≡ (ok inode, s)) × Maps inode file_id (stored s))
      ⊎ (((s' : InodeManager Conn) × (r ≡ (ok s.next_inode, s'))
            × (s'.next_inode ≡ (s.next_inode + 1) % 2 ^ 64)
            × (stored s'
                ≡ record { inode = s.next_inode; file_id = file_id; created_at = now } ∷ stored s)
            × All
                (λ row.
                  clash (record { inode = s.next_inode; file_id = file_id; created_at = now }) row
                  ≡ false)
                (stored s))
          ⊎ ((e : DbError) × (s' : InodeManager Conn) × (r ≡ (err e, s'))
              × (stored s' ≡ stored s)
              × ((s'.next_inode ≡ s.next_inode) ⊎ (s'.next_inode ≡ (s.next_inode + 1) % 2 ^ 64))))

  -- `get_or_allocate` ends in one of three ways: it returns an inode that some row maps to the file,
  -- and changes nothing; it returns the counter's value, adds a row that maps it to the file and
  -- clashes with no other row, and raises the counter by one, as a 64-bit number; or it fails, and
  -- leaves the rows as they were.
  pub get_or_allocate-Outcome :
      (now : ℕ) (file_id : Text) (s : InodeManager Conn)
      → Outcome now file_id s (get_or_allocate table now file_id s)
  unfolding get_or_allocate get_or_insert_inode
  get_or_allocate-Outcome now file_id s = elim (get_inode_by_file_id-cases table file_id s.conn) [
    | inl (inode, e, found) ↦ inl (inode, rw e refl, found)
    | inr (inr (e, failed)) ↦ inr (inr (e, s, rw failed refl, refl, inl refl))
    | inr (inl (e, absent)) ↦ elim (insert_inode-cases table now s.next_inode file_id s.conn) [
      | inl (c, inserted, rows, clear) ↦ inr (inl (_, rw (e, inserted) refl, refl, rows, clear))
      | inr (failure, c, failed, rows) ↦ inr (inr (failure, _, rw (e, failed) refl, rows, inr refl))
    ]
  ]
