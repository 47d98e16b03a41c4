-- ===== src/Db/Sqlite/Rows.antt =====
-- Rows of a table before and after a statement.
use uni_cloud_file_sync_thin.Prelude.{
  Bool, true, List, [], ◌∷◌, All, ◌≡◌, inl, inr, refl, sym, subst,
}
use uni_cloud_file_sync_thin.Db.Sqlite.Defs.{Among, updated}

pub All-among :
    {Row : Type 0} (P : Row → Type 0) (r : Row) (l : List Row) → All P l → Among r l → P r
All-among P r [] a m = absurd m
All-among P r (x ∷ l) a (inl e) = subst P (sym e) a.0
All-among P r (x ∷ l) a (inr m) = All-among P r l a.1 m

-- An updated row is one of the rows after the update.
pub Among-map :
    {Row : Type 0} (p : Row → Bool) (f : Row → Row) (r : Row) (l : List Row)
    → p r ≡ true
    → Among r l
    → Among (f r) (updated p f l)
Among-map p f r [] h m = m
Among-map p f r (x ∷ l) h (inr m) = inr (Among-map p f r l h m)
Among-map p f r (x ∷ l) h (inl e) = inl (rw (← e, h) refl)
