-- ===== src/Db/Sqlite/Defs.antt =====
-- The interface to one table of a database behind a connection, with the behaviour that SQLite
-- documents for the statements. Any statement may fail (`SQLITE_BUSY`, `SQLITE_IOERR`), and then
-- changes nothing. `rows` are the rows of the table; their order has no meaning.
use uni_cloud_file_sync_thin.Prelude.{
  Text, ℕ, ◌≤◌, Bool, true, false, Option, none, some, List, [], ◌∷◌, map, keep, not, length, All,
  Perm, Result, ok, err, ◌≡◌, ◌⊎◌, if◌then◌else◌,
}

-- `ErrorCode::ConstraintViolation`, or any other failure with its message.
pub data SqlError : Type 0 where
  constraint_violation : SqlError
  failure : Text → SqlError

-- No two rows clash: the `UNIQUE` and `PRIMARY KEY` constraints hold.
abbrev pub Unique : {Row : Type 0} → (Row → Row → Bool) → List Row → Type 0
Unique clash [] = Unit
Unique clash (x ∷ xs) = All (λ y. clash x y ≡ false) xs × Unique clash xs

-- The row is one of the list.
abbrev pub Among : {Row : Type 0} → Row → List Row → Type 0
Among r [] = ⊥
Among r (x ∷ xs) = (r ≡ x) ⊎ Among r xs

-- The rows after an `UPDATE … WHERE`.
abbrev pub updated : {Row : Type 0} → (Row → Bool) → (Row → Row) → List Row → List Row
updated p f = map (λ r. if p r then f r else r)

-- An answer to `SELECT … WHERE p` for one row: some row that meets the condition, or that none does.
abbrev pub Answers : {Row : Type 0} → (Row → Bool) → List Row → Option Row → Type 0
Answers p l none = All (λ r. p r ≡ false) l
Answers p l (some r) = (p r ≡ true) × Among r l

-- An answer to `SELECT MAX(f)`: a bound that some row reaches, or that there is no row.
abbrev pub Maximum : {Row : Type 0} → (Row → ℕ) → List Row → Option ℕ → Type 0
Maximum f l none = l ≡ []
Maximum {Row} f l (some m) = All (λ r. f r ≤ m) l × ((r : Row) × Among r l × (f r ≡ m))

-- The order of an `ORDER BY`: whether a row may stand before another.
pub record IsOrder {Row : Type 0} (before : Row → Row → Bool) : Type 0 where
  pub total : (a b : Row) → before a b ≡ false → before b a ≡ true
  pub trans : (a b c : Row) → before a b ≡ true → before b c ≡ true → before a c ≡ true

abbrev pub Ordered : {Row : Type 0} → (Row → Row → Bool) → List Row → Type 0
Ordered before [] = Unit
Ordered before (x ∷ xs) = All (λ y. before x y ≡ true) xs × Ordered before xs

-- Two rows clash when the table's constraints forbid that it holds both.
pub record Table {Row : Type 0} (clash : Row → Row → Bool) (Conn : Type 0) : Type 0 where
  pub rows : Conn → List Row
  -- `query_row` on `SELECT … WHERE p`, with `QueryReturnedNoRows` as `none`
  pub query_row : (Row → Bool) → Conn → Result SqlError (Option Row)
  -- `SELECT … WHERE p` collected, in some order
  pub query_map : (Row → Bool) → Conn → Result SqlError (List Row)
  -- `SELECT … WHERE p ORDER BY`, collected
  pub query_ordered : (Row → Bool) → (Row → Row → Bool) → Conn → Result SqlError (List Row)
  -- `SELECT MAX(f)`, with `NULL` as `none`
  pub query_max : (Row → ℕ) → Conn → Result SqlError (Option ℕ)
  -- `execute` on `INSERT`
  pub insert : Row → Conn → Result SqlError (Unit {0}) × Conn
  -- `execute` on `UPDATE … WHERE p` and on `DELETE … WHERE p`: the number of rows affected
  pub update : (Row → Bool) → (Row → Row) → Conn → Result SqlError ℕ × Conn
  pub delete : (Row → Bool) → Conn → Result SqlError ℕ × Conn
  pub query_row_ok :
      (p : Row → Bool) (c : Conn) (o : Option Row) → query_row p c ≡ ok o → Answers p (rows c) o
  pub query_map_ok :
      (p : Row → Bool) (c : Conn) (l : List Row) → query_map p c ≡ ok l → Perm l (keep p (rows c))
  pub query_ordered_ok :
      (p : Row → Bool) (before : Row → Row → Bool) (c : Conn) (l : List Row)
      → IsOrder before
      → query_ordered p before c ≡ ok l
      → Perm l (keep p (rows c)) × Ordered before l
  pub query_max_ok :
      (f : Row → ℕ) (c : Conn) (o : Option ℕ) → query_max f c ≡ ok o → Maximum f (rows c) o
  pub insert_ok :
      (r : Row) (c c' : Conn)
      → insert r c ≡ (ok tt, c')
      → (rows c' ≡ r ∷ rows c) × All (λ x. clash r x ≡ false) (rows c)
  pub insert_err :
      (r : Row) (c c' : Conn) (e : SqlError) → insert r c ≡ (err e, c') → rows c' ≡ rows c
  pub update_ok :
      (p : Row → Bool) (f : Row → Row) (c c' : Conn) (n : ℕ)
      → update p f c ≡ (ok n, c')
      → (rows c' ≡ updated p f (rows c)) × (n ≡ length (keep p (rows c))) × Unique clash (rows c')
  pub update_err :
      (p : Row → Bool) (f : Row → Row) (c c' : Conn) (e : SqlError)
      → update p f c ≡ (err e, c')
      → rows c' ≡ rows c
  pub delete_ok :
      (p : Row → Bool) (c c' : Conn) (n : ℕ)
      → delete p c ≡ (ok n, c')
      → (rows c' ≡ keep (λ r. not (p r)) (rows c)) × (n ≡ length (keep p (rows c)))
  pub delete_err :
      (p : Row → Bool) (c c' : Conn) (e : SqlError) → delete p c ≡ (err e, c') → rows c' ≡ rows c
