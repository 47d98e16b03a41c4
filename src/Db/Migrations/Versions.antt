-- ===== src/Db/Migrations/Versions.antt =====
-- The version of a database after its migrations, and what a failure leaves.
use uni_cloud_file_sync_thin.Prelude.{
  Text, text, ℕ, ◌-◌, ◌≤◌, ◌<◌, Bool, true, false, not, ◌&&◌, if◌then◌else◌, ite, dec_text, leb,
  List, [], ◌∷◌, ◌++◌, keep, ltb, All, ok, err, ◌≡◌, ◌⊎◌, inl, inr, refl, arith, Bool-cases,
}
use uni_cloud_file_sync_thin.Db.Migrations.{Migration, Schema}
use uni_cloud_file_sync_thin.Db.Sqlite.{SqlError}

-- A keyword that is written in capitals or not.
unfoldable pub upper : ℕ → ℕ
upper c = if leb 97 c && leb c 122 then c - 32 else c

-- The words of a text, in capitals: what stands between characters that are no letters.
unfoldable pub words : Text → Text → List Text
unfolding upper
words word [] = word ∷ []
words word (c ∷ s) =
    let longer = words (word ++ upper c ∷ []) s in
    let rest = words [] s in if leb 65 (upper c) && leb (upper c) 90 then longer else word ∷ rest

unfoldable pub one_of : List Text → Text → Bool
unfolding dec_text
one_of [] word = false
one_of (keyword ∷ keywords) word =
    let rest = one_of keywords word in ite (dec_text keyword word) true rest

unfoldable pub none_of : List Text → List Text → Bool
unfolding one_of
none_of keywords [] = true
none_of keywords (word ∷ rest) = not (one_of keywords word) && none_of keywords rest

-- The words without which no statement ends a transaction or changes what a rollback does not undo.
abbrev pub reserved : List Text
reserved =
    text "COMMIT"
    ∷ text "END"
    ∷ text "ROLLBACK"
    ∷ text "PRAGMA"
    ∷ text "ATTACH"
    ∷ text "DETACH"
    ∷ []

-- SQL that holds none of these words stays within the transaction that it is executed in.
unfoldable pub stays_within : Text → Bool
unfolding words none_of
stays_within sql = none_of reserved (words [] sql)

-- What SQLite documents: the pragma reads the version; a transaction starts with the version of the
-- connection and is rolled back to it, also after statements that neither end it nor are outside of
-- transactions; a commit that succeeds keeps what the transaction has, and one that fails keeps
-- nothing.
pub record IsSqlite {Conn Tx : Type 0} (schema : Schema Conn Tx) : Type 0 where
  pub user_version_ok : (c : Conn) (n : ℕ) → schema.user_version c ≡ ok n → n ≡ schema.version c
  pub begin_ok :
      (c : Conn) (t : Tx)
      → schema.begin c ≡ ok t
      → (schema.rollback t ≡ c) × (schema.tx_version t ≡ schema.version c)
  pub execute_batch_keeps :
      (sql : Text) (t : Tx)
      → stays_within sql ≡ true
      → schema.rollback (schema.execute_batch sql t).1 ≡ schema.rollback t
  pub set_user_version_keeps :
      (n : ℕ) (t : Tx) → schema.rollback (schema.set_user_version n t).1 ≡ schema.rollback t
  pub set_user_version_ok :
      (n : ℕ) (t t' : Tx) → schema.set_user_version n t ≡ (ok tt, t') → schema.tx_version t' ≡ n
  pub commit_ok :
      (t : Tx) (c : Conn) → schema.commit t ≡ (ok tt, c) → schema.version c ≡ schema.tx_version t
  pub commit_err :
      (t : Tx) (c : Conn) (e : SqlError) → schema.commit t ≡ (err e, c) → c ≡ schema.rollback t

abbrev pub Ascending : List Migration → Type 0
Ascending [] = Unit
Ascending (m ∷ ms) = All (λ x. m.version < x.version) ms × Ascending ms

-- The SQL of every migration stays within its transaction.
abbrev pub Contained : List Migration → Type 0
Contained = All (λ m. stays_within m.sql ≡ true)

-- The migrations that are above a version.
abbrev pub above : ℕ → List Migration → List Migration
above version = keep (λ m. ltb version m.version)

-- All the migrations run in a transaction without a failure: the SQL of each, and then its version.
pub data Runs {Conn Tx : Type 0} (schema : Schema Conn Tx) : List Migration → Tx → Tx → Type 0 where
  ended : {t : Tx} → Runs schema [] t t
  step :
      {m : Migration} {ms : List Migration} {t executed versioned after : Tx}
      → schema.execute_batch m.sql t ≡ (ok tt, executed)
      → schema.set_user_version m.version executed ≡ (ok tt, versioned)
      → Runs schema ms versioned after
      → Runs schema (m ∷ ms) t after

-- The migrations were run in one transaction, and the database is what its commit left.
abbrev pub Committed : {Conn Tx : Type 0} → Schema Conn Tx → List Migration → Conn → Conn → Type 0
Committed {Tx} schema ms c c' =
    (t : Tx) × (after : Tx) × (schema.begin c ≡ ok t)
    × Runs schema ms t after
    × (schema.commit after ≡ (ok tt, c'))

-- There was nothing to run, or everything was run and committed.
abbrev pub Applied : {Conn Tx : Type 0} → Schema Conn Tx → List Migration → Conn → Conn → Type 0
Applied schema ms c c' = ((ms ≡ []) × (c' ≡ c)) ⊎ Committed schema ms c c'

-- The version of the last migration.
unfoldable pub last_version : ℕ → List Migration → ℕ
last_version current [] = current
last_version current (m ∷ ms) = last_version m.version ms

pub All-keep :
    (P : Migration → Type 0) (p : Migration → Bool) (ms : List Migration)
    → All P ms
    → All P (keep p ms)
unfolding keep
All-keep P p [] a = tt
All-keep P p (m ∷ ms) a = elim (Bool-cases (p m)) [
  | inl hit ↦ rw hit (a.0, All-keep P p ms a.1)
  | inr miss ↦ rw miss (All-keep P p ms a.1)
]

pub Ascending-keep :
    (p : Migration → Bool) (ms : List Migration) → Ascending ms → Ascending (keep p ms)
unfolding keep
Ascending-keep p [] a = tt
Ascending-keep p (m ∷ ms) a = elim (Bool-cases (p m)) [
  | inl hit ↦ rw hit (All-keep (λ x. m.version < x.version) p ms a.0, Ascending-keep p ms a.1)
  | inr miss ↦ rw miss (Ascending-keep p ms a.1)
]

pub kept-above :
    (n : ℕ) (ms : List Migration) → All (λ m. n < m.version) (keep (λ m. ltb n m.version) ms)
unfolding keep
kept-above n [] = tt
kept-above n (m ∷ ms) = elim (Bool-cases (ltb n m.version)) [
  | inl hit ↦ rw hit (ground arith, kept-above n ms)
  | inr miss ↦ rw miss (kept-above n ms)
]

-- The last version is the highest.
pub last_version-highest :
    (n : ℕ) (ms : List Migration)
    → Ascending ms
    → All (λ m. n < m.version) ms
    → (n ≤ last_version n ms) × All (λ m. m.version ≤ last_version n ms) ms
unfolding last_version
last_version-highest n [] a above = (omega arith, tt)
last_version-highest n (m ∷ ms) a above =
    let (low, rest) = last_version-highest m.version ms a.1 a.0 in
    (omega (arith, above.0), (low, rest))

-- What is not kept is not above the version.
pub All-of_kept :
    (n h : ℕ) (ms : List Migration)
    → n ≤ h
    → All (λ m. m.version ≤ h) (keep (λ m. ltb n m.version) ms)
    → All (λ m. m.version ≤ h) ms
unfolding keep
All-of_kept n h [] le a = tt
All-of_kept n h (m ∷ ms) le a = elim (Bool-cases (ltb n m.version)) [
  | inl hit ↦ let k = rw hit at a in (k.0, All-of_kept n h ms le k.1)
  | inr miss ↦ (ground arith, All-of_kept n h ms le (rw miss at a))
]

-- When no migration is above the version, none is pending.
pub keep-none :
    (n : ℕ) (ms : List Migration)
    → All (λ m. m.version ≤ n) ms
    → keep (λ m. ltb n m.version) ms ≡ []
unfolding keep
keep-none n [] a = refl
keep-none n (m ∷ ms) a =
    let below = a.0 in
    let miss : ltb n m.version ≡ false = ground arith in rw miss (keep-none n ms a.1)
