-- ===== src/Db/Migrations/Outcomes.antt =====
-- What `migrate` returns and leaves, when it succeeds and when it fails.
use uni_cloud_file_sync_thin.Prelude.{
  ℕ, ◌≤◌, List, [], ◌∷◌, ltb, All, Result, Result-cases, ok, err, ◌≡◌, ◌⊎◌, inl, inr, refl, sym, ap,
  subst, ◌∙◌, arith,
}
use uni_cloud_file_sync_thin.Db.Error.{DbError}
use uni_cloud_file_sync_thin.Db.Migrations.{
  Migration, Schema, versioned, current_version, after_version, pending_after, pending_migrations,
  and_then, apply_all, committed, applied, begun, with_pending, with_current, migrate,
}
use uni_cloud_file_sync_thin.Db.Migrations.Versions.{
  IsSqlite, Contained, above, Runs, ended, step, Committed, Applied, All-keep, Ascending,
  last_version, Ascending-keep, kept-above, last_version-highest, All-of_kept, keep-none,
}
use uni_cloud_file_sync_thin.Db.Sqlite.{SqlError}

module _ {Conn Tx : Type 0} (schema : Schema Conn Tx) (laws : IsSqlite schema)
    (migrations : List Migration) where
  and_then-rollback :
      (next : Tx → Result SqlError (Unit {0}) × Tx)
      → ((t : Tx) → schema.rollback (next t).1 ≡ schema.rollback t)
      → (r : Result SqlError (Unit {0}) × Tx)
      → schema.rollback (and_then schema migrations next r).1 ≡ schema.rollback r.1
  unfolding and_then
  and_then-rollback next h (ok _, t) = h t
  and_then-rollback next h (err e, t) = refl

  apply_all-rollback :
      (ms : List Migration) (t : Tx)
      → Contained ms
      → schema.rollback (apply_all schema migrations ms t).1 ≡ schema.rollback t
  unfolding apply_all
  apply_all-rollback [] t inside = refl
  apply_all-rollback (m ∷ ms) t inside =
      and_then-rollback _
        (λ s.
          and_then-rollback _ (λ u. apply_all-rollback ms u inside.1) _
          ∙ laws.set_user_version_keeps m.version s)
        (schema.execute_batch m.sql t)
      ∙ laws.execute_batch_keeps m.sql t inside.0

  and_then-ok :
      (next : Tx → Result SqlError (Unit {0}) × Tx) (r : Result SqlError (Unit {0}) × Tx) (t : Tx)
      → and_then schema migrations next r ≡ (ok tt, t)
      → (r ≡ (ok tt, r.1)) × (next r.1 ≡ (ok tt, t))
  unfolding and_then
  and_then-ok next (ok tt, s) t h = (refl, h)
  and_then-ok next (err e, s) t h = absurd (ground arith)

  apply_all-version :
      (ms : List Migration) (t t' : Tx)
      → apply_all schema migrations ms t ≡ (ok tt, t')
      → schema.tx_version t' ≡ last_version (schema.tx_version t) ms
  unfolding apply_all last_version
  apply_all-version [] t t' h = ap schema.tx_version (sym (ap (λ r. r.1) h))
  apply_all-version (m ∷ ms) t t' h =
      let (ran, rest) = and_then-ok _ (schema.execute_batch m.sql t) t' h in
      let (set, later) = and_then-ok _ (schema.set_user_version m.version _) t' rest in
      apply_all-version ms _ t' later
      ∙ ap (λ n. last_version n ms) (laws.set_user_version_ok m.version _ _ set)

  apply_all-Runs :
      (ms : List Migration) (t t' : Tx)
      → apply_all schema migrations ms t ≡ (ok tt, t')
      → Runs schema ms t t'
  unfolding apply_all
  apply_all-Runs [] t t' h = subst (Runs schema [] t) (ap (λ r. r.1) h) ended
  apply_all-Runs (m ∷ ms) t t' h =
      let (ran, rest) = and_then-ok _ (schema.execute_batch m.sql t) t' h in
      let (set, later) = and_then-ok _ (schema.set_user_version m.version _) t' rest in
      step ran set (apply_all-Runs ms _ t' later)

  -- Nothing has changed and the answer is an error; or what was pending was done, the last version
  -- is there, and it is read.
  abbrev Ends : Conn → List Migration → Result DbError ℕ × Conn → Type 0
  Ends c pending r =
      ((r.1 ≡ c) × ((e : DbError) × (r.0 ≡ err e)))
      ⊎ ((schema.version r.1 ≡ last_version (schema.version c) pending)
          × (r.0 ≡ current_version schema migrations r.1)
          × Applied schema pending c r.1)

  committed-Ends :
      (c : Conn) (pending : List Migration) (t t' : Tx)
      → schema.begin c ≡ ok t
      → apply_all schema migrations pending t ≡ (ok tt, t')
      → schema.rollback t' ≡ c
      → schema.tx_version t' ≡ last_version (schema.version c) pending
      → (r : Result SqlError (Unit {0}) × Conn) → schema.commit t' ≡ r
      → Ends c pending (committed schema migrations r)
  unfolding committed
  committed-Ends c pending t t' b a back version (ok tt, d) e =
      inr (laws.commit_ok t' d e ∙ version, refl, inr (t, t', b, apply_all-Runs pending t t' a, e))
  committed-Ends c pending t t' b a back version (err x, d) e =
      inl (laws.commit_err t' d x e ∙ back, (DbError.sqlite x, refl))

  applied-Ends :
      (c : Conn) (pending : List Migration) (t : Tx)
      → Contained pending
      → schema.begin c ≡ ok t
      → (r : Result SqlError (Unit {0}) × Tx) → apply_all schema migrations pending t ≡ r
      → Ends c pending (applied schema migrations r)
  unfolding applied
  applied-Ends c pending t inside b (ok tt, s) e =
      let (back, version) = laws.begin_ok c t b in
      committed-Ends c pending t s b e
        (ap (λ r. schema.rollback r.1) (sym e) ∙ (apply_all-rollback pending t inside ∙ back))
        (apply_all-version pending t s e ∙ ap (λ n. last_version n pending) version)
        (schema.commit s) refl
  applied-Ends c pending t inside b (err x, s) e = inl (
    ap (λ r. schema.rollback r.1) (sym e)
        ∙ (apply_all-rollback pending t inside ∙ (laws.begin_ok c t b).0),
    (DbError.sqlite x, refl),
  )

  begun-Ends :
      (c : Conn) (pending : List Migration) (r : Result SqlError Tx)
      → Contained pending
      → schema.begin c ≡ r
      → Ends c pending (begun schema migrations pending c r)
  unfolding begun
  begun-Ends c pending (ok t) inside e =
      applied-Ends c pending t inside e (apply_all schema migrations pending t) refl
  begun-Ends c pending (err x) inside e = inl (refl, (DbError.sqlite x, refl))

  with_pending-Ends :
      (c : Conn) (n : ℕ)
      → current_version schema migrations c ≡ ok n
      → n ≡ schema.version c
      → (pending : List Migration) → Contained pending
      → Ends c pending (with_pending schema migrations n c (ok pending))
  unfolding with_pending last_version
  with_pending-Ends c n e version [] inside = inr (refl, sym e, inl (refl, refl))
  with_pending-Ends c n e version (m ∷ ms) inside =
      begun-Ends c (m ∷ ms) (schema.begin c) inside refl

  abbrev pending_at : Conn → List Migration
  pending_at c = above (schema.version c) migrations

  current_version-ok :
      (c : Conn) (n : ℕ) → current_version schema migrations c ≡ ok n → n ≡ schema.version c
  unfolding current_version versioned
  current_version-ok c n e = elim (Result-cases (schema.user_version c)) [
    | inl (k, f) ↦ laws.user_version_ok c n (rw f (ap ok (ok_inj (rw f at e))))
    | inr (x, f) ↦ absurd (let k = rw f at e in ground arith)
  ]
    where
      ok_inj : {x y : ℕ} → ◌≡◌ {A = Result DbError ℕ} (ok x) (ok y) → x ≡ y
      ok_inj k = ground arith

  migrate-Ends :
      (c : Conn) → Contained migrations → Ends c (pending_at c) (migrate schema migrations c)
  unfolding migrate with_current pending_migrations pending_after after_version
  migrate-Ends c inside = elim (Result-cases (current_version schema migrations c)) [
    | inr (e, f) ↦ rw f (inl (refl, (e, refl)))
    | inl (n, f) ↦
        let version = current_version-ok c n f in
        rw (f, f, version)
          (with_pending-Ends c (schema.version c) (f ∙ ap ok version) refl (pending_at c)
            (All-keep _ _ migrations inside))
  ]

  -- Where the SQL of the migrations stays within its transaction: when `migrate` fails, the
  -- database is as it was; or the SQL of every migration above its version was run, each followed
  -- by its version, in one transaction, the database is what the commit left, and only the version
  -- could not be read after that. Nothing in between is left behind.
  pub migrate-rollback :
      (c c' : Conn) (e : DbError)
      → Contained migrations
      → migrate schema migrations c ≡ (err e, c')
      → (c' ≡ c)
        ⊎ (Committed schema (above (schema.version c) migrations) c c'
            × (current_version schema migrations c' ≡ err e))
  migrate-rollback c c' e inside h = elim (migrate-Ends c inside) [
    | inl (same, _) ↦ inl (sym (ap (λ r. r.1) h) ∙ same)
    | inr (version, read, done) ↦
        let there = ap (λ r. r.1) h in
        elim (subst (Applied schema (pending_at c) c) there done) [
          | inl (_, same) ↦ inl same
          | inr committed ↦ inr (
            committed,
            ap (current_version schema migrations) (sym there) ∙ (sym read ∙ ap (λ r. r.0) h),
          )
        ]
  ]

  ok_ne_err : {n : ℕ} {e : DbError} → ◌≡◌ {A = Result DbError ℕ} (ok n) (err e) → ⊥
  ok_ne_err h = ground arith

  migrate-version :
      (c c' : Conn) (n : ℕ)
      → Contained migrations
      → migrate schema migrations c ≡ (ok n, c')
      → (n ≡ schema.version c')
        × (schema.version c' ≡ last_version (schema.version c) (pending_at c))
        × Applied schema (pending_at c) c c'
  migrate-version c c' n inside h = elim (migrate-Ends c inside) [
    | inl (_, (e, failed)) ↦ absurd (ok_ne_err (sym (ap (λ r. r.0) h) ∙ failed))
    | inr (version, read, done) ↦
        let there = ap (λ r. r.1) h in
        (
          current_version-ok c' n
              (ap (current_version schema migrations) (sym there) ∙ (sym read ∙ ap (λ r. r.0) h)),
          ap schema.version (sym there) ∙ version,
          subst (Applied schema (pending_at c) c) there done,
        )
  ]

  -- Where no migration is above the version, `migrate` only reads it.
  migrate_nothing :
      (c : Conn) (n : ℕ)
      → schema.user_version c ≡ ok n
      → All (λ m. m.version ≤ n) migrations
      → migrate schema migrations c ≡ (ok n, c)
  unfolding migrate with_current pending_migrations pending_after with_pending current_version
      versioned after_version
  migrate_nothing c n read below = rw (read, read, keep-none n migrations below) refl

  -- When `migrate` succeeds on migrations in ascending order whose SQL stays within its
  -- transaction: nothing was pending and the database is as it was, or the SQL of every migration
  -- above its version was run, each followed by its version, in one transaction, and the database is
  -- what the commit left. The number that is returned is the version then, which is not lower than
  -- before, and no migration has a higher one; and to migrate again fails to read the version, or
  -- changes nothing and returns the same.
  pub migrate-current :
      (c c' : Conn) (n : ℕ)
      → Ascending migrations
      → Contained migrations
      → migrate schema migrations c ≡ (ok n, c')
      → Applied schema (above (schema.version c) migrations) c c'
        × (n ≡ schema.version c')
        × (schema.version c ≤ n)
        × All (λ m. m.version ≤ n) migrations
        × (((e : SqlError) × (schema.user_version c' ≡ err e))
            ⊎ (migrate schema migrations c' ≡ (ok n, c')))
  unfolding after_version
  migrate-current c c' n up inside h =
      let (same, version, done) = migrate-version c c' n inside h in
      let (low, highest) =
        last_version-highest (schema.version c) (pending_at c)
          (Ascending-keep (λ m. ltb (schema.version c) m.version) migrations up)
          (kept-above (schema.version c) migrations) in
      let reached : last_version (schema.version c) (pending_at c) ≡ n = sym (same ∙ version) in
      let low' = subst (λ k. schema.version c ≤ k) reached low in
      let highest' = subst (λ k. All (λ m. m.version ≤ k) (pending_at c)) reached highest in
      let below = All-of_kept (schema.version c) n migrations low' highest' in
      (
        done,
        same,
        low',
        below,
        elim (Result-cases (schema.user_version c')) [
          | inr failed ↦ inl failed
          | inl (k, read) ↦ inr (
              migrate_nothing c' n (read ∙ ap ok (laws.user_version_ok c' k read ∙ sym same)) below)
        ],
      )
