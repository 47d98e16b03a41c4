-- ===== src/Db/Migrations/Tests.antt =====
-- Runs of the migrator on a schema in memory, and the instances of the theorems there.
use uni_cloud_file_sync_thin.Prelude.{
  Text, text, ℕ, ◌≤◌, true, false, List, [], ◌∷◌, keep, All, Result, ok, err, ◌≡◌, ◌⊎◌, refl, sym,
  ap, arith, dec_text, ℕ_discrete,
}
use uni_cloud_file_sync_thin.Db.Error.{DbError}
use uni_cloud_file_sync_thin.Db.Migrations.{
  Migration, Schema, current_version, after_version, apply_all, has_pending_migrations,
  pending_migrations, migrate,
}
use uni_cloud_file_sync_thin.Db.Migrations.Outcomes.{migrate-rollback, migrate-current}
use uni_cloud_file_sync_thin.Db.Migrations.Versions.{
  IsSqlite, Contained, Committed, Applied, last_version, stays_within, words, none_of, one_of,
  upper,
}
use uni_cloud_file_sync_thin.Db.Sqlite.{SqlError, failure}

-- The version and the statements that were executed; a transaction has the connection it began with.
abbrev Conn : Type 0
Conn = ℕ × List Text

-- A statement that fails is the text "bad".
ran : {P : Type 0} → Dec P → Text → Conn × Conn → Result SqlError (Unit {0}) × (Conn × Conn)
ran (yes bad) sql t = (err (failure sql), t)
ran (no fine) sql (old, (n, done)) = (ok tt, (old, (n, sql ∷ done)))

execute : Text → Conn × Conn → Result SqlError (Unit {0}) × (Conn × Conn)
unfolding ran
execute sql t = ran (dec_text sql (text "bad")) sql t

abbrev schema : Schema Conn (Conn × Conn)
schema = record {
  version = λ c. c.0;
  tx_version = λ t. t.1.0;
  rollback = λ t. t.0;
  user_version = λ c. ok c.0;
  begin = λ c. ok (c, c);
  execute_batch = execute;
  set_user_version = λ n t. (ok tt, (t.0, (n, t.1.1)));
  commit = λ t. (ok tt, t.1);
}

ran_keeps : {P : Type 0} (d : Dec P) (sql : Text) (t : Conn × Conn) → (ran d sql t).1.0 ≡ t.0
unfolding ran
ran_keeps (yes bad) sql t = refl
ran_keeps (no fine) sql t = refl

execute_keeps : (sql : Text) (t : Conn × Conn) → (execute sql t).1.0 ≡ t.0
unfolding execute
execute_keeps sql t = ran_keeps (dec_text sql (text "bad")) sql t

laws : IsSqlite schema
laws = record {
  user_version_ok = λ c n e. ground arith;
  begin_ok = λ c t e. (ground arith, ground arith);
  execute_batch_keeps = λ sql t inside. execute_keeps sql t;
  set_user_version_keeps = λ n t. refl;
  set_user_version_ok = λ n t t' e. sym (ap (λ r. r.1.1.0) e);
  commit_ok = λ t c e. sym (ap (λ r. r.1.0) e);
  commit_err = λ t c x e. absurd (ground arith);
}

abbrev migration : ℕ → Text → Migration
migration version sql = record { version = version; description = []; sql = sql }

abbrev two : List Migration
two = migration 1 (text "a") ∷ migration 2 (text "b") ∷ []

abbrev broken : List Migration
broken = migration 1 (text "a") ∷ migration 2 (text "bad") ∷ []

program : Unit {0}
unfolding migrate current_version pending_migrations has_pending_migrations after_version apply_all
    execute keep dec_text ℕ_discrete last_version stays_within words none_of one_of upper
program = tt

run_migrate : migrate schema two (1, []) ≡ (ok 2, (2, text "b" ∷ []))
unfolding program
run_migrate = refl

run_broken : migrate schema broken (0, []) ≡ (err (DbError.sqlite (failure (text "bad"))), (0, []))
unfolding program
run_broken = refl

-- In descending order the database ends at the lower version, and a migration is pending again.
run_descending :
    (migrate schema (migration 2 (text "b") ∷ migration 1 (text "a") ∷ []) (0, [])).1.0 ≡ 1
unfolding program
run_descending = refl

run_pending : has_pending_migrations schema two (2, []) ≡ ok false
unfolding program
run_pending = refl

-- The statements of a transaction are no SQL that stays within it; a state of a file is.
run_stays_within : stays_within (text "insert into t; Commit;") ≡ false
unfolding program
run_stays_within = refl

run_pending_state : stays_within (text "CHECK(state IN ('pending'))") ≡ true
unfolding program
run_pending_state = refl

two-Contained : Contained two
unfolding program
two-Contained = (refl, (refl, tt))

broken-Contained : Contained broken
unfolding program
broken-Contained = (refl, (refl, tt))

migrate-rollback_example :
    ◌≡◌ {A = Conn} (0, []) (0, [])
    ⊎ (Committed schema broken (0, []) (0, [])
        × (current_version schema broken (0, []) ≡ err (DbError.sqlite (failure (text "bad")))))
unfolding program
migrate-rollback_example =
    migrate-rollback schema laws broken (0, []) (0, []) (DbError.sqlite (failure (text "bad")))
      broken-Contained refl

migrate-current_example :
    Applied schema (migration 2 (text "b") ∷ []) (1, []) (2, text "b" ∷ [])
    × ◌≡◌ {A = ℕ} 2 2
    × (1 ≤ 2)
    × All (λ m. m.version ≤ 2) two
    × (((e : SqlError) × (◌≡◌ {A = Result SqlError ℕ} (ok 2) (err e)))
        ⊎ (migrate schema two (2, text "b" ∷ []) ≡ (ok 2, (2, text "b" ∷ []))))
unfolding program
migrate-current_example =
    migrate-current schema laws two (1, []) (2, text "b" ∷ []) 2 ((omega arith, tt), (tt, tt))
      two-Contained refl
