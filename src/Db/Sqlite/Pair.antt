-- ===== src/Db/Sqlite/Pair.antt =====
-- Two tables in one database: a statement on one of them leaves the other as it is.
use uni_cloud_file_sync_thin.Prelude.{Bool, ap}
use uni_cloud_file_sync_thin.Db.Sqlite.Defs.{Table}

module _ {A B X : Type 0} where
  abbrev pub left : X × A → B → X × (A × B)
  left (x, a) b = (x, (a, b))

  abbrev pub right : X × B → A → X × (A × B)
  right (x, b) a = (x, (a, b))

module _ {Row A B : Type 0} {clash : Row → Row → Bool} where
  abbrev pub first_table : Table clash A → Table clash (A × B)
  first_table table = record {
    rows = λ c. table.rows c.0;
    query_row = λ p c. table.query_row p c.0;
    query_map = λ p c. table.query_map p c.0;
    query_ordered = λ p order c. table.query_ordered p order c.0;
    query_max = λ f c. table.query_max f c.0;
    insert = λ r c. left (table.insert r c.0) c.1;
    update = λ p f c. left (table.update p f c.0) c.1;
    delete = λ p c. left (table.delete p c.0) c.1;
    query_row_ok = λ p c. table.query_row_ok p c.0;
    query_map_ok = λ p c. table.query_map_ok p c.0;
    query_ordered_ok = λ p order c. table.query_ordered_ok p order c.0;
    query_max_ok = λ f c. table.query_max_ok f c.0;
    insert_ok = λ r c c' h. table.insert_ok r c.0 c'.0 (ap (λ x. (x.0, x.1.0)) h);
    insert_err = λ r c c' e h. table.insert_err r c.0 c'.0 e (ap (λ x. (x.0, x.1.0)) h);
    update_ok = λ p f c c' n h. table.update_ok p f c.0 c'.0 n (ap (λ x. (x.0, x.1.0)) h);
    update_err = λ p f c c' e h. table.update_err p f c.0 c'.0 e (ap (λ x. (x.0, x.1.0)) h);
    delete_ok = λ p c c' n h. table.delete_ok p c.0 c'.0 n (ap (λ x. (x.0, x.1.0)) h);
    delete_err = λ p c c' e h. table.delete_err p c.0 c'.0 e (ap (λ x. (x.0, x.1.0)) h);
  }

  abbrev pub second_table : Table clash B → Table clash (A × B)
  second_table table = record {
    rows = λ c. table.rows c.1;
    query_row = λ p c. table.query_row p c.1;
    query_map = λ p c. table.query_map p c.1;
    query_ordered = λ p order c. table.query_ordered p order c.1;
    query_max = λ f c. table.query_max f c.1;
    insert = λ r c. right (table.insert r c.1) c.0;
    update = λ p f c. right (table.update p f c.1) c.0;
    delete = λ p c. right (table.delete p c.1) c.0;
    query_row_ok = λ p c. table.query_row_ok p c.1;
    query_map_ok = λ p c. table.query_map_ok p c.1;
    query_ordered_ok = λ p order c. table.query_ordered_ok p order c.1;
    query_max_ok = λ f c. table.query_max_ok f c.1;
    insert_ok = λ r c c' h. table.insert_ok r c.1 c'.1 (ap (λ x. (x.0, x.1.1)) h);
    insert_err = λ r c c' e h. table.insert_err r c.1 c'.1 e (ap (λ x. (x.0, x.1.1)) h);
    update_ok = λ p f c c' n h. table.update_ok p f c.1 c'.1 n (ap (λ x. (x.0, x.1.1)) h);
    update_err = λ p f c c' e h. table.update_err p f c.1 c'.1 e (ap (λ x. (x.0, x.1.1)) h);
    delete_ok = λ p c c' n h. table.delete_ok p c.1 c'.1 n (ap (λ x. (x.0, x.1.1)) h);
    delete_err = λ p c c' e h. table.delete_err p c.1 c'.1 e (ap (λ x. (x.0, x.1.1)) h);
  }
