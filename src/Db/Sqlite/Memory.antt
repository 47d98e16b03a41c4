-- ===== src/Db/Sqlite/Memory.antt =====
-- The laws of a table can be met: a list of rows whose constraints are checked on every change.
use mathlib.Core.List.Perm
use uni_cloud_file_sync_thin.Prelude.{
  Perm, ℕ, ◌≤◌, Bool, true, false, Option, none, some, List, [], ◌∷◌, keep, find, not, length, All,
  Result, ok, err, ◌≡◌, inl, inr, refl, if◌then◌else◌, ◌&&◌, leb, arith, Bool-cases,
}
use uni_cloud_file_sync_thin.Db.Sqlite.Defs.{
  SqlError, constraint_violation, Unique, updated, Answers, Maximum, IsOrder, Ordered, Table,
}

module _ {Row : Type 0} where
  pub find-Answers : (p : Row → Bool) (l : List Row) → Answers p l (find p l)
  unfolding find
  find-Answers p [] = tt
  find-Answers p (x ∷ l) = elim (Bool-cases (p x)) [
    | inl hit ↦ rw hit (hit, inl refl)
    | inr miss ↦ rw miss (Answers-cons p x l (find p l) miss (find-Answers p l))
  ]
    where
      Answers-cons :
          (p : Row → Bool) (x : Row) (l : List Row) (o : Option Row)
          → p x ≡ false
          → Answers p l o
          → Answers p (x ∷ l) o
      Answers-cons p x l none miss a = (miss, a)
      Answers-cons p x l (some r) miss a = (a.0, inr a.1)

  insert_sorted : (Row → Row → Bool) → Row → List Row → List Row
  insert_sorted before x [] = x ∷ []
  insert_sorted before x (y ∷ l) =
      let rest = insert_sorted before x l in if before x y then x ∷ y ∷ l else y ∷ rest

  unfoldable pub sort : (Row → Row → Bool) → List Row → List Row
  unfolding insert_sorted
  sort before [] = []
  sort before (x ∷ l) = insert_sorted before x (sort before l)

  insert_sorted-perm :
      (before : Row → Row → Bool) (x : Row) (l : List Row) → Perm (insert_sorted before x l) (x ∷ l)
  unfolding insert_sorted
  insert_sorted-perm before x [] = Perm.rfl
  insert_sorted-perm before x (y ∷ l) = elim (Bool-cases (before x y)) [
    | inl first ↦ rw first Perm.rfl
    | inr later ↦
        rw later (Perm.trans (Perm.cons y (insert_sorted-perm before x l)) (Perm.swap x y l))
  ]

  pub sort-perm : (before : Row → Row → Bool) (l : List Row) → Perm (sort before l) l
  unfolding sort
  sort-perm before [] = Perm.rfl
  sort-perm before (x ∷ l) =
      Perm.trans (insert_sorted-perm before x (sort before l)) (Perm.cons x (sort-perm before l))

  module _ (before : Row → Row → Bool) (order : IsOrder before) where
    insert_sorted-All :
        (P : Row → Type 0) (x : Row) (l : List Row)
        → P x
        → All P l
        → All P (insert_sorted before x l)
    unfolding insert_sorted
    insert_sorted-All P x [] here rest = (here, tt)
    insert_sorted-All P x (y ∷ l) here rest = elim (Bool-cases (before x y)) [
      | inl first ↦ rw first (here, rest)
      | inr later ↦ rw later (rest.0, insert_sorted-All P x l here rest.1)
    ]

    All-before :
        (x y : Row) (l : List Row)
        → before x y ≡ true
        → All (λ z. before y z ≡ true) l
        → All (λ z. before x z ≡ true) l
    All-before x y [] first a = tt
    All-before x y (z ∷ l) first a = (order.trans x y z first a.0, All-before x y l first a.1)

    insert_sorted-Ordered :
        (x : Row) (l : List Row) → Ordered before l → Ordered before (insert_sorted before x l)
    unfolding insert_sorted
    insert_sorted-Ordered x [] o = (tt, tt)
    insert_sorted-Ordered x (y ∷ l) o = elim (Bool-cases (before x y)) [
      | inl first ↦ rw first ((first, All-before x y l first o.0), o)
      | inr later ↦ rw later (
        insert_sorted-All (λ z. before y z ≡ true) x l (order.total x y later) o.0,
        insert_sorted-Ordered x l o.1,
      )
    ]

    pub sort-Ordered : (l : List Row) → Ordered before (sort before l)
    unfolding sort
    sort-Ordered [] = tt
    sort-Ordered (x ∷ l) = insert_sorted-Ordered x (sort before l) (sort-Ordered l)

  larger : (Row → ℕ) → Row → Option ℕ → Option ℕ
  larger f x none = some (f x)
  larger f x (some m) = if leb (f x) m then some m else some (f x)

  unfoldable pub maximum : (Row → ℕ) → List Row → Option ℕ
  unfolding larger
  maximum f [] = none
  maximum f (x ∷ l) = larger f x (maximum f l)

  All-le :
      (f : Row → ℕ) (l : List Row) (m n : ℕ) → m ≤ n → All (λ r. f r ≤ m) l → All (λ r. f r ≤ n) l
  All-le f [] m n h a = tt
  All-le f (x ∷ l) m n h a = (omega arith, All-le f l m n h a.1)

  pub maximum-Maximum : (f : Row → ℕ) (l : List Row) → Maximum f l (maximum f l)
  unfolding maximum larger
  maximum-Maximum f [] = refl
  maximum-Maximum f (x ∷ l) = larger-Maximum (maximum f l) (maximum-Maximum f l)
    where
      larger-Maximum : (o : Option ℕ) → Maximum f l o → Maximum f (x ∷ l) (larger f x o)
      larger-Maximum none a = rw a ((omega arith, tt), (x, inl refl, refl))
      larger-Maximum (some m) (bound, (r, among, reached)) = elim (Bool-cases (leb (f x) m)) [
        | inl below ↦ rw below ((ground arith, bound), (r, inr among, reached))
        | inr above ↦
            rw above ((omega arith, All-le f l m (f x) (ground arith) bound), (x, inl refl, refl))
      ]

module _ {Row : Type 0} (clash : Row → Row → Bool) where
  unfoldable pub clear_of : Row → List Row → Bool
  clear_of r [] = true
  clear_of r (x ∷ xs) = not (clash r x) && clear_of r xs

  unfoldable pub all_clear : List Row → Bool
  unfolding clear_of
  all_clear [] = true
  all_clear (x ∷ xs) = clear_of x xs && all_clear xs

  clear_of_sound : (r : Row) (l : List Row) → clear_of r l ≡ true → All (λ x. clash r x ≡ false) l
  unfolding clear_of
  clear_of_sound r [] h = tt
  clear_of_sound r (x ∷ l) h = (ground arith, clear_of_sound r l (ground arith))

  all_clear_sound : (l : List Row) → all_clear l ≡ true → Unique clash l
  unfolding all_clear
  all_clear_sound [] h = tt
  all_clear_sound (x ∷ l) h = (clear_of_sound x l (ground arith), all_clear_sound l (ground arith))

  abbrev pub Stored : Type 0
  Stored = List Row

  unfoldable pub memory_insert : Row → Stored → Result SqlError (Unit {0}) × Stored
  unfolding clear_of
  memory_insert r l = if clear_of r l then (ok tt, r ∷ l) else (err constraint_violation, l)

  unfoldable pub memory_update : (Row → Bool) → (Row → Row) → Stored → Result SqlError ℕ × Stored
  unfolding all_clear
  memory_update p f l =
      if all_clear (updated p f l)
      then (ok (length (keep p l)), updated p f l)
      else (err constraint_violation, l)

  pub memory_insert_ok :
      (r : Row) (l l' : Stored)
      → memory_insert r l ≡ (ok tt, l')
      → (l' ≡ r ∷ l) × All (λ x. clash r x ≡ false) l
  unfolding memory_insert
  memory_insert_ok r l l' h = (ground arith, clear_of_sound r l (ground arith))

  pub memory_insert_err :
      (r : Row) (l l' : Stored) (e : SqlError) → memory_insert r l ≡ (err e, l') → l' ≡ l
  unfolding memory_insert
  memory_insert_err r l l' e h = ground arith

  pub memory_update_ok :
      (p : Row → Bool) (f : Row → Row) (l l' : Stored) (n : ℕ)
      → memory_update p f l ≡ (ok n, l')
      → (l' ≡ updated p f l) × (n ≡ length (keep p l)) × Unique clash l'
  unfolding memory_update
  memory_update_ok p f l l' n h = elim (Bool-cases (all_clear (updated p f l))) [
    | inl clear ↦
        let e : l' ≡ updated p f l = ground arith in
        (e, ground arith, rw e (all_clear_sound (updated p f l) clear))
    | inr clashing ↦ absurd (ground arith)
  ]

  pub memory_update_err :
      (p : Row → Bool) (f : Row → Row) (l l' : Stored) (e : SqlError)
      → memory_update p f l ≡ (err e, l')
      → l' ≡ l
  unfolding memory_update
  memory_update_err p f l l' e h = ground arith

  abbrev pub memory : Table clash Stored
  memory = record {
    rows = λ l. l;
    query_row = λ p l. ok (find p l);
    query_map = λ p l. ok (keep p l);
    query_ordered = λ p before l. ok (sort before (keep p l));
    query_max = λ f l. ok (maximum f l);
    insert = memory_insert;
    update = memory_update;
    delete = λ p l. (ok (length (keep p l)), keep (λ r. not (p r)) l);
    query_row_ok = λ p l o h. let e : find p l ≡ o = ground arith in rw (← e) (find-Answers p l);
    query_map_ok = λ p l o h. let e : keep p l ≡ o = ground arith in rw (← e) Perm.rfl;
    query_ordered_ok = λ p before l l' order h.
        let e : sort before (keep p l) ≡ l' = ground arith in
        rw (← e) (sort-perm before (keep p l), sort-Ordered before order (keep p l));
    query_max_ok =
        λ f l o h. let e : maximum f l ≡ o = ground arith in rw (← e) (maximum-Maximum f l);
    insert_ok = memory_insert_ok;
    insert_err = memory_insert_err;
    update_ok = memory_update_ok;
    update_err = memory_update_err;
    delete_ok = λ p l l' n h. (ground arith, ground arith);
    delete_err = λ p l l' e h. absurd (ground arith);
  }
