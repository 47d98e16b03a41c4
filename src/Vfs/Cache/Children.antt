-- ===== src/Vfs/Cache/Children.antt =====
-- The children of a directory, as `get_children` of crates/cloudsync-vfs/src/cache.rs finds them.
use mathlib.Core.List.Perm
use uni_cloud_file_sync_thin.Prelude.{
  Text, slash, ℕ, if_pos, sym, Bool, true, none, some, List, [], ◌∷◌, ◌++◌, map, keep, keep-perm,
  Perm, All, ◌&&◌, Result, Result-cases, ok, err, ◌≡◌, ◌≢◌, ◌↔◌, inl, inr, refl, ap, ◌∙◌, arith,
  Bool-cases, Option-cases, ite, dec_text, if_neg, false,
}
use mathlib.Core.Path.{ap₂}
use uni_cloud_file_sync_thin.Vfs.Cache.Shown.{shown_row, from_row-shown}
use uni_cloud_file_sync_thin.Core.CloudPath.{root, trim_end, join}
use uni_cloud_file_sync_thin.Core.CloudPath as CloudPath
use uni_cloud_file_sync_thin.Core.Types.{AccountId}
use uni_cloud_file_sync_thin.Db.Error.{DbError}
use uni_cloud_file_sync_thin.Db.Files.{File, FileRow, clash}
use uni_cloud_file_sync_thin.Db.Files.Selection.{of_account, in_state, list_files}
use uni_cloud_file_sync_thin.Db.Files.Listing.{Holding, none_left, next, list_files-Holding}
use uni_cloud_file_sync_thin.Db.Sqlite.{Table}
use uni_cloud_file_sync_thin.Vfs.Cache.{
  CachedFile, db_file_to_cached_file, prefix_of, remainder, no_slash, direct, is_child, children_of,
  get_children,
}

no_slash_iff : (s : Text) → (no_slash s ≡ true) ↔ All (λ c. c ≢ slash) s
unfolding no_slash
no_slash_iff [] = (λ h. tt, λ h. refl)
no_slash_iff (c ∷ s) = (
  λ h. (ground arith, (no_slash_iff s).0 (ground arith)),
  λ h. let rest = (no_slash_iff s).1 h.1 in let here = h.0 in ground arith,
)

remainder_append : (prefix rest : Text) → remainder prefix (prefix ++ rest) ≡ some rest
unfolding remainder
remainder_append [] rest = refl
remainder_append (p ∷ prefix) rest = ground (arith, remainder_append prefix rest)

append_remainder :
    (prefix path rest : Text) → remainder prefix path ≡ some rest → path ≡ prefix ++ rest
unfolding remainder
append_remainder [] path rest h = ground arith
append_remainder (p ∷ prefix) [] rest h = absurd (ground arith)
append_remainder (p ∷ prefix) (c ∷ path) rest h = ground (arith, append_remainder prefix path rest)

-- The path is that of the directory without the slashes at its end, a slash, and a name without one.
abbrev pub IsEntry : Text → Text → Type 0
IsEntry parent path =
    (name : Text) × All (λ c. c ≢ slash) name × (path ≡ trim_end parent ++ slash ∷ name)

prefix_of-trim_end : (parent : Text) → prefix_of parent ≡ trim_end parent ++ slash ∷ []
unfolding prefix_of root trim_end
prefix_of-trim_end parent = elim (dec_text parent root) [
  | yes e ↦
      if_pos (dec_text parent root) e root (trim_end parent ++ slash ∷ [])
      ∙ ap (λ p. trim_end p ++ slash ∷ []) (sym e)
  | no ne ↦ if_neg (dec_text parent root) ne root (trim_end parent ++ slash ∷ [])
]

append_one : (s : Text) (c : ℕ) (rest : Text) → (s ++ c ∷ []) ++ rest ≡ s ++ c ∷ rest
append_one [] c rest = refl
append_one (x ∷ s) c rest = ap (◌∷◌ x) (append_one s c rest)

is_child_iff : (parent path : Text) → (is_child parent path ≡ true) ↔ IsEntry parent path
unfolding is_child direct
is_child_iff parent path = (sound, complete)
  where
    entry : (name : Text) → prefix_of parent ++ name ≡ trim_end parent ++ slash ∷ name
    entry name =
        ap (λ s. s ++ name) (prefix_of-trim_end parent) ∙ append_one (trim_end parent) slash name

    sound : is_child parent path ≡ true → IsEntry parent path
    sound h = elim (Option-cases (remainder (prefix_of parent) path)) [
      | inl e ↦ absurd (let k = rw e at h in ground arith)
      | inr (name, e) ↦ (
        name,
        (no_slash_iff name).0 (rw e at h),
        append_remainder (prefix_of parent) path name e ∙ entry name,
      )
    ]

    complete : IsEntry parent path → is_child parent path ≡ true
    complete (name, clear, e) =
        rw (e, ← entry name, remainder_append (prefix_of parent) name) ((no_slash_iff name).1 clear)

-- The rows that `get_children` shows: those of the account whose path is an entry of the parent.
unfoldable pub in_directory : AccountId → Text → FileRow → Bool
unfolding dec_text is_child CloudPath.new
in_directory account_id parent row =
    ite (dec_text row.account_id account_id) true false && is_child parent (CloudPath.new row.path)

shown_rows :
    (parent : Text) {rows : List FileRow} {files : List File}
    → Holding rows files
    → map db_file_to_cached_file (keep (λ file. is_child parent file.path) files)
      ≡ map shown_row (keep (λ row. is_child parent (CloudPath.new row.path)) rows)
unfolding keep
shown_rows parent none_left = refl
shown_rows parent (next {row} {file} e rest) =
    let (path, shown) = from_row-shown row file e in
    elim (Bool-cases (is_child parent file.path)) [
      | inl hit ↦ rw (path, hit) (ap₂ ◌∷◌ shown (shown_rows parent rest))
      | inr miss ↦ rw (path, miss) (shown_rows parent rest)
    ]

keep-keep :
    {A : Type 0} (p q : A → Bool) (l : List A) → keep q (keep p l) ≡ keep (λ x. p x && q x) l
unfolding keep
keep-keep p q [] = refl
keep-keep p q (x ∷ l) = elim (Bool-cases (p x)) [
  | inr miss ↦ rw miss (keep-keep p q l)
  | inl hit ↦ elim (Bool-cases (q x)) [
    | inl both ↦ rw (hit, both) (ap (◌∷◌ x) (keep-keep p q l))
    | inr only ↦ rw (hit, only) (keep-keep p q l)
  ]
]

keep_ext :
    {A : Type 0} (p q : A → Bool) → ((x : A) → p x ≡ q x) → (l : List A) → keep p l ≡ keep q l
unfolding keep
keep_ext p q h [] = refl
keep_ext p q h (x ∷ l) = rw (h x, keep_ext p q h l) refl

module _ {Conn : Type 0} (table : Table clash Conn) where
  -- When `get_children` succeeds, it shows each row of the account whose normalised path is an
  -- entry of the directory once, with its identifier, name, path, size, kind, time and state, and no
  -- other row; and a path is such an entry exactly when it is the directory's without trailing
  -- slashes, a slash, and a name that holds no slash.
  pub get_children-entries :
      (account_id : AccountId) (parent : Text) (c : Conn) (children : List CachedFile)
      → get_children table account_id parent c ≡ ok children
      → Perm children (map shown_row (keep (in_directory account_id parent) (table.rows c)))
        × ((path : Text) → (is_child parent path ≡ true) ↔ IsEntry parent path)
  unfolding get_children in_directory children_of in_state of_account
  get_children-entries account_id parent c children h = (entries, is_child_iff parent)
    where
      ok_inj :
          {x y : List CachedFile} → ◌≡◌ {A = Result DbError (List CachedFile)} (ok x) (ok y) → x ≡ y
      ok_inj k = ground arith

      err_ne_ok :
          {e : DbError} {l : List CachedFile}
          → ◌≡◌ {A = Result DbError (List CachedFile)} (err e) (ok l)
          → ⊥
      err_ne_ok k = ground arith

      of_directory :
          keep
            (λ row. is_child parent (CloudPath.new row.path))
            (keep (λ row. of_account account_id row && in_state none row) (table.rows c))
          ≡ keep (in_directory account_id parent) (table.rows c)
      of_directory =
          keep-keep _ _ (table.rows c)
          ∙ keep_ext
              (λ row.
                of_account account_id row
                && in_state none row
                && is_child parent (CloudPath.new row.path))
              (in_directory account_id parent) (λ row. ground arith) (table.rows c)

      entries : Perm children (map shown_row (keep (in_directory account_id parent) (table.rows c)))
      entries = elim (Result-cases (list_files table account_id none c)) [
        | inr (e, f) ↦ absurd (err_ne_ok (rw f at h))
        | inl (files, f) ↦
            let (rows, holding, sorted, same) =
              list_files-Holding table account_id none c files f in
            rw (← ok_inj (rw f at h), shown_rows parent holding, ← of_directory)
              (Perm.map shown_row (keep-perm _ same))
      ]
