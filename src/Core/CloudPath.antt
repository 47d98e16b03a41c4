-- ===== src/Core/CloudPath.antt =====
-- crates/cloudsync-core/src/types.rs, `CloudPath`: normalisation, parent, file name and join.
pub mod Laws
use uni_cloud_file_sync_thin.Prelude.{
  Text, text, slash, ℕ, suc, Bool, Option, none, some, List, [], ◌∷◌, ◌++◌, map, ◌==◌, ite,
  if◌then◌else◌, dec_text, take, drop,
}

-- The newtype around its string.
abbrev pub CloudPath : Type 0
CloudPath = Text

abbrev pub backslash : ℕ
backslash = 92

-- `s.starts_with('/')`
unfoldable pub starts_slash : Text → Bool
starts_slash [] = Bool.false
starts_slash (c ∷ s) = c == slash

-- `s.replace('\\', "/")`
unfoldable pub replace_backslash : Text → Text
replace_backslash = map λ c. if c == backslash then slash else c

-- `s.trim_start_matches('/')`
unfoldable pub trim_start : Text → Text
trim_start [] = []
trim_start (c ∷ s) = let rest = trim_start s in if c == slash then rest else c ∷ s

-- `s.trim_end_matches('/')`
unfoldable pub trim_end : Text → Text
trim_end [] = []
trim_end (c ∷ s) = elim (trim_end s) [ [] ↦ if c == slash then [] else c ∷ [] | d ∷ t ↦ c ∷ d ∷ t ]

-- `s.rfind('/')`
unfoldable pub rfind : Text → Option ℕ
rfind [] = none
rfind (c ∷ s) = elim (rfind s) [
  | none ↦ if c == slash then some 0 else none
  | some i ↦ some (suc i)
]

-- `CloudPath::new`
unfoldable pub new : Text → CloudPath
unfolding starts_slash replace_backslash
new path =
    let normalized = if starts_slash path then path else slash ∷ path in
    replace_backslash normalized

-- `CloudPath::root`
unfoldable pub root : CloudPath
root = slash ∷ []

-- The `match` of `parent` on the position of the last slash of the trimmed path.
unfoldable pub parent_at : Text → Option ℕ → CloudPath
unfolding root take
parent_at trimmed (some ℕ.zero) = root
parent_at trimmed (some (suc i)) = take (suc i) trimmed
parent_at trimmed none = root

-- `CloudPath::parent`
unfoldable pub parent : CloudPath → Option CloudPath
unfolding parent_at trim_end rfind dec_text root
parent p = ite (dec_text p root) none (some (parent_at (trim_end p) (rfind (trim_end p))))

-- `s.rsplit('/').next()`: what stands behind the last slash.
unfoldable pub after_last : Text → Option ℕ → Text
unfolding drop
after_last s none = s
after_last s (some i) = drop (suc i) s

-- `CloudPath::file_name`
unfoldable pub file_name : CloudPath → Option Text
unfolding after_last trim_end rfind dec_text root
file_name p = ite (dec_text p root) none (some (after_last (trim_end p) (rfind (trim_end p))))

-- `CloudPath::join`
unfoldable pub join : CloudPath → Text → CloudPath
unfolding trim_end trim_start
join p component = trim_end p ++ slash ∷ trim_start component

-- `CloudPath::is_root`
unfoldable pub is_root : CloudPath → Bool
unfolding dec_text root
is_root p = ite (dec_text p root) Bool.true Bool.false
