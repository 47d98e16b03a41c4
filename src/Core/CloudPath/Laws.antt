-- ===== src/Core/CloudPath/Laws.antt =====
-- The normal form of `CloudPath::new`, and `join` against `parent` and `file_name`.
use uni_cloud_file_sync_thin.Prelude.{
  Text, slash, true, none, some, [], ◌∷◌, ◌++◌, drop, length, All, ◌≡◌, ◌≢◌, refl, ap, arith,
  take_prefix, if_neg, ◌∙◌,
}
use mathlib.Core.List.{tail}
use uni_cloud_file_sync_thin.Core.CloudPath.{
  CloudPath, backslash, starts_slash, replace_backslash, trim_start, trim_end, rfind, new, root,
  parent_at, parent, after_last, file_name, join,
}

-- A path starts with a slash and holds no backslash.
pub record IsNormal (p : CloudPath) : Type 0 where
  pub rooted : starts_slash p ≡ true
  pub forward : All (λ c. c ≢ backslash) p

replace_backslash-forward : (s : Text) → All (λ c. c ≢ backslash) (replace_backslash s)
unfolding replace_backslash
replace_backslash-forward [] = tt
replace_backslash-forward (c ∷ s) = (ground arith, replace_backslash-forward s)

replace_backslash-id : (s : Text) → All (λ c. c ≢ backslash) s → replace_backslash s ≡ s
unfolding replace_backslash
replace_backslash-id [] h = refl
replace_backslash-id (c ∷ s) h = ground (arith, replace_backslash-id s h.1)

new-rooted : (s : Text) → starts_slash (new s) ≡ true
unfolding new starts_slash replace_backslash
new-rooted [] = refl
new-rooted (c ∷ s) = ground arith

forward_slash_cons :
    (s : Text) → starts_slash (new s) ≡ true → new (new s) ≡ replace_backslash (new s)
unfolding new
forward_slash_cons s h = rw h

new-forward : (s : Text) → All (λ c. c ≢ backslash) (new s)
unfolding new
new-forward s = replace_backslash-forward _

pub IsNormal-new : (p : CloudPath) → IsNormal p → new p ≡ p
unfolding new
IsNormal-new p n = rw n.rooted (replace_backslash-id p n.forward)

-- Whatever the string, the path made of it starts with a slash and holds no backslash, and to
-- normalise it again changes nothing.
pub new-IsNormal : (s : Text) → IsNormal (new s) × (new (new s) ≡ new s)
new-IsNormal s = (
  record { rooted = new-rooted s; forward = new-forward s },
  forward_slash_cons s (new-rooted s) ∙ replace_backslash-id (new s) (new-forward s),
)

-- A component that holds no slash and is not empty.
abbrev pub IsWord : Text → Type 0
IsWord c = (c ≢ []) × All (λ x. x ≢ slash) c

trim_end-word : (c : Text) → All (λ x. x ≢ slash) c → trim_end c ≡ c
unfolding trim_end
trim_end-word [] h = refl
trim_end-word (x ∷ []) h = ground arith
trim_end-word (x ∷ y ∷ c) h = ground (arith, trim_end-word (y ∷ c) h.1)

trim_start-word : (c : Text) → All (λ x. x ≢ slash) c → trim_start c ≡ c
unfolding trim_start
trim_start-word [] h = refl
trim_start-word (x ∷ c) h = ground arith

trim_end-append : (b c : Text) → IsWord c → trim_end (b ++ slash ∷ c) ≡ b ++ slash ∷ c
unfolding trim_end
trim_end-append [] [] h = absurd (h.0 refl)
trim_end-append [] (x ∷ c) h = rw (trim_end-word (x ∷ c) h.1) refl
trim_end-append (x ∷ []) c h = rw (trim_end-append [] c h) refl
trim_end-append (x ∷ y ∷ b) c h = rw (trim_end-append (y ∷ b) c h) refl

rfind-word : (c : Text) → All (λ x. x ≢ slash) c → rfind c ≡ none
unfolding rfind
rfind-word [] h = refl
rfind-word (x ∷ c) h = ground (arith, rfind-word c h.1)

rfind-append : (b c : Text) → All (λ x. x ≢ slash) c → rfind (b ++ slash ∷ c) ≡ some (length b)
unfolding rfind
rfind-append [] c h = rw (rfind-word c h) refl
rfind-append (x ∷ b) c h = rw (rfind-append b c h) refl

join-word : (p : CloudPath) (c : Text) → IsWord c → join p c ≡ trim_end p ++ slash ∷ c
unfolding join
join-word p c h = rw (trim_start-word c h.1) refl

join-ne-root : (p : CloudPath) (c : Text) → IsWord c → join p c ≢ root
unfolding root
join-ne-root p c h = rw (join-word p c h) (ne_root (trim_end p))
  where
    ne_root : (b : Text) → b ++ slash ∷ c ≢ slash ∷ []
    ne_root [] e = h.0 (ap tail e)
    ne_root (x ∷ []) e = cc
    ne_root (x ∷ y ∷ b) e = cc

-- The directory that `join` appends to: the path without trailing slashes, or the root.
unfoldable pub directory : CloudPath → CloudPath
directory p = elim (trim_end p) [ [] ↦ slash ∷ [] | c ∷ b ↦ c ∷ b ]

parent_at-append :
    (b c : Text)
    → parent_at (b ++ slash ∷ c) (some (length b)) ≡ elim b [ [] ↦ slash ∷ [] | x ∷ t ↦ x ∷ t ]
unfolding parent_at
parent_at-append [] c = refl
parent_at-append (x ∷ b) c = take_prefix (x ∷ b) (slash ∷ c)

after_last-append : (b c : Text) → after_last (b ++ slash ∷ c) (some (length b)) ≡ c
unfolding after_last drop
after_last-append [] c = refl
after_last-append (x ∷ b) c = after_last-append b c

-- `join` with a component that is not empty and holds no slash is undone by `parent` and
-- `file_name`: the parent is the path joined to, up to its trailing slashes, and the file name is
-- the component.
pub parent-join :
    (p : CloudPath) (c : Text)
    → IsWord c
    → (parent (join p c) ≡ some (directory p)) × (file_name (join p c) ≡ some c)
unfolding parent file_name directory
parent-join p c h = (
  rw (if_neg _ (join-ne-root p c h), join-word p c h)
      (rw (trim_end-append (trim_end p) c h, rfind-append (trim_end p) c h.1)
        (ap some (parent_at-append (trim_end p) c))),
  rw (if_neg _ (join-ne-root p c h), join-word p c h)
      (rw (trim_end-append (trim_end p) c h, rfind-append (trim_end p) c h.1)
        (ap some (after_last-append (trim_end p) c))),
)
