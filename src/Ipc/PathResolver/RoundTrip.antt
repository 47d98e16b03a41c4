-- ===== src/Ipc/PathResolver/RoundTrip.antt =====
-- The resolution of a local path that was made from a slug and a cloud path.
use uni_cloud_file_sync_thin.Prelude.{
  Text, text, slash, ℕ, Bool, true, false, some, List, [], ◌∷◌, ◌++◌, keep, All, ◌==◌, ◌≡◌, ◌≢◌,
  refl, ap, ◌∙◌, arith, ends_slash, if_pos, Bool-cases, inl, inr,
}
use mathlib.Core.List.{append_assoc, append-nil}
use uni_cloud_file_sync_thin.Core.CloudPath.{CloudPath, backslash, root, trim_start, starts_slash}
use uni_cloud_file_sync_thin.Core.CloudPath.Laws.{IsNormal-new}
use uni_cloud_file_sync_thin.Core.LocalPath.{join}
use uni_cloud_file_sync_thin.Ipc.PathResolver.{
  split, is_name, components, strip_prefix, collect, cloud_path_of, resolved, resolve_local, below,
  to_local,
}

-- A component of a path: neither empty nor a dot, without slash and without backslash.
pub record IsName (n : Text) : Type 0 where
  pub named : is_name n ≡ true
  pub whole : All (λ c. c ≢ slash) n
  pub forward : All (λ c. c ≢ backslash) n

-- The names with a slash before each.
unfoldable pub slashed : List Text → Text
slashed [] = []
slashed (n ∷ names) = slash ∷ n ++ slashed names

-- The cloud path of the names.
abbrev pub path_of : List Text → CloudPath
path_of [] = slash ∷ []
path_of (n ∷ names) = slashed (n ∷ names)

split-cons : (s : Text) → (piece : Text) × (pieces : List Text) × (split s ≡ piece ∷ pieces)
unfolding split
split-cons [] = ([], [], refl)
split-cons (c ∷ s) =
    let (piece, pieces, e) = split-cons s in
    elim (Bool-cases (c == slash)) [
      | inl h ↦ ([], piece ∷ pieces, rw (e, h) refl)
      | inr h ↦ (c ∷ piece, pieces, rw (e, h) refl)
    ]

split-append : (a b : Text) → split (a ++ slash ∷ b) ≡ split a ++ split b
unfolding split
split-append [] b = let (piece, pieces, e) = split-cons b in rw e refl
split-append (c ∷ a) b =
    let (piece, pieces, e) = split-cons a in
    let rest : split (a ++ slash ∷ b) ≡ piece ∷ pieces ++ split b =
      split-append a b ∙ ap (λ l. l ++ split b) e in
    elim (Bool-cases (c == slash)) [ inl h ↦ rw (rest, e, h) refl | inr h ↦ rw (rest, e, h) refl ]

split-whole : (n : Text) → All (λ c. c ≢ slash) n → split n ≡ n ∷ []
unfolding split
split-whole [] h = refl
split-whole (c ∷ n) h = rw (split-whole n h.1) (ground arith)

keep-append : {A : Type 0} (p : A → Bool) (a b : List A) → keep p (a ++ b) ≡ keep p a ++ keep p b
unfolding keep
keep-append p [] b = refl
keep-append p (x ∷ a) b = elim (Bool-cases (p x)) [
  | inl h ↦ rw (h, keep-append p a b) refl
  | inr h ↦ rw (h, keep-append p a b) refl
]

-- The names behind some path are its components.
names_of-slashed :
    (a : Text) (names : List Text)
    → All IsName names
    → keep is_name (split (a ++ slashed names)) ≡ keep is_name (split a) ++ names
unfolding slashed keep
names_of-slashed a [] h = rw (append-nil, append-nil) refl
names_of-slashed a (n ∷ names) h =
    let first : keep is_name (split n) ≡ n ∷ [] = rw (split-whole n h.0.whole, h.0.named) refl in
    rw
      (
        split-append a (n ++ slashed names),
        keep-append is_name (split a) (split (n ++ slashed names)),
        names_of-slashed n names h.1,
        first,
      )
      refl

strip_prefix-append : (a b : List Text) → strip_prefix a (a ++ b) ≡ some b
unfolding strip_prefix
strip_prefix-append [] b = refl
strip_prefix-append (c ∷ a) b = rw (if_pos _ refl) (strip_prefix-append a b)

-- A name starts with no slash, whatever follows it.
name-start : (n s : Text) → IsName n → starts_slash (n ++ s) ≡ false
unfolding starts_slash is_name
name-start [] s h = absurd (let e = h.named in ground arith)
name-start (c ∷ n) s h = let w = h.whole in ground arith

ends_slash-name : (a n : Text) → IsName n → ends_slash (a ++ slash ∷ n) ≡ false
unfolding ends_slash is_name
ends_slash-name [] [] h = absurd (let e = h.named in ground arith)
ends_slash-name [] (c ∷ n) h = last c n h.whole
  where
    last : (c : ℕ) (n : Text) → All (λ x. x ≢ slash) (c ∷ n) → ends_slash (c ∷ n) ≡ false
    last c [] w = ground arith
    last c (d ∷ n) w = last d n w.1
ends_slash-name (x ∷ []) n h = ends_slash-name [] n h
ends_slash-name (x ∷ y ∷ a) n h = ends_slash-name (y ∷ a) n h

join-relative :
    (c : ℕ) (b s : Text)
    → ends_slash (c ∷ b) ≡ false
    → starts_slash s ≡ false
    → join (c ∷ b) s ≡ c ∷ b ++ slash ∷ s
unfolding join
join-relative c b s h k = rw (k, h) refl

collect-slashed :
    (c : ℕ) (b : Text) (names : List Text)
    → ends_slash (c ∷ b) ≡ false
    → All IsName names
    → collect (c ∷ b) names ≡ c ∷ b ++ slashed names
unfolding collect slashed
collect-slashed c b [] h k = rw append-nil refl
collect-slashed c b (n ∷ names) h k =
    let start : starts_slash n ≡ false = rw append-nil at (name-start n [] k.0) in
    rw (join-relative c b n h start) (
      collect-slashed c (b ++ slash ∷ n) names (ends_slash-name (c ∷ b) n k.0) k.1
      ∙ ap (◌∷◌ c) (append_assoc b (slash ∷ n) (slashed names)))

forward-append :
    (a b : Text)
    → All (λ c. c ≢ backslash) a
    → All (λ c. c ≢ backslash) b
    → All (λ c. c ≢ backslash) (a ++ b)
forward-append [] b h k = k
forward-append (x ∷ a) b h k = (h.0, forward-append a b h.1 k)

slashed-forward : (names : List Text) → All IsName names → All (λ c. c ≢ backslash) (slashed names)
unfolding slashed
slashed-forward [] h = tt
slashed-forward (n ∷ names) h =
    (omega arith, forward-append n (slashed names) h.0.forward (slashed-forward names h.1))

-- The rest of the components is the cloud path again.
cloud_path_of-collect :
    (names : List Text) → All IsName names → cloud_path_of (collect [] names) ≡ path_of names
unfolding cloud_path_of collect join root slashed is_name
cloud_path_of-collect [] h = refl
cloud_path_of-collect ([] ∷ names) h = absurd (let e = h.0.named in ground arith)
cloud_path_of-collect ((c ∷ n) ∷ names) h =
    rw (collect-slashed c n names (ends_slash-name [] (c ∷ n) h.0) h.1) (
      IsNormal-new (slash ∷ c ∷ n ++ slashed names)
        record { rooted = refl; forward = slashed-forward ((c ∷ n) ∷ names) h })

trim_start-name :
    (d : ℕ) (s : Text) → starts_slash (d ∷ s) ≡ false → trim_start (slash ∷ d ∷ s) ≡ d ∷ s
unfolding trim_start starts_slash
trim_start-name d s h = rw h refl

below-slashed :
    (c : ℕ) (b : Text) (names : List Text)
    → ends_slash (c ∷ b) ≡ false
    → All IsName names
    → below (c ∷ b) (trim_start (path_of names)) ≡ c ∷ b ++ slashed names
unfolding below trim_start slashed is_name
below-slashed c b [] h k = rw append-nil refl
below-slashed c b ([] ∷ names) h k = absurd (let e = k.0.named in ground arith)
below-slashed c b ((d ∷ n) ∷ names) h k =
    let start = name-start (d ∷ n) (slashed names) k.0 in
    let kept : trim_start (slashed ((d ∷ n) ∷ names)) ≡ d ∷ n ++ slashed names =
      trim_start-name d (n ++ slashed names) start in
    rw kept (join-relative c b (d ∷ n ++ slashed names) h start)

to_local-slashed :
    (c : ℕ) (b slug : Text) (names : List Text)
    → ends_slash (c ∷ b) ≡ false
    → IsName slug
    → All IsName names
    → to_local (c ∷ b) slug (path_of names) ≡ c ∷ b ++ slash ∷ slug ++ slashed names
unfolding to_local
to_local-slashed c b slug names h s k =
    let start : starts_slash slug ≡ false = rw append-nil at (name-start slug [] s) in
    rw (join-relative c b slug h start)
      (below-slashed c (b ++ slash ∷ slug) names (ends_slash-name (c ∷ b) slug s) k)

components-slashed :
    (c : ℕ) (b slug : Text) (names : List Text)
    → starts_slash (c ∷ b) ≡ true
    → IsName slug
    → All IsName names
    → components (c ∷ b ++ slash ∷ slug ++ slashed names) ≡ components (c ∷ b) ++ slug ∷ names
unfolding components keep starts_slash
components-slashed c b slug names h s k =
    let first : keep is_name (split slug) ≡ slug ∷ [] =
      rw (split-whole slug s.whole, s.named) refl in
    rw
      (
        h,
        names_of-slashed (c ∷ b ++ slash ∷ slug) names k,
        split-append (c ∷ b) slug,
        keep-append is_name (split (c ∷ b)) (split slug),
        first,
      )
      (ap (◌∷◌ (text "/")) (append_assoc (keep is_name (split (c ∷ b))) (slug ∷ []) names))

-- Below an absolute sync root without a slash at its end, the local path that is made from a
-- provider's slug and the cloud path of some names resolves to that slug and that cloud path, if the
-- slug and the names are neither empty nor a dot and hold no slash and no backslash.
pub resolve_local-to_local :
    (sync_root slug : Text) (names : List Text)
    → starts_slash sync_root ≡ true
    → ends_slash sync_root ≡ false
    → IsName slug
    → All IsName names
    → resolve_local sync_root (to_local sync_root slug (path_of names))
      ≡ some (record { provider_slug = slug; cloud_path = path_of names })
unfolding resolve_local resolved starts_slash
resolve_local-to_local [] slug names h e s k = absurd (ground arith)
resolve_local-to_local (c ∷ b) slug names h e s k =
    rw
      (
        to_local-slashed c b slug names e s k,
        components-slashed c b slug names h s k,
        strip_prefix-append (components (c ∷ b)) (slug ∷ names),
        cloud_path_of-collect names k,
      )
      refl
