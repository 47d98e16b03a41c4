-- ===== src/Vfs/Filesystem/Paging.antt =====
-- A directory is read page by page: each call of `readdir` starts at the offset that the last
-- entry of the page before it carries.
use mathlib.Core.List.{append-nil, append_assoc}
use uni_cloud_file_sync_thin.Prelude.{
  ℕ, zero, suc, ◌+◌, ◌≤◌, Bool, true, List, [], ◌∷◌, ◌++◌, length, take, drop, ◌≡◌, inl, inr, refl,
  sym, ap, ◌∙◌, arith, Bool-cases,
}
use uni_cloud_file_sync_thin.Vfs.Filesystem.Replies.{Entry, Added, add_entries, page}

-- The entries with the offsets that follow them, the first at index `i`.
unfoldable pub indexed : ℕ → List Entry → List Added
indexed i [] = []
indexed i (e ∷ entries) = record { offset = i + 1; entry = e } ∷ indexed (i + 1) entries

-- Where the next call starts.
unfoldable pub next_offset : ℕ → List Added → ℕ
next_offset offset [] = offset
next_offset offset (x ∷ added) = next_offset x.offset added

-- The pages until one is empty, in at most so many calls.
more : List Added → List Added → List Added
more [] rest = []
more (x ∷ added) rest = x ∷ added ++ rest

unfoldable pub all_pages : (List Added → Added → Bool) → ℕ → ℕ → List Entry → List Added
unfolding more page next_offset
all_pages room zero offset entries = []
all_pages room (suc calls) offset entries =
    let added = page room offset entries in
    more added (all_pages room calls (next_offset offset added) entries)

next_offset-indexed :
    (i : ℕ) (entries : List Entry) → next_offset i (indexed i entries) ≡ i + length entries
unfolding next_offset indexed
next_offset-indexed i [] = omega arith
next_offset-indexed i (e ∷ entries) = omega (arith, next_offset-indexed (i + 1) entries)

indexed-split :
    (k i : ℕ) (entries : List Entry)
    → k ≤ length entries
    → indexed i (take k entries) ++ indexed (i + k) (drop k entries) ≡ indexed i entries
unfolding indexed take drop
indexed-split zero i entries h = ap (λ j. indexed j entries) (omega arith)
indexed-split (suc k) i [] h = absurd (omega arith)
indexed-split (suc k) i (e ∷ entries) h = ap (◌∷◌ (record { offset = i + 1; entry = e })) (
    ap (λ j. indexed (i + 1) (take k entries) ++ indexed j (drop k entries)) (omega arith)
    ∙ indexed-split k (i + 1) entries (omega arith))

length-take : (k : ℕ) (entries : List Entry) → k ≤ length entries → length (take k entries) ≡ k
unfolding take
length-take zero entries h = refl
length-take (suc k) [] h = absurd (omega arith)
length-take (suc k) (e ∷ entries) h = omega (arith, length-take k entries)

drop-past : (i : ℕ) (entries : List Entry) → length entries ≤ i → drop i entries ≡ []
unfolding drop
drop-past zero [] h = refl
drop-past zero (e ∷ entries) h = absurd (omega arith)
drop-past (suc i) [] h = refl
drop-past (suc i) (e ∷ entries) h = drop-past i entries (omega arith)

drop-drop : (k i : ℕ) (entries : List Entry) → drop k (drop i entries) ≡ drop (i + k) entries
unfolding drop
drop-drop k zero entries = ap (λ j. drop j entries) (omega arith)
drop-drop zero (suc i) [] = sym (drop-past (suc i + 0) [] (omega arith))
drop-drop (suc k) (suc i) [] = sym (drop-past (suc i + suc k) [] (omega arith))
drop-drop k (suc i) (e ∷ entries) =
    drop-drop k i entries
    ∙ ap (λ j. drop j (e ∷ entries)) {x = suc (i + k)} {y = suc i + k} (omega arith)

module _ (room : List Added → Added → Bool) where
  add_entries-indexed :
      (added : List Added) (i : ℕ) (entries : List Entry)
      → (k : ℕ) × (k ≤ length entries)
        × (add_entries room added i entries ≡ added ++ indexed i (take k entries))
  unfolding add_entries indexed take
  add_entries-indexed added i [] = (0, omega arith, sym (append-nil added))
  add_entries-indexed added i (e ∷ entries) =
      elim (Bool-cases (room added (record { offset = i + 1; entry = e }))) [
        | inr full ↦ (0, omega arith, rw full (sym (append-nil added)))
        | inl fits ↦
            let (k, few, same) =
              add_entries-indexed (added ++ record { offset = i + 1; entry = e } ∷ []) (i + 1)
                entries in
            (suc k, omega arith, rw fits (same ∙ append_assoc added _ _))
      ]

  -- The pages after the first call, when the rest is known.
  module _ (calls offset : ℕ) (entries : List Entry) (left : length entries ≤ offset + suc calls)
      (again : (i : ℕ)
        → length entries ≤ i + calls
        → all_pages room calls i entries ≡ indexed i (drop i entries)) where
    resumed :
        (x : Entry) (rest : List Entry) (k : ℕ)
        → drop offset entries ≡ x ∷ rest
        → k ≤ length rest
        → all_pages room calls
            (next_offset (offset + 1) (indexed (offset + 1) (take k rest)))
            entries
          ≡ indexed (offset + 1 + k) (drop k rest)
    unfolding drop
    resumed x rest k e few =
        ap (λ j. all_pages room calls j entries)
          (next_offset-indexed (offset + 1) (take k rest)
            ∙ ap (λ j. offset + 1 + j) (length-take k rest few))
        ∙ (again (offset + 1 + k) (omega arith)
            ∙ ap (indexed (offset + 1 + k)) (
                ap (λ j. drop j entries) {x = offset + 1 + k} {y = offset + suc k} (omega arith)
                ∙ (sym (drop-drop (suc k) offset entries) ∙ ap (drop (suc k)) e)))

    paged :
        ((x : Added) → room [] x ≡ true)
        → (rest : List Entry) → drop offset entries ≡ rest
        → more
            (add_entries room [] offset rest)
            (all_pages room calls (next_offset offset (add_entries room [] offset rest)) entries)
          ≡ indexed offset rest
    unfolding more next_offset indexed add_entries
    paged fits [] e = refl
    paged fits (x ∷ rest) e =
        let (k, few, same) =
          add_entries-indexed (record { offset = offset + 1; entry = x } ∷ []) (offset + 1) rest in
        rw (fits (record { offset = offset + 1; entry = x }), same)
          (ap (◌∷◌ (record { offset = offset + 1; entry = x })) (
            ap (◌++◌ (indexed (offset + 1) (take k rest))) (resumed x rest k e few)
            ∙ indexed-split k (offset + 1) rest few))

  -- However few entries a reply has room for, as long as it has room for one, the pages of a
  -- directory that does not change are together its entries from the offset on, each once and in
  -- order, with the offset of the next one; and as many calls as there are entries are enough.
  pub readdir-all_pages :
      ((x : Added) → room [] x ≡ true)
      → (calls offset : ℕ) (entries : List Entry) → length entries ≤ offset + calls
      → all_pages room calls offset entries ≡ indexed offset (drop offset entries)
  unfolding all_pages page indexed
  readdir-all_pages fits zero offset entries h = rw (drop-past offset entries (omega arith)) refl
  readdir-all_pages fits (suc calls) offset entries h =
      paged calls offset entries h (λ i. readdir-all_pages fits calls i entries) fits
        (drop offset entries) refl
