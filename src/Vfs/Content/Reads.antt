-- ===== src/Vfs/Content/Reads.antt =====
-- What a read of a cached file gives.
use uni_cloud_file_sync_thin.Prelude.{
  Text, ℕ, zero, suc, ◌≤◌, some, List, length, take, drop, Result, Result-cases, ok, err, ◌≡◌, inl,
  inr, refl, ap, arith,
}
use uni_cloud_file_sync_thin.Vfs.Content.{
  LocalFiles, Errno, zeros, truncated, sought, opened, read_file_at,
}

-- The behaviour of `File::open`, `seek` and `read`: an open file is at its first byte, a seek goes
-- to the offset, and a read fills the start of the buffer with the bytes that come next. A read
-- may be short; it is empty only at the end of the file or for an empty buffer.
pub record IsFileSystem {World Handle : Type 0} (disk : LocalFiles World Handle) : Type 0 where
  pub open_ok :
      (path : Text) (w : World) (h : Handle)
      → disk.open_file path w ≡ ok h
      → disk.contents path w ≡ some (disk.whole h)
  pub seek_ok :
      (offset : ℕ) (h h' : Handle)
      → disk.seek offset h ≡ ok h'
      → (disk.position h' ≡ offset) × (disk.whole h' ≡ disk.whole h)
  pub read_ok :
      (h : Handle) (buf buf' : List ℕ) (n : ℕ)
      → disk.read h buf ≡ ok (n, buf')
      → (n ≤ length buf)
        × (take n buf' ≡ take n (drop (disk.position h) (disk.whole h)))
        × (length (take n buf') ≡ n)

length-zeros : (n : ℕ) → length (zeros n) ≡ n
unfolding zeros
length-zeros zero = refl
length-zeros (suc n) = ap suc (length-zeros n)

err_ne_ok : {x : Errno} {got : List ℕ} → ◌≡◌ {A = Result Errno (List ℕ)} (err x) (ok got) → ⊥
err_ne_ok h = ground arith

ok_inj : {xs ys : List ℕ} → ◌≡◌ {A = Result Errno (List ℕ)} (ok xs) (ok ys) → xs ≡ ys
ok_inj h = ground arith

module _ {World Handle : Type 0} (disk : LocalFiles World Handle) (laws : IsFileSystem disk) where
  -- The data are a prefix of the bytes from the offset on, of at most the size asked for.
  abbrev pub Extract : ℕ → ℕ → List ℕ → List ℕ → Type 0
  Extract offset size bytes got =
      (length got ≤ size) × (got ≡ take (length got) (drop offset bytes))

  sought-Extract :
      (size : ℕ) (h : Handle) (got : List ℕ)
      → sought disk size (ok h) ≡ ok got
      → Extract (disk.position h) size (disk.whole h) got
  unfolding sought truncated
  sought-Extract size h got e = elim (Result-cases (disk.read h (zeros size))) [
    | inr (x, f) ↦ absurd (err_ne_ok (rw f at e))
    | inl ((n, buf), f) ↦
        let (few, same, count) = laws.read_ok h (zeros size) buf n f in
        let whole : take n buf ≡ got = ok_inj (rw f at e) in
        let small : n ≤ size = omega (arith, length-zeros size, few) in
        rw (← whole) (rw count (small, same))
  ]

  -- When `read_file_at` succeeds, the file at the path has contents, and the data are at most
  -- `size` bytes of them, those that follow the offset, in order.
  pub read_file_at-Extract :
      (path : Text) (offset size : ℕ) (w : World) (got : List ℕ)
      → read_file_at disk path offset size w ≡ ok got
      → (bytes : List ℕ) × (disk.contents path w ≡ some bytes) × Extract offset size bytes got
  unfolding read_file_at opened
  read_file_at-Extract path offset size w got e = elim (Result-cases (disk.open_file path w)) [
    | inr (x, f) ↦ absurd (err_ne_ok (rw f at e))
    | inl (h, f) ↦ elim (Result-cases (disk.seek offset h)) [
      | inr (x, g) ↦ absurd (err_ne_ok (rw (f, g) at e))
      | inl (h', g) ↦
          let (at_offset, same) = laws.seek_ok offset h h' g in
          let (few, cut) = sought-Extract size h' got (rw (f, g) at e) in
          (disk.whole h, laws.open_ok path w h f, (few, rw (← at_offset, ← same) cut))
    ]
  ]
