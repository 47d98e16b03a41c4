-- ===== src/Vfs/Filesystem/Attributes.antt =====
-- The attributes that the file system reports of a file.
use uni_cloud_file_sync_thin.Prelude.{
  ℕ, ◌+◌, ◌-◌, ◌*◌, ◌≤◌, ◌<◌, none, some, ltb, ◌≡◌, ◌⊎◌, inl, inr, refl, arith, Bool-cases,
}
use uni_cloud_file_sync_thin.Db.Files.{timestamp}
use uni_cloud_file_sync_thin.Vfs.Cache.{CachedFile}
use uni_cloud_file_sync_thin.Vfs.Filesystem.Replies.{
  FileAttr, div_ceil, attr_at, cached_file_to_attr,
}

div_ceil-blocks :
    (size : ℕ) → (size ≤ 512 * div_ceil size 512) × (512 * div_ceil size 512 < size + 512)
unfolding div_ceil
div_ceil-blocks size = (ground arith, ground arith)

-- A file of a time before the epoch of Unix has no attributes, for the conversion panics. Any other
-- file has: the time is the seconds since then, the size is the file's, and the blocks of 512 bytes
-- that are reported hold the whole file and the last of them is needed; an empty file has none.
pub cached_file_to_attr-blocks :
    (epoch : ℕ) (file : CachedFile) (inode : ℕ)
    → ((timestamp file.modified_time < epoch) × (cached_file_to_attr epoch file inode ≡ none))
      ⊎ ((found : FileAttr) × (cached_file_to_attr epoch file inode ≡ some found)
          × (found.ino ≡ inode)
          × (found.mtime + epoch ≡ timestamp file.modified_time)
          × (found.size ≡ file.size)
          × (file.size ≤ 512 * found.blocks)
          × (512 * found.blocks < file.size + 512))
unfolding cached_file_to_attr attr_at
cached_file_to_attr-blocks epoch file inode =
    elim (Bool-cases (ltb (timestamp file.modified_time) epoch)) [
      | inl early ↦ inl (ground arith, rw early refl)
      | inr late ↦
          let (whole, last) = div_ceil-blocks file.size in
          inr (
            attr_at (timestamp file.modified_time - epoch) file inode,
            rw late refl,
            refl,
            ground arith,
            refl,
            whole,
            last,
          )
    ]
