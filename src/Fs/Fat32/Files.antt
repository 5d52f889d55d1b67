-- ===== src/Fs/Fat32/Files.antt =====
-- fat32_read_file_at of fs/fat32.c.
pub mod Windows
pub mod Content
use velox_os.Prelude.{
  ℕ, zero, suc, ◌+◌, ◌-◌, Bool, true, false, ◌||◌, Option, none, some, [], ◌++◌, length, ltb, leb,
  ◌==◌, if◌then◌else◌,
}
use velox_os.Fs.Vfs.{ℤ, pos, err_io, err_nomem, Bytes, Env}
use velox_os.Fs.Vfs.Paths.{take, drop}
use velox_os.Fs.Gpt.{Gpt}
use velox_os.Fs.Fat32.{
  Vol, fat32_eoc, fat32_bad, fat32_read_fat_entry, fat32_read_cluster, with_buffer,
}

-- Where the loop over the clusters before the offset ends.
pub data Seek : Type 0 where
  at_cluster : (cluster skip : ℕ) → Seek
  past_end : Seek
  seek_failed : Seek

module _ (device : ℕ → ℕ → Option Bytes) (g : Gpt) where
  -- `while (skip >= cluster_size)`; a round takes `cluster_size` off `skip`, so `rounds` above
  -- `skip` is enough unless that is 0.
  unfoldable pub seek : (rounds : ℕ) → Vol → (cluster skip : ℕ) → Seek
  seek zero vol cluster skip = at_cluster cluster skip
  seek (suc rounds) vol cluster skip =
      let next = fat32_read_fat_entry device g vol cluster in
      let later = seek rounds vol next (skip - vol.bytes_per_cluster) in
      if ltb skip vol.bytes_per_cluster
      then at_cluster cluster skip
      else if next == fat32_bad
      then seek_failed
      else if leb fat32_eoc next
      then past_end
      else later

  -- The end of the copying: the count, and what is in `buf` from its start.
  abbrev pub copied : Bytes → ℤ × Bytes
  copied out = (pos (length out), out)

  -- The rest of a round with the cluster read: `out` is what has been copied, and `onward` the
  -- rounds that follow.
  unfoldable pub copy_chunk :
      (onward : (cluster to_read : ℕ) → Bytes → ℤ × Bytes)
      → Option Bytes
      → Vol
      → (cluster intra to_read : ℕ) → Bytes
      → ℤ × Bytes
  copy_chunk onward none vol cluster intra to_read out = (err_io, out)
  copy_chunk onward (some cluster_buf) vol cluster intra to_read out =
      let avail = vol.bytes_per_cluster - intra in
      let chunk = if ltb to_read avail then to_read else avail in
      let out' = out ++ take chunk (drop intra cluster_buf) in
      let next = fat32_read_fat_entry device g vol cluster in
      if to_read - chunk == 0
      then copied out'
      else if next == fat32_bad
      then (err_io, out')
      else if leb fat32_eoc next
      then copied out'
      else onward next (to_read - chunk) out'

  -- `while (to_read > 0 && …)`; a round copies something, so `to_read` rounds are enough.
  unfoldable pub copy_loop : (rounds : ℕ) → Vol → (cluster intra to_read : ℕ) → Bytes → ℤ × Bytes
  unfolding copy_chunk
  copy_loop zero vol cluster intra to_read out = copied out
  copy_loop (suc rounds) vol cluster intra to_read out =
      let round =
        copy_chunk (λ c n o. copy_loop rounds vol c 0 n o) (fat32_read_cluster device g vol cluster)
          vol cluster intra to_read out in
      if (to_read == 0) || ltb cluster 2 || leb fat32_eoc cluster then copied out else round

  unfoldable pub copy_from : Seek → Vol → (to_read : ℕ) → ℤ × Bytes
  unfolding copy_loop
  copy_from seek_failed vol to_read = (err_io, [])
  copy_from past_end vol to_read = (pos 0, [])
  copy_from (at_cluster cluster skip) vol to_read = copy_loop to_read vol cluster skip to_read []

  -- `vol` and `buf` are not NULL; the bytes come back beside the count. The volume is mounted, so
  -- that `bytes_per_cluster` is not 0.
  unfoldable pub fat32_read_file_at :
      (e : Env) → Vol → (first_cluster file_size offset len : ℕ) → e.Heap → (ℤ × Bytes) × e.Heap
  unfolding seek copy_from with_buffer
  fat32_read_file_at e vol first_cluster file_size offset len h =
      let remaining = file_size - offset in
      let len' = if ltb remaining len then remaining else len in
      let result = copy_from (seek (suc offset) vol first_cluster offset) vol len' in
      if leb file_size offset || (len == 0)
      then ((pos 0, []), h)
      else if ltb first_cluster 2
      then ((err_io, []), h)
      else with_buffer e vol.bytes_per_cluster (err_nomem, []) result h
