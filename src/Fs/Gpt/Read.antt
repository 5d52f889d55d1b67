-- ===== src/Fs/Gpt/Read.antt =====
-- Reads within a partition.
use velox_os.Prelude.{
  ℕ, ◌+◌, ◌-◌, ◌^◌, ◌≤◌, ◌<◌, ◌≡◌, refl, sym, false, Option, some, get_or, ltb, leb, arith,
}
use velox_os.Prelude.Words.{u64}
use velox_os.Fs.Vfs.{pos, Bytes}
use velox_os.Fs.Gpt.{Extent, Gpt, no_partition, gpt_read_partition_sectors}

-- The partition at an index.
abbrev pub extent : Gpt → ℕ → Extent
extent g i = (get_or g.partitions i no_partition).extent

-- A partition of sectors whose numbers are words, the end not before the start.
pub record IsExtent (x : Extent) : Type 0 where
  pub ordered : x.start_lba ≤ x.end_lba
  pub word : x.end_lba + 1 < 2 ^ 64
  pub sized : x.num_sectors ≡ u64 (x.end_lba - x.start_lba + 1)

module _ (read : ℕ → ℕ → Option Bytes) (i relative_lba count : ℕ) (g : Gpt)
    (v : IsExtent (extent g i)) where
  -- A read whose relative end is a word returns something only if the partition exists and the
  -- sectors all lie between the partition's first and last; and then it is the driver's answer for
  -- exactly those.
  pub gpt_read-inside :
      {bytes : Bytes}
      → relative_lba + count < 2 ^ 64
      → gpt_read_partition_sectors read (pos i) relative_lba count g ≡ some bytes
      → (i < g.partition_count)
        × ((extent g i).start_lba + relative_lba + count ≤ (extent g i).end_lba + 1)
        × (read ((extent g i).start_lba + relative_lba) count ≡ some bytes)
  unfolding gpt_read_partition_sectors
  gpt_read-inside l h =
      let in_range : leb g.partition_count i ≡ false = ground arith in
      let fits : ltb (extent g i).num_sectors (u64 (relative_lba + count)) ≡ false = ground arith in
      let small : relative_lba + count ≤ (extent g i).num_sectors = ground arith in
      let last : (extent g i).start_lba + relative_lba + count ≤ (extent g i).end_lba + 1 =
        omega (arith, v.ordered, v.word, v.sized, small) in
      let same : u64 ((extent g i).start_lba + relative_lba)
          ≡ (extent g i).start_lba + relative_lba =
        omega (arith, v.ordered, v.word, v.sized, small) in
      (ground arith, last, rw (sym same) (rw (in_range, fits) at h))

  -- The test wraps: a relative sector close below 2^64 with a count that takes the sum past it
  -- reads the sectors before the partition's first one.
  pub gpt_read-before_start :
      (back : ℕ)
      → i < g.partition_count
      → 0 < back
      → back ≤ (extent g i).start_lba
      → relative_lba ≡ 2 ^ 64 - back
      → back ≤ count
      → count ≤ back + (extent g i).num_sectors
      → count < 2 ^ 32
      → gpt_read_partition_sectors read (pos i) relative_lba count g
        ≡ read ((extent g i).start_lba - back) count
  unfolding gpt_read_partition_sectors
  gpt_read-before_start back k p s r c m w =
      let in_range : leb g.partition_count i ≡ false = ground arith in
      let fits : ltb (extent g i).num_sectors (u64 (relative_lba + count)) ≡ false = ground arith in
      let first : u64 ((extent g i).start_lba + relative_lba) ≡ (extent g i).start_lba - back =
        omega (arith, v.ordered, v.word) in
      rw (in_range, fits, first) refl
