-- ===== src/Fs/Fat32.antt =====
-- The FAT32 volume, fs/fat32.c and fat32.h: mounting, the allocation table and the clusters.
--
-- The sectors come through the partition table of fs/partition/gpt.c, on the driver's reads
-- `device`. A code such as FAT32_ERR_IO is the VFS_ERR_ one of the same number.
pub mod Names
pub mod Dirs
pub mod Files
pub mod Lookup
pub mod Geometry
use velox_os.Prelude.{
  ℕ, zero, suc, ◌+◌, ◌-◌, ◌*◌, ◌/◌, ◌%◌, ◌^◌, Bool, true, false, not, ◌&&◌, ◌||◌, Option, none,
  some, List, [], ◌∷◌, get_or, ltb, leb, ◌==◌, if◌then◌else◌, bit_and,
}
use velox_os.Prelude.Words.{u64, sub_u64}
use velox_os.Fs.Vfs.{ℤ, Bytes, Env}
use velox_os.Fs.Gpt.{Gpt, le_at, gpt_read_partition_sectors}

-- `fat32_bpb_t`, the fields that the code reads.
pub record Bpb : Type 0 where
  pub bytes_per_sector : ℕ
  pub sectors_per_cluster : ℕ
  pub reserved_sectors : ℕ
  pub num_fats : ℕ
  pub root_entry_count : ℕ
  pub total_sectors_16 : ℕ
  pub fat_size_16 : ℕ
  pub total_sectors_32 : ℕ
  pub fat_size_32 : ℕ
  pub fs_version : ℕ
  pub bpb_root_cluster : ℕ

-- `fat32_vol_t`
pub record Vol : Type 0 where
  pub gpt_partition_index : ℤ
  pub bpb : Bpb
  pub bytes_per_cluster : ℕ
  pub fat_start_lba : ℕ
  pub data_start_lba : ℕ
  pub root_cluster : ℕ
  pub cluster_count : ℕ

abbrev pub fat32_eoc : ℕ
fat32_eoc = 0x0FFFFFF8

abbrev pub fat32_bad : ℕ
fat32_bad = 0x0FFFFFF7

abbrev pub no_bpb : Bpb
no_bpb = record {
  bytes_per_sector = 0;
  sectors_per_cluster = 0;
  reserved_sectors = 0;
  num_fats = 0;
  root_entry_count = 0;
  total_sectors_16 = 0;
  fat_size_16 = 0;
  total_sectors_32 = 0;
  fat_size_32 = 0;
  fs_version = 0;
  bpb_root_cluster = 0;
}

-- The volume as `memset` and the index leave it.
abbrev pub no_vol : ℤ → Vol
no_vol index = record {
  gpt_partition_index = index;
  bpb = no_bpb;
  bytes_per_cluster = 0;
  fat_start_lba = 0;
  data_start_lba = 0;
  root_cluster = 0;
  cluster_count = 0;
}

unfoldable pub bpb_at : Bytes → Bpb
unfolding le_at
bpb_at sector = record {
  bytes_per_sector = le_at 2 sector 11;
  sectors_per_cluster = le_at 1 sector 13;
  reserved_sectors = le_at 2 sector 14;
  num_fats = le_at 1 sector 16;
  root_entry_count = le_at 2 sector 17;
  total_sectors_16 = le_at 2 sector 19;
  fat_size_16 = le_at 2 sector 22;
  total_sectors_32 = le_at 4 sector 32;
  fat_size_32 = le_at 4 sector 36;
  fs_version = le_at 2 sector 42;
  bpb_root_cluster = le_at 4 sector 44;
}

-- `n & (n - 1)`, for an `n` that is not 0, tells that it is no power of two.
abbrev pub no_power : ℕ → Bool
no_power n = not (bit_and n (n - 1) == 0)

-- The tests of `fat32_mount` on a sector, in their order; true is a refusal.
unfoldable pub is_refused : Bytes → Bpb → Bool
is_refused sector b =
    if not (get_or sector 510 0 == 0x55) || not (get_or sector 511 0 == 0xAA)
    then true
    else if not (b.root_entry_count == 0)
        || not (b.fat_size_16 == 0)
        || not (b.total_sectors_16 == 0)
    then true
    else if b.fat_size_32 == 0
    then true
    else if not (b.fs_version == 0)
    then true
    else if ltb b.bytes_per_sector 512 || ltb 4096 b.bytes_per_sector || no_power b.bytes_per_sector
    then true
    else (b.sectors_per_cluster == 0) || no_power b.sectors_per_cluster

abbrev pub total_sectors : Bpb → ℕ
total_sectors b = if b.total_sectors_32 == 0 then b.total_sectors_16 else b.total_sectors_32

-- The derived fields.
unfoldable pub geometry : ℤ → Bpb → Vol
geometry index b =
    let data_start = u64 (b.reserved_sectors + b.num_fats * b.fat_size_32) in
    record {
      gpt_partition_index = index;
      bpb = b;
      bytes_per_cluster = (b.bytes_per_sector * b.sectors_per_cluster) % 2 ^ 32;
      fat_start_lba = b.reserved_sectors;
      data_start_lba = data_start;
      root_cluster = b.bpb_root_cluster;
      cluster_count = (sub_u64 (total_sectors b) data_start / b.sectors_per_cluster) % 2 ^ 32;
    }

-- `fat32_mount` behind the read of the boot sector.
unfoldable pub mount_sector : ℤ → Option Bytes → Bool × Vol
unfolding bpb_at is_refused geometry
mount_sector index none = (false, no_vol index)
mount_sector index (some sector) =
    if is_refused sector (bpb_at sector)
    then (false, record (no_vol index) { bpb = bpb_at sector })
    else (true, geometry index (bpb_at sector))

-- `vol->data_start_lba + (uint64_t)(cluster - 2) * sectors_per_cluster`
unfoldable pub cluster_to_lba : Vol → (cluster : ℕ) → ℕ
cluster_to_lba vol cluster =
    u64 (vol.data_start_lba + ((cluster + 2 ^ 32 - 2) % 2 ^ 32) * vol.bpb.sectors_per_cluster)

module _ (device : ℕ → ℕ → Option Bytes) (g : Gpt) where
  unfoldable pub fat32_mount : (gpt_index : ℤ) → Bool × Vol
  unfolding mount_sector
  fat32_mount gpt_index = mount_sector gpt_index (gpt_read_partition_sectors device gpt_index 0 1 g)

  unfoldable pub read_sectors : Vol → (relative_lba count : ℕ) → Option Bytes
  read_sectors vol relative_lba count =
      gpt_read_partition_sectors device vol.gpt_partition_index relative_lba count g

  -- The entry at an offset of the sector that was read, without its upper four bits.
  abbrev pub entry_in : Option Bytes → (byte_offset : ℕ) → ℕ
  entry_in none byte_offset = fat32_bad
  entry_in (some sector) byte_offset = bit_and (le_at 4 sector byte_offset) 0x0FFFFFFF

  unfoldable pub fat32_read_fat_entry : Vol → (cluster : ℕ) → ℕ
  unfolding le_at read_sectors
  fat32_read_fat_entry vol cluster =
      let entries_per_sector = vol.bpb.bytes_per_sector / 4 in
      let fat_sector = u64 (vol.fat_start_lba + cluster / entries_per_sector) in
      let byte_offset = (cluster % entries_per_sector) * 4 in
      if ltb 512 vol.bpb.bytes_per_sector
      then fat32_bad
      else entry_in (read_sectors vol fat_sector 1) byte_offset

  unfoldable pub fat32_read_cluster : Vol → (cluster : ℕ) → Option Bytes
  unfolding cluster_to_lba read_sectors
  fat32_read_cluster vol cluster =
      if ltb cluster 2 || ltb ((vol.cluster_count + 1) % 2 ^ 32) cluster
      then none
      else read_sectors vol (cluster_to_lba vol cluster) vol.bpb.sectors_per_cluster

-- A function that allocates the buffer of one cluster first and frees it on each way out.
unfoldable pub with_buffer :
    {A : Type 0} (e : Env) → (size : ℕ) → (no_memory result : A) → e.Heap → A × e.Heap
with_buffer e size no_memory result h =
    let (block, h') = e.kmalloc size h in
    if block == 0 then (no_memory, h') else (result, e.kfree block h')
