-- ===== src/Fs/Gpt.antt =====
-- The partition table, fs/partition/gpt.c and gpt.h.
--
-- `read lba count` is the driver's virtio_blk_read: the bytes of the sectors, or `none` when it
-- fails. A run that reads past the 16 KiB of entries or writes past the 128 partitions is `none`.
pub mod Init
pub mod Table
pub mod Read
use velox_os.Prelude.{
  ℕ, zero, suc, ◌+◌, ◌-◌, ◌*◌, ◌%◌, ◌^◌, Bool, true, false, not, ◌&&◌, ◌||◌, Option, none, some,
  List, [], ◌∷◌, get_or, set, replicate, ltb, leb, ◌==◌, if◌then◌else◌,
}
use velox_os.Prelude.Words.{u64, sub_u64}
use velox_os.Fs.Vfs.{ℤ, pos, negsuc, Bytes}

abbrev pub sector_bytes : ℕ
sector_bytes = 512

-- `buf[512 * 32]` and `partitions[128]`
abbrev pub entries_bytes : ℕ
entries_bytes = 16384

abbrev pub max_partitions : ℕ
max_partitions = 128

-- The bytes of a `gpt_entry_t`.
abbrev pub entry_bytes : ℕ
entry_bytes = 128

-- The little-endian number in `n` bytes at an offset.
unfoldable pub le_at : (n : ℕ) → Bytes → (offset : ℕ) → ℕ
le_at zero buf offset = 0
le_at (suc n) buf offset = get_or buf offset 0 + 256 * le_at n buf (offset + 1)

unfoldable pub bytes_at : (n : ℕ) → Bytes → (offset : ℕ) → Bytes
bytes_at zero buf offset = []
bytes_at (suc n) buf offset = get_or buf offset 0 ∷ bytes_at n buf (offset + 1)

-- `gpt_header_t`, as far as the code reads it.
pub record Header : Type 0 where
  pub signature : Bytes
  pub num_partition_entries : ℕ
  pub partition_entry_size : ℕ

-- `gpt_partition_t` without its name.
pub record Extent : Type 0 where
  pub type_guid : Bytes
  pub unique_guid : Bytes
  pub start_lba : ℕ
  pub end_lba : ℕ
  pub num_sectors : ℕ
  pub attributes : ℕ

pub record Partition : Type 0 where
  pub extent : Extent
  pub name : Bytes

-- `gpt_hdr`, `partitions` and `partition_count`.
pub record Gpt : Type 0 where
  pub header : Header
  pub partitions : List Partition
  pub partition_count : ℕ

unfoldable pub header_at : Bytes → Header
unfolding le_at bytes_at
header_at sector = record {
  signature = bytes_at 8 sector 0;
  num_partition_entries = le_at 4 sector 80;
  partition_entry_size = le_at 4 sector 84;
}

-- `memcmp(signature, "EFI PART", 8) == 0`
unfoldable pub has_signature : Bytes → Bool
has_signature s =
    (get_or s 0 0 == b'E')
    && (get_or s 1 0 == b'F')
    && (get_or s 2 0 == b'I')
    && (get_or s 3 0 == b' ')
    && (get_or s 4 0 == b'P')
    && (get_or s 5 0 == b'A')
    && (get_or s 6 0 == b'R')
    && (get_or s 7 0 == b'T')

-- The loop of guid_to_utf8, from the character `i` on. `units` is the offset of the name, which is
-- 36 units long; the loop stops only at a zero or at `max_chars`.
unfoldable pub name_loop : (rounds i : ℕ) → Bytes → (units : ℕ) → Bytes → Option Bytes
name_loop zero i buf units out = some out
name_loop (suc rounds) i buf units out =
    let c = le_at 2 buf (units + 2 * i) in
    let later = name_loop rounds (i + 1) buf units (set out i (if ltb c 0x80 then c else b'?')) in
    if ltb entries_bytes (units + 2 * i + 2) then none else if c == 0 then some out else later

abbrev pub ended : Option Bytes → (max_chars : ℕ) → Option Bytes
ended none max_chars = none
ended (some out) max_chars = some (set out (max_chars - 1) 0)

unfoldable pub guid_to_utf8 : Bytes → (units : ℕ) → Bytes → (max_chars : ℕ) → Option Bytes
unfolding name_loop le_at
guid_to_utf8 buf units out max_chars = ended (name_loop (max_chars - 1) 0 buf units out) max_chars

-- The scan of `type_guid`.
unfoldable pub is_empty : (n : ℕ) → Bytes → (offset : ℕ) → Bool
is_empty zero buf offset = true
is_empty (suc n) buf offset = (get_or buf offset 0 == 0) && is_empty n buf (offset + 1)

-- What is copied from the entry at an offset.
unfoldable pub extent_at : Bytes → (offset : ℕ) → Extent
unfolding le_at bytes_at
extent_at buf offset = record {
  type_guid = bytes_at 16 buf offset;
  unique_guid = bytes_at 16 buf (offset + 16);
  start_lba = le_at 8 buf (offset + 32);
  end_lba = le_at 8 buf (offset + 40);
  num_sectors = u64 (sub_u64 (le_at 8 buf (offset + 40)) (le_at 8 buf (offset + 32)) + 1);
  attributes = le_at 8 buf (offset + 48);
}

abbrev pub no_extent : Extent
no_extent = record {
  type_guid = [];
  unique_guid = [];
  start_lba = 0;
  end_lba = 0;
  num_sectors = 0;
  attributes = 0;
}

abbrev pub no_partition : Partition
no_partition = record { extent = no_extent; name = replicate 72 0 }

-- The partition of the entry, once its name is read into the old one's bytes.
unfoldable pub add_named : Bytes → (offset : ℕ) → Gpt → Option Bytes → Option Gpt
add_named buf offset g none = none
add_named buf offset g (some name) =
    let p : Partition = record { extent = extent_at buf offset; name = name } in
    some (record g {
      partitions = set g.partitions g.partition_count p;
      partition_count = g.partition_count + 1;
    })

-- One round for the entry at `offset`.
unfoldable pub add_entry : Bytes → (offset : ℕ) → Gpt → Option Gpt
unfolding add_named is_empty
add_entry buf offset g =
    let old = get_or g.partitions g.partition_count no_partition in
    if ltb entries_bytes (offset + entry_bytes)
    then none
    else if is_empty 16 buf offset
    then some g
    else if leb max_partitions g.partition_count
    then none
    else add_named buf offset g (guid_to_utf8 buf (offset + 56) old.name 72)

abbrev pub and_then : Option Gpt → (Gpt → Option Gpt) → Option Gpt
and_then none f = none
and_then (some g) f = f g

-- The loop over the entries from `i` on; `i * esize` is a product of `uint32_t`s.
unfoldable pub entries_loop : (rounds i : ℕ) → (esize : ℕ) → Bytes → Gpt → Option Gpt
unfolding add_entry
entries_loop zero i esize buf g = some g
entries_loop (suc rounds) i esize buf g =
    and_then (add_entry buf ((i * esize) % 2 ^ 32) g) (entries_loop rounds (i + 1) esize buf)

abbrev pub found_entries : Option Gpt → Option (Bool × Gpt)
found_entries none = none
found_entries (some g) = some (true, g)

-- gpt_init behind the second read.
unfoldable pub with_entries : Option Bytes → Gpt → Option (Bool × Gpt)
unfolding entries_loop
with_entries none g = some (false, g)
with_entries (some buf) g = found_entries (
    entries_loop g.header.num_partition_entries 0 g.header.partition_entry_size buf
      (record g { partition_count = 0 }))

-- gpt_init behind the first read.
unfoldable pub on_header : (ℕ → ℕ → Option Bytes) → Option Bytes → Gpt → Option (Bool × Gpt)
unfolding with_entries header_at has_signature
on_header read none g = some (false, g)
on_header read (some sector) g =
    let g' : Gpt = record g { header = header_at sector } in
    if not (has_signature g'.header.signature)
    then some (false, g')
    else with_entries (read 2 32) g'

unfoldable pub gpt_init : (ℕ → ℕ → Option Bytes) → Gpt → Option (Bool × Gpt)
unfolding on_header
gpt_init read g = on_header read (read 1 1) g

unfoldable pub gpt_get_partition : (index : ℤ) → Gpt → Option Partition
gpt_get_partition (negsuc i) g = none
gpt_get_partition (pos i) g =
    if leb g.partition_count i then none else some (get_or g.partitions i no_partition)

-- `none` is false: nothing was read.
unfoldable pub gpt_read_partition_sectors :
    (ℕ → ℕ → Option Bytes) → (index : ℤ) → (relative_lba count : ℕ) → Gpt → Option Bytes
gpt_read_partition_sectors read (negsuc i) relative_lba count g = none
gpt_read_partition_sectors read (pos i) relative_lba count g =
    let p = (get_or g.partitions i no_partition).extent in
    if leb g.partition_count i
    then none
    else if ltb p.num_sectors (u64 (relative_lba + count))
    then none
    else read (u64 (p.start_lba + relative_lba)) count
