-- ===== src/Tests/Fat32.antt =====
-- A volume of 100 sectors on the first partition: one table, clusters of one sector, and a chain
-- of the clusters 2 and 3.
use velox_os.Prelude.{
  ℕ, ◌+◌, ◌≤◌, ◌≡◌, refl, true, Option, some, List, [], ◌∷◌, ◌++◌, length, replicate, get_or, ◌==◌,
  if◌then◌else◌, arith,
}
use velox_os.Fs.Vfs.{pos, Bytes}
use velox_os.Fs.Vfs.Paths.{take, drop}
use velox_os.Fs.Gpt.{Gpt, Partition, gpt_read_partition_sectors}
use velox_os.Fs.Fat32.{Vol, fat32_mount, fat32_read_fat_entry, fat32_read_cluster, cluster_to_lba}
use velox_os.Fs.Fat32.Files.{fat32_read_file_at}
use velox_os.Fs.Fat32.Files.Content.{content, Chain, fat32_read_file_at-content}
use velox_os.Fs.Fat32.Geometry.{fat32_read_cluster-inside}
use velox_os.Fs.Fat32.Names.{Lfn, lfn_units}
use velox_os.Fs.Fat32.Names.Fragments.{push_all, joined, push_all-joined}
use velox_os.Tests.Vfs.{env}

abbrev boot_sector : Bytes
boot_sector =
    replicate 11 0
    ++ (0 ∷ 2 ∷ 1 ∷ 32 ∷ 0 ∷ 1 ∷ [])
    ++ replicate 15 0
    ++ (100 ∷ 0 ∷ 0 ∷ 0 ∷ 1 ∷ 0 ∷ 0 ∷ 0 ∷ 0 ∷ 0 ∷ 0 ∷ 0 ∷ 2 ∷ [])
    ++ replicate 465 0
    ++ (0x55 ∷ 0xAA ∷ [])

abbrev fat_sector : Bytes
fat_sector = replicate 8 0 ++ (3 ∷ 0 ∷ 0 ∷ 0 ∷ 0xF8 ∷ 0xFF ∷ 0xFF ∷ 0x0F ∷ [])

abbrev cluster : ℕ → Bytes
cluster b = replicate 512 b

abbrev pub device : ℕ → ℕ → Option Bytes
device lba count =
    if lba == 0
    then some boot_sector
    else if lba == 32
    then some fat_sector
    else if lba == 33
    then some (cluster b'A')
    else some (cluster b'B')

abbrev whole_disk : Partition
whole_disk = record {
  extent = record {
    type_guid = [];
    unique_guid = [];
    start_lba = 0;
    end_lba = 99;
    num_sectors = 100;
    attributes = 0;
  };
  name = [];
}

abbrev pub table : Gpt
table = record {
  header = record { signature = []; num_partition_entries = 0; partition_entry_size = 0 };
  partitions = whole_disk ∷ [];
  partition_count = 1;
}

abbrev pub vol : Vol
vol = record {
  gpt_partition_index = pos 0;
  bpb = record {
    bytes_per_sector = 512;
    sectors_per_cluster = 1;
    reserved_sectors = 32;
    num_fats = 1;
    root_entry_count = 0;
    total_sectors_16 = 0;
    fat_size_16 = 0;
    total_sectors_32 = 100;
    fat_size_32 = 1;
    fs_version = 0;
    bpb_root_cluster = 2;
  };
  bytes_per_cluster = 512;
  fat_start_lba = 32;
  data_start_lba = 33;
  root_cluster = 2;
  cluster_count = 67;
}

mounted : fat32_mount device table (pos 0) ≡ (true, vol)
unfolding fat32_mount gpt_read_partition_sectors
mounted = refl

second_read : fat32_read_cluster device table vol 3 ≡ some (cluster b'B')
unfolding fat32_read_cluster gpt_read_partition_sectors
second_read = refl

clusters_example :
    (33 ≤ cluster_to_lba vol 3)
    × (cluster_to_lba vol 3 + 1 ≤ 100)
    × (gpt_read_partition_sectors device (pos 0) (cluster_to_lba vol 3) 1 table
        ≡ some (cluster b'B'))
clusters_example =
    fat32_read_cluster-inside device table (pos 0) vol 3 (cluster b'B') mounted
      (record { cluster_byte = omega arith; total_word = omega arith; data_start = omega arith })
      second_read

pub chain : Chain device table vol 2 (cluster b'A' ∷ cluster b'B' ∷ [])
unfolding fat32_read_fat_entry fat32_read_cluster gpt_read_partition_sectors
chain = (
  omega arith,
  omega arith,
  refl,
  refl,
  omega arith,
  (omega arith, omega arith, refl, refl, omega arith),
)

abbrev pub bufs : List Bytes
bufs = cluster b'A' ∷ cluster b'B' ∷ []

read_file_example : (fat32_read_file_at device table env vol 2 700 510 4 1000).0 ≡ (
  pos (length (take 4 (drop 510 (take 700 (content bufs))))),
  take 4 (drop 510 (take 700 (content bufs))),
)
read_file_example =
    fat32_read_file_at-content device table vol env 2 700 510 4 bufs 1000 chain (omega arith)
      (omega arith)

across_clusters : take 4 (drop 510 (take 700 (content bufs))) ≡ b'A' ∷ b'A' ∷ b'B' ∷ b'B' ∷ []
across_clusters = refl

abbrev emptied : Lfn
emptied = record {
  chars = replicate lfn_units 0;
  total = 0;
  expected_seq = 2;
  checksum = 0;
  valid = true;
}

abbrev fragments : List (List ℕ)
fragments = replicate 13 b'y' ∷ replicate 13 b'x' ∷ []

fragments_example :
    (get_or (push_all emptied fragments).chars 13 0 ≡ get_or (joined fragments []) 13 0)
    × ((push_all emptied fragments).total ≡ 26)
    × ((push_all emptied fragments).valid ≡ true)
fragments_example =
    push_all-joined fragments emptied 13 refl refl (refl, (refl, tt)) (omega arith) (omega arith)
