-- ===== src/Tests/Gpt.antt =====
-- A disk with one partition, from sector 40 to sector 99.
use velox_os.Prelude.{
  map, ℕ, ◌+◌, ◌-◌, ◌^◌, ◌≤◌, ◌<◌, ◌≡◌, refl, Option, some, [], ◌∷◌, ◌++◌, replicate, ◌==◌,
  if◌then◌else◌, arith,
}
use velox_os.Fs.Vfs.{pos, Bytes}
use velox_os.Fs.Gpt.{Extent, Gpt, Partition, no_partition, gpt_read_partition_sectors}
use velox_os.Fs.Gpt.Read.{IsExtent, extent, gpt_read-inside, gpt_read-before_start}
use velox_os.Fs.Gpt.Init.{little, listed_entries}

abbrev header_sector : Bytes
header_sector =
    b'E'
    ∷ b'F'
    ∷ b'I'
    ∷ b' '
    ∷ b'P'
    ∷ b'A'
    ∷ b'R'
    ∷ b'T'
    ∷ (replicate 72 0 ++ (1 ∷ 0 ∷ 0 ∷ 0 ∷ 128 ∷ 0 ∷ 0 ∷ 0 ∷ []))

-- One entry.
abbrev entries : Bytes
entries = 7 ∷ (replicate 31 0 ++ (40 ∷ 0 ∷ 0 ∷ 0 ∷ 0 ∷ 0 ∷ 0 ∷ 0 ∷ 99 ∷ replicate 87 0))

abbrev read : ℕ → ℕ → Option Bytes
read lba count =
    if lba == 1
    then some header_sector
    else if lba == 2
    then some entries
    else some (lba ∷ count ∷ [])

abbrev empty_table : Gpt
empty_table = record {
  header = record { signature = []; num_partition_entries = 0; partition_entry_size = 0 };
  partitions = replicate 128 no_partition;
  partition_count = 0;
}

-- The partition of that entry has 60 sectors.
sixty : map (λ (x : Extent). x.num_sectors) (listed_entries 1 0 128 entries) ≡ 60 ∷ []
unfolding little
sixty = refl

abbrev partition : Partition
partition = record {
  extent = record {
    type_guid = [];
    unique_guid = [];
    start_lba = 40;
    end_lba = 99;
    num_sectors = 60;
    attributes = 0;
  };
  name = [];
}

abbrev table : Gpt
table = record empty_table { partitions = partition ∷ []; partition_count = 1 }

partition-IsExtent : IsExtent (extent table 0)
partition-IsExtent = record { ordered = omega arith; word = omega arith; sized = refl }

read_inside_example : (0 < 1) × (40 + 58 + 2 ≤ 99 + 1) × (read (40 + 58) 2 ≡ some (98 ∷ 2 ∷ []))
unfolding gpt_read_partition_sectors
read_inside_example = gpt_read-inside read 0 58 2 table partition-IsExtent (omega arith) refl

-- Two sectors below 2^64 with a count of four: sector 38, in front of the partition.
read_before_example : gpt_read_partition_sectors read (pos 0) (2 ^ 64 - 2) 4 table ≡ read 38 4
read_before_example =
    gpt_read-before_start read 0 (2 ^ 64 - 2) 4 table partition-IsExtent 2 (omega arith)
      (omega arith) (omega arith) refl (omega arith) (omega arith) (omega arith)
