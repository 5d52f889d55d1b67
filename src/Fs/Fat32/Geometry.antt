-- ===== src/Fs/Fat32/Geometry.antt =====
-- Where the clusters of a mounted volume lie.
use mathlib.Core.Path.{subst}
use native.Mathlib.Nat.{le-div_iff_mul-le, div-le_self, add-mul, one-mul}
use velox_os.Prelude.{
  ℕ, ◌+◌, ◌-◌, ◌*◌, ◌/◌, ◌%◌, ◌^◌, ◌≤◌, ◌<◌, ◌≡◌, refl, ap, ◌∙◌, ◌≢◌, inl, inr, Bool, true, false,
  Option, none, some, ◌||◌, ltb, Bool-cases, arith,
}
use velox_os.Prelude.Words.{u64, sub_u64}
use velox_os.Fs.Vfs.{ℤ, Bytes}
use velox_os.Fs.Gpt.{Gpt, gpt_read_partition_sectors}
use velox_os.Fs.Fat32.{
  Bpb, Vol, bpb_at, is_refused, total_sectors, geometry, mount_sector, fat32_mount, cluster_to_lba,
  read_sectors, fat32_read_cluster,
}

-- The fields of the boot sector fit their widths.
pub record IsBpb (b : Bpb) : Type 0 where
  pub cluster_byte : b.sectors_per_cluster < 2 ^ 8
  pub total_word : total_sectors b < 2 ^ 32
  pub data_start : b.reserved_sectors + b.num_fats * b.fat_size_32 ≤ total_sectors b

-- A volume as fat32_mount derives it, with clusters of some sectors.
record IsDerived (vol : Vol) : Type 0 where
  start :
      vol.data_start_lba ≡ u64 (vol.bpb.reserved_sectors + vol.bpb.num_fats * vol.bpb.fat_size_32)
  count :
      vol.cluster_count
      ≡ (sub_u64 (total_sectors vol.bpb) vol.data_start_lba / vol.bpb.sectors_per_cluster) % 2 ^ 32
  some_sectors : vol.bpb.sectors_per_cluster ≢ 0

not_refused : (sector : Bytes) (b : Bpb) → is_refused sector b ≡ false → b.sectors_per_cluster ≢ 0
unfolding is_refused
not_refused sector b h z = ground arith

mount_sector-IsDerived :
    (index : ℤ) (sector : Option Bytes) (vol : Vol)
    → mount_sector index sector ≡ (true, vol)
    → IsDerived vol
unfolding mount_sector geometry is_refused
mount_sector-IsDerived index none vol h = absurd (ground arith)
mount_sector-IsDerived index (some sector) vol h =
    elim (Bool-cases (is_refused sector (bpb_at sector))) [
      | inl e ↦ cc (rw e at h)
      | inr e ↦
          let same : geometry index (bpb_at sector) ≡ vol =
            ap (λ (r : Bool × Vol). r.1) (rw e at h) in
          subst IsDerived same (record {
            start = refl;
            count = refl;
            some_sectors = not_refused sector (bpb_at sector) e;
          })
    ]

below_total :
    (c total start spc count : ℕ)
    → 0 < spc
    → spc < 2 ^ 8
    → start ≤ total
    → total < 2 ^ 32
    → count ≡ (sub_u64 total start / spc) % 2 ^ 32
    → 2 ≤ c
    → c ≤ (count + 1) % 2 ^ 32
    → start + (c - 2) * spc + spc ≤ total
below_total c total start spc count p s l t e low high =
    let d : sub_u64 total start ≡ total - start = omega arith in
    let q : (total - start) / spc < 2 ^ 32 = omega (arith, div-le_self (total - start) spc) in
    let small : (total - start) / spc % 2 ^ 32 ≡ (total - start) / spc = omega (arith, q) in
    let k : count ≡ (total - start) / spc = e ∙ ap (λ t. t / spc % 2 ^ 32) d ∙ small in
    let within : (c - 1) * spc ≤ total - start = (le-div_iff_mul-le p).0 (omega arith) in
    let before : c - 1 ≡ c - 2 + 1 = omega arith in
    let parts : (c - 1) * spc ≡ (c - 2) * spc + spc =
      ap (λ t. t * spc) before
      ∙ add-mul (c - 2) 1 spc
      ∙ ap (λ t. (c - 2) * spc + t) (one-mul spc) in
    omega arith

cluster_word : (c : ℕ) → 2 ≤ c → c < 2 ^ 32 → (c + 2 ^ 32 - 2) % 2 ^ 32 ≡ c - 2
cluster_word c h l = omega arith

fat32_mount-clusters :
    (device : ℕ → ℕ → Option Bytes) (g : Gpt) (index : ℤ) (vol : Vol) (c : ℕ)
    → fat32_mount device g index ≡ (true, vol)
    → IsBpb vol.bpb
    → 2 ≤ c
    → c ≤ (vol.cluster_count + 1) % 2 ^ 32
    → (vol.data_start_lba ≤ cluster_to_lba vol c)
      × (cluster_to_lba vol c + vol.bpb.sectors_per_cluster ≤ total_sectors vol.bpb)
unfolding fat32_mount cluster_to_lba
fat32_mount-clusters device g index vol c h b low high =
    let v = mount_sector-IsDerived index (gpt_read_partition_sectors device index 0 1 g) vol h in
    let start : vol.data_start_lba
        ≡ vol.bpb.reserved_sectors + vol.bpb.num_fats * vol.bpb.fat_size_32 =
      v.start ∙ omega (arith, b.data_start, b.total_word) in
    let bound =
      below_total c (total_sectors vol.bpb) vol.data_start_lba vol.bpb.sectors_per_cluster
        vol.cluster_count (omega (arith, v.some_sectors)) b.cluster_byte
        (omega (arith, start, b.data_start)) b.total_word v.count low high in
    let lba : u64 (vol.data_start_lba + ((c + 2 ^ 32 - 2) % 2 ^ 32) * vol.bpb.sectors_per_cluster)
        ≡ vol.data_start_lba + (c - 2) * vol.bpb.sectors_per_cluster =
      ap (λ t. u64 (vol.data_start_lba + t * vol.bpb.sectors_per_cluster))
        (cluster_word c low (omega arith))
      ∙ omega (arith, bound, b.total_word) in
    rw lba (omega arith, bound)

read_cluster_inside :
    (device : ℕ → ℕ → Option Bytes) (g : Gpt) (vol : Vol) (c : ℕ) (bytes : Bytes)
    → fat32_read_cluster device g vol c ≡ some bytes
    → (2 ≤ c)
      × (c ≤ (vol.cluster_count + 1) % 2 ^ 32)
      × (gpt_read_partition_sectors device vol.gpt_partition_index
            (cluster_to_lba vol c)
            vol.bpb.sectors_per_cluster
            g
          ≡ some bytes)
unfolding fat32_read_cluster read_sectors
read_cluster_inside device g vol c bytes h =
    elim (Bool-cases (ltb c 2 || ltb ((vol.cluster_count + 1) % 2 ^ 32) c)) [
      | inl out ↦ absurd (ground arith)
      | inr inside ↦ (ground arith, ground arith, rw inside at h)
    ]

-- A cluster of a mounted volume that fat32_read_cluster reads lies in the data region, behind the
-- tables, and ends within the sectors of the volume, and its bytes are those sectors of the
-- partition, when the fields of the boot sector fit their widths and the volume is as large as its
-- tables.
pub fat32_read_cluster-inside :
    (device : ℕ → ℕ → Option Bytes) (g : Gpt) (index : ℤ) (vol : Vol) (c : ℕ) (bytes : Bytes)
    → fat32_mount device g index ≡ (true, vol)
    → IsBpb vol.bpb
    → fat32_read_cluster device g vol c ≡ some bytes
    → (vol.data_start_lba ≤ cluster_to_lba vol c)
      × (cluster_to_lba vol c + vol.bpb.sectors_per_cluster ≤ total_sectors vol.bpb)
      × (gpt_read_partition_sectors device vol.gpt_partition_index
            (cluster_to_lba vol c)
            vol.bpb.sectors_per_cluster
            g
          ≡ some bytes)
fat32_read_cluster-inside device g index vol c bytes h b r =
    let (low, high, got) = read_cluster_inside device g vol c bytes r in
    let (behind, within) = fat32_mount-clusters device g index vol c h b low high in
    (behind, within, got)
