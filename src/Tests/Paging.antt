-- ===== src/Tests/Paging.antt =====
-- mm/paging.c with 16 pages of memory: page 1 is the root of empty tables, pages 2 to 15 are free.
use velox_os.Prelude.{
  ℕ, suc, zero, ◌+◌, ◌/◌, ◌%◌, ◌≡◌, refl, Bool, true, List, [], ◌∷◌, Option, some, none, arith,
}
use velox_os.Mm.Bitmap.{bit_test, bit_set}
use velox_os.Mm.Pmm.{Pmm, pmm_try_alloc_page_phys, mark_page_used}
use velox_os.Mm.Pmm.Marks.{IsValid, count_clear}
use velox_os.Mm.PmmInit.{MemoryMapEntry, entry_end, bootloader_reclaimable, usable}
use velox_os.Mm.Paging.{Paging}
use velox_os.Mm.Paging.Pages.{
  paging_translate, paging_map_page, paging_map_range, paging_unmap_page, paging_protect_page,
}
use velox_os.Mm.Paging.Tree.{table_at, below, child-zero, huge_zero}
use velox_os.Mm.Paging.Steps.{IsTree}
use velox_os.Mm.Paging.Steps.Leaf.{small_page}
use velox_os.Mm.Paging.Map.{IsPage, MapSpec, paging_map_page-MapSpec}
use velox_os.Mm.Paging.MapRange.{RangeSpec, paging_map_range-RangeSpec}
use velox_os.Mm.Paging.Unmap.{
  UnmapSpec, ProtectSpec, paging_unmap_page-UnmapSpec, paging_protect_page-ProtectSpec, unmap-map,
}
use velox_os.Mm.Paging.Boot.Start.{reclaim_bootloader_reclaimable}
use velox_os.Mm.Paging.Boot.Reclaim.{
  IsReclaimed, any_reclaims, reclaim_bootloader_reclaimable-IsReclaimed,
}

abbrev small_pmm : Pmm
small_pmm = record {
  bitmap = 3 ∷ 0 ∷ [];
  info = record {
    total_pages = 16;
    free_pages = 14;
    used_pages = 2;
    bitmap_bytes = 2;
    bitmap_phys_base = 0;
    highest_physical_address = 65536;
  };
  next_search = 0;
  initialized = true;
}

small_pmm-IsValid : IsValid small_pmm
unfolding count_clear bit_test
small_pmm-IsValid = record {
  bytes = (omega arith, (omega arith, tt));
  covers = omega arith;
  small = omega arith;
  free_count = refl;
  all_counted = refl;
}

abbrev pub start : Paging
start = record {
  tables = λ p i. 0;
  pmm = small_pmm;
  initialized = true;
  nx_enabled = true;
  info = record {
    initialized = true;
    root_pml4_phys = 4096;
    table_pages_allocated = 1;
    mapped_kernel_pages = 0;
    mapped_hhdm_2m_pages = 0;
    mapped_hhdm_4k_pages = 0;
    mapped_passthrough_pages = 0;
    reclaimed_bootloader_pages = 0;
  };
}

below-empty : (i : ℕ) (o : Option ℕ) → below start.tables i o ≡ none
unfolding below
below-empty i none = refl
below-empty i (some p) = child-zero

only_root : (d q p : ℕ) → table_at start.tables 4096 d q ≡ some p → (d ≡ 0) × (q ≡ 0) × (p ≡ 4096)
unfolding table_at
only_root zero q p e = (refl, ground arith, ground arith)
only_root (suc d) q p e =
    ground (arith, below-empty (q % 512) (table_at start.tables 4096 d (q / 512)))

start-IsTree : IsTree start 4096
unfolding bit_test
start-IsTree = record {
  valid = small_pmm-IsValid;
  started = refl;
  room = omega arith;
  apart = λ d e q r p d_le e_le a b.
      let (d0, q0, _) = only_root d q p a in
      let (e0, r0, _) = only_root e r p b in (omega arith, omega arith);
  top = λ i present. huge_zero;
  whole = λ k x p j le e lt huge. ground (arith, huge_zero);
  used = λ k x p le e. let (_, _, p0) = only_root k x p e in rw p0 (refl, omega arith, refl);
}

root-IsPage : IsPage 4096
root-IsPage = refl

map_page_example : MapSpec start 4096 8192 40960 1 (paging_map_page 4096 8192 40960 1 start)
map_page_example = paging_map_page-MapSpec start-IsTree root-IsPage 8192 40960 1 (omega arith)

map_range_example :
    RangeSpec start 4096 8192 40960
      ((5000 + 4095) / 4096)
      (paging_map_range 4096 8192 40960 5000 1 start)
map_range_example =
    paging_map_range-RangeSpec start-IsTree root-IsPage 8192 40960 5000 1 (omega arith)
      (omega arith) (omega arith)

-- The state after the map.
abbrev state_of : Option (Bool × Paging) → Paging
state_of none = start
state_of (some (ok, s)) = s

abbrev mapped_state : Paging
mapped_state = state_of (paging_map_page 4096 8192 40960 1 start)

map_succeeds : paging_map_page 4096 8192 40960 1 start ≡ some (true, mapped_state)
unfolding paging_map_page pmm_try_alloc_page_phys bit_test mark_page_used bit_set
map_succeeds = refl

mapped_state-IsTree : IsTree mapped_state 4096
mapped_state-IsTree =
    (rw map_succeeds at
      (paging_map_page-MapSpec start-IsTree root-IsPage 8192 40960 1 (omega arith))).0

unmap_example :
    UnmapSpec
      (small_page mapped_state 4096 8192)
      mapped_state
      4096
      8192
      (paging_unmap_page 4096 8192 mapped_state)
unmap_example = paging_unmap_page-UnmapSpec mapped_state-IsTree root-IsPage 8192

protect_example :
    ProtectSpec
      (small_page mapped_state 4096 8192)
      mapped_state
      4096
      8192
      0
      (paging_protect_page 4096 8192 0 mapped_state)
protect_example = paging_protect_page-ProtectSpec mapped_state-IsTree root-IsPage 8192 0

unmap_map_example :
    (s : Paging) × (paging_unmap_page 4096 8192 mapped_state ≡ some (some 40960, s))
    × ((w : ℕ) → paging_translate 4096 w s ≡ paging_translate 4096 w start)
unmap_map_example = unmap-map start-IsTree root-IsPage 8192 40960 1 (omega arith) map_succeeds

-- Page 1 was left by the boot loader.
abbrev boot_map : List MemoryMapEntry
boot_map =
    record { base = 0; len = 4096; kind = usable }
    ∷ record { base = 4096; len = 8000; kind = bootloader_reclaimable }
    ∷ []

reclaim_example :
    IsReclaimed small_pmm
      (any_reclaims 0 4096 boot_map)
      ((reclaim_bootloader_reclaimable boot_map 0 4096 0 small_pmm).1)
unfolding entry_end
reclaim_example =
    reclaim_bootloader_reclaimable-IsReclaimed 0 4096 0 boot_map
      ((omega arith, omega arith), ((omega arith, omega arith), tt)) small_pmm-IsValid refl
