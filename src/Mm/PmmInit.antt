-- ===== src/Mm/PmmInit.antt =====
-- `pmm_init` of mm/pmm.c: the memory map of boot/boot.h, the place of the bitmap, and the pages that
-- are free when the kernel starts.
pub mod Places
pub mod Fresh
pub mod Marking
pub mod Correct
use velox_os.Prelude.{
  ℕ, zero, suc, ◌+◌, ◌-◌, ◌*◌, ◌/◌, ◌^◌, Bool, true, false, not, ◌&&◌, ◌||◌, Option, none, some,
  List, [], ◌∷◌, bit_and, ltb, leb, ◌==◌, if◌then◌else◌, replicate,
}
use velox_os.Prelude.Words.{u64, sub_u64, u64_max, align_up, align_down}
use velox_os.Mm.Pmm.{Pmm, PmmInfo, pmm_page_size, mark_page_used, mark_range_free, mark_range_used}

-- `MemoryMapType` of boot/boot.h
pub data MemoryMapType : Type 0 where
  usable reserved acpi_reclaimable acpi_nvs bad_memory bootloader_reclaimable : MemoryMapType
  kernel_and_modules framebuffer : MemoryMapType

abbrev pub is_usable : MemoryMapType → Bool
is_usable usable = true
is_usable _ = false

pub record MemoryMapEntry : Type 0 where
  pub base : ℕ
  pub len : ℕ
  pub kind : MemoryMapType

-- `entry->base + entry->length`, held at the greatest word where it wraps
unfoldable pub entry_end : MemoryMapEntry → ℕ
entry_end e = let end = u64 (e.base + e.len) in if ltb end e.base then u64_max else end

max_end_loop : List MemoryMapEntry → ℕ → ℕ
max_end_loop [] max_end = max_end
max_end_loop (e ∷ es) max_end =
    max_end_loop es (if ltb max_end (entry_end e) then entry_end e else max_end)

unfoldable pub max_physical_end : List MemoryMapEntry → ℕ
unfolding max_end_loop entry_end
max_physical_end entries = max_end_loop entries 0

unfoldable pub find_bitmap_region : List MemoryMapEntry → ℕ → Option ℕ
find_bitmap_region [] bitmap_size = none
find_bitmap_region (e ∷ es) bitmap_size =
    let span = align_up bitmap_size pmm_page_size in
    let region_start = align_up e.base pmm_page_size in
    let region_end = align_down (entry_end e) pmm_page_size in
    let rest = find_bitmap_region es bitmap_size in
    if is_usable e.kind && (leb region_start region_end && leb span (region_end - region_start))
    then some region_start
    else rest

-- The messages with which `pmm_init` panics.
pub data InitPanic : Type 0 where
  invalid_memory_map no_physical_pages no_space_for_bitmap accounting_mismatch : InitPanic

pub data InitResult : Type 0 where
  ready : Pmm → InitResult
  panic : InitPanic → InitResult

unfoldable pub free_usable : List MemoryMapEntry → Pmm → Pmm
unfolding entry_end
free_usable [] s = s
free_usable (e ∷ es) s =
    free_usable es (if is_usable e.kind then mark_range_free e.base (entry_end e) s else s)

-- Every bit set, every page used; `g_initialized` is as it was.
abbrev pub fresh : ℕ → ℕ → ℕ → ℕ → Pmm → Pmm
fresh highest total_pages bitmap_bytes bitmap_phys old = record old {
  bitmap = replicate bitmap_bytes 0xFF;
  info = record {
    total_pages = total_pages;
    free_pages = 0;
    used_pages = total_pages;
    bitmap_bytes = bitmap_bytes;
    bitmap_phys_base = bitmap_phys;
    highest_physical_address = highest;
  };
  next_search = 0;
}

-- The part of `pmm_init` between the filling of the bitmap and the check of the counters.
-- `__kernel_physical_start` and `__kernel_physical_end` are symbols of the linker script.
unfoldable pub mark_map : (kernel_start kernel_end : ℕ) → List MemoryMapEntry → Pmm → Pmm
mark_map kernel_start kernel_end entries s =
    let base = s.info.bitmap_phys_base in
    let bitmap_end = u64 (base + align_up s.info.bitmap_bytes pmm_page_size) in
    mark_page_used 0 (
      mark_range_used kernel_start kernel_end
        (mark_range_used base bitmap_end (free_usable entries s)))

-- The end of `pmm_init`.
unfoldable pub check_accounting : Pmm → InitResult
check_accounting s =
    if u64 (s.info.free_pages + s.info.used_pages) == s.info.total_pages
    then ready
        (record s { next_search = if ltb 1 s.info.total_pages then 1 else 0; initialized = true })
    else panic accounting_mismatch

unfoldable pub pmm_init : (kernel_start kernel_end : ℕ) → List MemoryMapEntry → Pmm → InitResult
pmm_init kernel_start kernel_end [] old = panic invalid_memory_map
pmm_init kernel_start kernel_end (e ∷ es) old =
    let highest = max_physical_end (e ∷ es) in
    let total_pages = align_up highest pmm_page_size / pmm_page_size in
    let bitmap_bytes = align_up total_pages 8 / 8 in
    if total_pages == 0
    then panic no_physical_pages
    else elim (find_bitmap_region (e ∷ es) bitmap_bytes) [
      | none ↦ panic no_space_for_bitmap
      | some bitmap_phys ↦ check_accounting (
          mark_map kernel_start kernel_end (e ∷ es)
            (fresh highest total_pages bitmap_bytes bitmap_phys old))
    ]
