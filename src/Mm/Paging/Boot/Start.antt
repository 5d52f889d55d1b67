-- ===== src/Mm/Paging/Boot/Start.antt =====
-- `reclaim_bootloader_reclaimable` and `paging_init` of mm/paging.c.
use velox_os.Prelude.{
  ℕ, zero, suc, ◌+◌, ◌-◌, ◌*◌, ◌/◌, Bool, true, false, not, ◌&&◌, ◌||◌, Option, none, some, bit_and,
  ltb, leb, ◌==◌, if◌then◌else◌, List, [], ◌∷◌,
}
use velox_os.Prelude.Words.{u64, u64_max, align_up, align_down}
use velox_os.Mm.Pmm.{Pmm, pmm_free_page_phys}
use velox_os.Mm.PmmInit.{MemoryMapEntry, MemoryMapType, entry_end, bootloader_reclaimable}
use velox_os.Mm.Paging.{
  PagingInfo, M, ◌>>=◌, entry_addr_mask_4k, page_size_4k, alloc_table_page, translate_with_cr3,
}
use velox_os.Mm.Paging.Boot.{
  stack_protect_window_bytes, translate_old, map_kernel_range_from_old_cr3, rounds_to,
  map_hhdm_range, map_range_from_old_cr3, BootState,
}

abbrev pub is_reclaimable : MemoryMapType → Bool
is_reclaimable bootloader_reclaimable = true
is_reclaimable _ = false

-- The inner loop of `reclaim_bootloader_reclaimable`: the pages given back and counted.
unfoldable pub reclaim_loop : (rounds phys skip_start skip_end reclaimed : ℕ) → Pmm → ℕ × Pmm
unfolding pmm_free_page_phys
reclaim_loop zero phys skip_start skip_end reclaimed s = (reclaimed, s)
reclaim_loop (suc rounds) phys skip_start skip_end reclaimed s =
    let skip = leb skip_start phys && ltb phys skip_end in
    reclaim_loop rounds (phys + page_size_4k) skip_start skip_end
      (if skip then reclaimed else reclaimed + 1) (if skip then s else pmm_free_page_phys phys s)

-- The outer loop's round for one entry.
unfoldable pub reclaim_entry : MemoryMapEntry → (skip_start skip_end reclaimed : ℕ) → Pmm → ℕ × Pmm
unfolding reclaim_loop entry_end
reclaim_entry e skip_start skip_end reclaimed s =
    let start = align_up e.base page_size_4k in
    let end = align_down (entry_end e) page_size_4k in
    if is_reclaimable e.kind
    then reclaim_loop (rounds_to start end page_size_4k) start skip_start skip_end reclaimed s
    else (reclaimed, s)

unfoldable pub reclaim_bootloader_reclaimable :
    List MemoryMapEntry → (skip_start skip_end reclaimed : ℕ) → Pmm → ℕ × Pmm
unfolding reclaim_entry
reclaim_bootloader_reclaimable [] skip_start skip_end reclaimed s = (reclaimed, s)
reclaim_bootloader_reclaimable (e ∷ es) skip_start skip_end reclaimed s =
    let (n, t) = reclaim_entry e skip_start skip_end reclaimed s in
    reclaim_bootloader_reclaimable es skip_start skip_end n t

abbrev pub set_info : (PagingInfo → PagingInfo) → M (Unit {0})
set_info f s = some (tt, record s { info = f s.info })

-- The window around the stack, held at both ends of the words.
abbrev pub stack_window : (rsp : ℕ) → ℕ × ℕ
stack_window rsp =
    let start =
      if ltb stack_protect_window_bytes rsp then rsp - stack_protect_window_bytes else 0 in
    let end = u64 (rsp + stack_protect_window_bytes) in
    (start, if ltb end rsp then u64_max else end)

-- The framebuffer's mapping, as it was before; the result is what `mapped_passthrough_pages` grows by.
unfoldable pub keep_framebuffer : BootState → (new_pml4_phys old_cr3_phys : ℕ) → M ℕ
unfolding map_range_from_old_cr3
keep_framebuffer b new_pml4_phys old_cr3_phys s =
    let fb_base = b.framebuffer_address in
    let fb_end = u64 (fb_base + u64 (b.framebuffer_pitch * b.framebuffer_height)) in
    if fb_base == 0 || (b.framebuffer_pitch == 0 || b.framebuffer_height == 0)
    then some (0, s)
    else if ltb (u64_max / b.framebuffer_height) b.framebuffer_pitch
    then none
    else map_range_from_old_cr3 new_pml4_phys old_cr3_phys fb_base
        (if ltb fb_end fb_base then u64_max else fb_end) s

-- The pages around the stack that are not given back, from the stack's physical address.
unfoldable pub skip_window : Option ℕ → ℕ × ℕ
skip_window none = (0, 0)
skip_window (some stack_phys) =
    let start =
      if ltb stack_protect_window_bytes stack_phys
      then align_down (stack_phys - stack_protect_window_bytes) page_size_4k
      else 0 in
    let end = align_up (u64 (stack_phys + stack_protect_window_bytes)) page_size_4k in
    (start, if ltb end start then u64_max else end)

unfoldable pub reclaim : List MemoryMapEntry → (window : ℕ × ℕ) → M (Unit {0})
unfolding reclaim_bootloader_reclaimable
reclaim entries (skip_start, skip_end) s =
    let (reclaimed, pmm') = reclaim_bootloader_reclaimable entries skip_start skip_end 0 s.pmm in
    some (
      tt,
      record s {
        pmm = pmm';
        initialized = true;
        info = record (s.info) { reclaimed_bootloader_pages = reclaimed; initialized = true };
      },
    )

-- `paging_init` after its checks.
unfoldable pub build_tables : BootState → List MemoryMapEntry → M (Unit {0})
unfolding alloc_table_page map_kernel_range_from_old_cr3 map_hhdm_range map_range_from_old_cr3
    keep_framebuffer skip_window reclaim translate_old
build_tables b entries s =
    let hhdm_span_bytes = align_up s.pmm.info.highest_physical_address page_size_4k in
    let old_cr3_phys = bit_and b.cr3 entry_addr_mask_4k in
    let (window_start, window_end) = stack_window b.rsp in
    (do
      _ ← translate_old old_cr3_phys b.kernel_virtual_start
      new_pml4_phys ← alloc_table_page
      _ ← set_info (λ i. record i { root_pml4_phys = new_pml4_phys })
      kernel_pages ← map_kernel_range_from_old_cr3 b new_pml4_phys old_cr3_phys
      _ ← set_info (λ i. record i { mapped_kernel_pages = kernel_pages })
      _ ← map_hhdm_range b.hhdm_offset new_pml4_phys hhdm_span_bytes
      stack_pages ← map_range_from_old_cr3 new_pml4_phys old_cr3_phys window_start window_end
      _ ← set_info (λ i. record i {
        mapped_passthrough_pages = u64 (i.mapped_passthrough_pages + stack_pages);
      })
      framebuffer_pages ← keep_framebuffer b new_pml4_phys old_cr3_phys
      _ ← set_info (λ i. record i {
        mapped_passthrough_pages = u64 (i.mapped_passthrough_pages + framebuffer_pages);
      })
      λ s'. reclaim entries (skip_window (translate_with_cr3 s'.tables old_cr3_phys b.rsp)) s')
      s

unfoldable pub paging_init : BootState → List MemoryMapEntry → M (Unit {0})
unfolding build_tables
paging_init b [] s = none
paging_init b (e ∷ es) s =
    let highest = s.pmm.info.highest_physical_address in
    if s.initialized
    then some (tt, s)
    else if not s.pmm.initialized || (highest == 0 || highest == u64_max)
    then none
    else build_tables b (e ∷ es) s
