-- ===== src/Mm/Paging/Boot.antt =====
-- What `paging_init` of mm/paging.c maps: the tables that the kernel makes for itself at boot. `none` is a
-- panic. Loading CR3 with the new root has no part in the state, and log lines are left out.
pub mod Start
pub mod Reclaim
use velox_os.Prelude.{
  ℕ, zero, suc, ◌+◌, ◌-◌, ◌*◌, ◌/◌, ◌^◌, Bool, true, false, not, ◌&&◌, ◌||◌, Option, none, some,
  bit_and, bit_or, ltb, leb, ◌==◌, if◌then◌else◌, List, [], ◌∷◌,
}
use velox_os.Prelude.Words.{u64, sub_u64, u64_max, align_up, align_down}
use velox_os.Mm.Pmm.{Pmm, pmm_free_page_phys}
use velox_os.Mm.PmmInit.{MemoryMapEntry, MemoryMapType, entry_end, bootloader_reclaimable}
use velox_os.Mm.Paging.{
  Tables, Paging, PagingInfo, M, pure, panic, ◌>>=◌, page_present, page_ps, page_writable,
  page_global, entry_addr_mask_4k, entry_addr_mask_2m, page_size_4k, page_size_2m, has, pml4_index,
  pdpt_index, pd_index, pt_index, write, alloc_table_page, get_or_create_table, translate_with_cr3,
}

-- What the linker script, the boot loader and the processor give.
pub record BootState : Type 0 where
  pub kernel_virtual_start : ℕ
  pub kernel_virtual_end : ℕ
  pub hhdm_offset : ℕ
  pub cr3 : ℕ
  pub rsp : ℕ
  pub framebuffer_address : ℕ
  pub framebuffer_pitch : ℕ
  pub framebuffer_height : ℕ

abbrev pub stack_protect_window_bytes : ℕ
stack_protect_window_bytes = 65536

-- The table below an entry, as both map functions ask for it.
abbrev pub kernel_table : (parent index : ℕ) → M ℕ
kernel_table parent index = get_or_create_table parent index false

unfoldable pub map_page_2m : (root_pml4_phys virt_addr phys_addr flags : ℕ) → M (Unit {0})
unfolding get_or_create_table
map_page_2m root_pml4_phys virt_addr phys_addr flags s =
    if not (bit_and (bit_or virt_addr phys_addr) (page_size_2m - 1) == 0)
    then none
    else ((do
      pdpt_phys ← kernel_table root_pml4_phys (pml4_index virt_addr)
      pd_phys ← kernel_table pdpt_phys (pdpt_index virt_addr)
      λ s'. some (
        tt,
        write pd_phys (pd_index virt_addr)
            (bit_or (bit_or (bit_or (bit_and phys_addr entry_addr_mask_2m) flags) page_present)
              page_ps)
            s',
      ))
        s)

-- The part of `map_page_4k` from the page directory on.
unfoldable pub map_in_pd : (pd_phys virt_addr phys_addr flags : ℕ) → M (Unit {0})
unfolding get_or_create_table has
map_in_pd pd_phys virt_addr phys_addr flags s =
    let pd_entry = s.tables pd_phys (pd_index virt_addr) in
    if has pd_entry page_present && has pd_entry page_ps
    then none
    else ((do
      pt_phys ← kernel_table pd_phys (pd_index virt_addr)
      λ s'. some (
        tt,
        write pt_phys (pt_index virt_addr)
            (bit_or (bit_or (bit_and phys_addr entry_addr_mask_4k) flags) page_present) s',
      ))
        s)

unfoldable pub map_page_4k : (root_pml4_phys virt_addr phys_addr flags : ℕ) → M (Unit {0})
unfolding get_or_create_table map_in_pd
map_page_4k root_pml4_phys virt_addr phys_addr flags s =
    if not (bit_and (bit_or virt_addr phys_addr) (page_size_4k - 1) == 0)
    then none
    else ((do
      pdpt_phys ← kernel_table root_pml4_phys (pml4_index virt_addr)
      pd_phys ← kernel_table pdpt_phys (pdpt_index virt_addr)
      map_in_pd pd_phys virt_addr phys_addr flags)
        s)

-- With what `translate_with_cr3` gives: whether a page was mapped.
unfoldable pub ensure_unless : Option ℕ → (root_pml4_phys virt_addr phys_addr flags : ℕ) → M Bool
unfolding map_page_4k
ensure_unless (some mapped_phys) root_pml4_phys virt_addr phys_addr flags s =
    if align_down mapped_phys page_size_4k == align_down phys_addr page_size_4k
    then some (false, s)
    else none
ensure_unless none root_pml4_phys virt_addr phys_addr flags s =
    (do _ ← map_page_4k root_pml4_phys virt_addr phys_addr flags; pure true) s

unfoldable pub ensure_page_mapping : (root_pml4_phys virt_addr phys_addr flags : ℕ) → M Bool
unfolding ensure_unless translate_with_cr3
ensure_page_mapping root_pml4_phys virt_addr phys_addr flags s =
    ensure_unless (translate_with_cr3 s.tables root_pml4_phys virt_addr) root_pml4_phys virt_addr
      phys_addr flags s

-- `translate_with_cr3(old_cr3_phys, …)`, which must not fail.
unfoldable pub translate_old : (old_cr3_phys virt_addr : ℕ) → M ℕ
unfolding translate_with_cr3
translate_old old_cr3_phys virt_addr s = elim (translate_with_cr3 s.tables old_cr3_phys virt_addr) [
  | none ↦ none
  | some phys ↦ some (phys, s)
]

abbrev pub kernel_flags : ℕ
kernel_flags = bit_or page_writable page_global

-- The loop of `map_kernel_range_from_old_cr3` from a page on.
unfoldable pub kernel_loop : (rounds page new_pml4_phys old_cr3_phys start : ℕ) → M (Unit {0})
unfolding translate_old map_page_4k
kernel_loop zero page new_pml4_phys old_cr3_phys start s = some (tt, s)
kernel_loop (suc rounds) page new_pml4_phys old_cr3_phys start s =
    (do
      phys ← translate_old old_cr3_phys (u64 (start + page * page_size_4k))
      _ ←
          map_page_4k new_pml4_phys (u64 (start + page * page_size_4k))
            (align_down phys page_size_4k) kernel_flags
      kernel_loop rounds (page + 1) new_pml4_phys old_cr3_phys start)
      s

unfoldable pub map_kernel_range_from_old_cr3 : BootState → (new_pml4_phys old_cr3_phys : ℕ) → M ℕ
unfolding kernel_loop
map_kernel_range_from_old_cr3 b new_pml4_phys old_cr3_phys s =
    let virt_size = sub_u64 b.kernel_virtual_end b.kernel_virtual_start in
    let page_count = align_up virt_size page_size_4k / page_size_4k in
    if leb b.kernel_virtual_end b.kernel_virtual_start
    then none
    else ((do
      _ ← kernel_loop page_count 0 new_pml4_phys old_cr3_phys b.kernel_virtual_start
      pure page_count)
        s)

abbrev pub count_2m : M (Unit {0})
count_2m s = some (
  tt,
  record s {
    info = record (s.info) { mapped_hhdm_2m_pages = u64 (s.info.mapped_hhdm_2m_pages + 1) };
  },
)

abbrev pub count_4k : M (Unit {0})
count_4k s = some (
  tt,
  record s {
    info = record (s.info) { mapped_hhdm_4k_pages = u64 (s.info.mapped_hhdm_4k_pages + 1) };
  },
)

-- The rounds of a loop from `start` below `end`.
abbrev pub rounds_to : (start end step : ℕ) → ℕ
rounds_to start end step = (end - start + (step - 1)) / step

-- The two loops of `map_hhdm_range`; the sum that wraps is a panic.
unfoldable pub hhdm_loop_2m : (rounds phys hhdm_offset new_pml4_phys : ℕ) → M (Unit {0})
unfolding map_page_2m
hhdm_loop_2m zero phys hhdm_offset new_pml4_phys s = some (tt, s)
hhdm_loop_2m (suc rounds) phys hhdm_offset new_pml4_phys s =
    let virt = u64 (hhdm_offset + phys) in
    let mapped =
      (do
        _ ← map_page_2m new_pml4_phys virt phys kernel_flags
        _ ← count_2m
        hhdm_loop_2m rounds (phys + page_size_2m) hhdm_offset new_pml4_phys)
        s in
    if ltb virt hhdm_offset then none else mapped

unfoldable pub hhdm_loop_4k : (rounds phys hhdm_offset new_pml4_phys : ℕ) → M (Unit {0})
unfolding map_page_4k
hhdm_loop_4k zero phys hhdm_offset new_pml4_phys s = some (tt, s)
hhdm_loop_4k (suc rounds) phys hhdm_offset new_pml4_phys s =
    let virt = u64 (hhdm_offset + phys) in
    let mapped =
      (do
        _ ← map_page_4k new_pml4_phys virt phys kernel_flags
        _ ← count_4k
        hhdm_loop_4k rounds (phys + page_size_4k) hhdm_offset new_pml4_phys)
        s in
    if ltb virt hhdm_offset then none else mapped

unfoldable pub map_hhdm_range : (hhdm_offset new_pml4_phys hhdm_span_bytes : ℕ) → M (Unit {0})
unfolding hhdm_loop_2m hhdm_loop_4k
map_hhdm_range hhdm_offset new_pml4_phys hhdm_span_bytes s =
    let use_2m = bit_and hhdm_offset (page_size_2m - 1) == 0 in
    let two_mib_limit = if use_2m then align_down hhdm_span_bytes page_size_2m else 0 in
    (do
      _ ← hhdm_loop_2m (rounds_to 0 two_mib_limit page_size_2m) 0 hhdm_offset new_pml4_phys
      hhdm_loop_4k (rounds_to two_mib_limit hhdm_span_bytes page_size_4k) two_mib_limit hhdm_offset
          new_pml4_phys)
      s

-- The loop of `map_range_from_old_cr3`; the result is the number of pages mapped.
unfoldable pub range_loop : (rounds virt mapped new_pml4_phys old_cr3_phys : ℕ) → M ℕ
unfolding translate_old ensure_page_mapping
range_loop zero virt mapped new_pml4_phys old_cr3_phys s = some (mapped, s)
range_loop (suc rounds) virt mapped new_pml4_phys old_cr3_phys s =
    (do
      phys ← translate_old old_cr3_phys virt
      fresh ← ensure_page_mapping new_pml4_phys virt (align_down phys page_size_4k) kernel_flags
      range_loop rounds (virt + page_size_4k) (if fresh then mapped + 1 else mapped) new_pml4_phys
          old_cr3_phys)
      s

unfoldable pub map_range_from_old_cr3 : (new_pml4_phys old_cr3_phys virt_start virt_end : ℕ) → M ℕ
unfolding range_loop
map_range_from_old_cr3 new_pml4_phys old_cr3_phys virt_start virt_end =
    let page_start = align_down virt_start page_size_4k in
    let page_end = align_up virt_end page_size_4k in
    range_loop (rounds_to page_start page_end page_size_4k) page_start 0 new_pml4_phys old_cr3_phys
