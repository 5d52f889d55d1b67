-- ===== src/Mm/Paging/Pages.antt =====
-- mm/paging.c after `paging_init`: translating, mapping, unmapping and protecting pages. A result of
-- an operation is what it returns with the new state; `none` is a panic.
use velox_os.Prelude.{
  ℕ, zero, suc, ◌+◌, ◌-◌, ◌/◌, ◌^◌, Bool, true, false, not, ◌&&◌, ◌||◌, Option, none, some, bit_and,
  bit_or, ltb, ◌==◌, if◌then◌else◌,
}
use velox_os.Prelude.Words.{u64, sub_u64, u64_max, align_up}
use velox_os.Mm.Pmm.{pmm_free_page_phys}
use velox_os.Mm.Paging.{
  Tables, Paging, M, ◌>>=◌, page_present, page_ps, entry_addr_mask_4k, page_size_4k, has,
  pml4_index, pdpt_index, pd_index, write, paging_flags_to_hw, walk_to_pte, translate_with_cr3,
}

unfoldable pub paging_set_nx_enabled : (enabled : Bool) → Paging → Paging
paging_set_nx_enabled enabled s = record s { nx_enabled = enabled }

unfoldable pub paging_translate : (root_pml4_phys virt_addr : ℕ) → Paging → Option ℕ
unfolding translate_with_cr3
paging_translate root_pml4_phys virt_addr s = translate_with_cr3 s.tables root_pml4_phys virt_addr

-- `addr | paging_flags_to_hw(flags) | PAGE_PRESENT`
unfoldable pub page_entry : (nx_enabled : Bool) (addr flags : ℕ) → ℕ
unfolding paging_flags_to_hw
page_entry nx_enabled addr flags =
    bit_or addr (bit_or (paging_flags_to_hw nx_enabled flags) page_present)

-- The part of `paging_map_page_locked` after the walk.
unfoldable pub set_page : (phys_addr flags : ℕ) → Option (ℕ × ℕ) → M Bool
unfolding page_entry
set_page phys_addr flags none s = some (false, s)
set_page phys_addr flags (some (pt, i)) s =
    some (true, write pt i (page_entry s.nx_enabled (bit_and phys_addr entry_addr_mask_4k) flags) s)

-- The part of `paging_map_page_locked` after the test of the alignment and the flags, with what
-- `translate_with_cr3` gives.
unfoldable pub map_unmapped : Option ℕ → (root_pml4_phys virt_addr phys_addr flags : ℕ) → M Bool
unfolding set_page walk_to_pte has
map_unmapped (some existing_phys) root_pml4_phys virt_addr phys_addr flags s = some (false, s)
map_unmapped none root_pml4_phys virt_addr phys_addr flags s =
    (do
      pte ← walk_to_pte root_pml4_phys virt_addr true (has flags (2 ^ 1))
      set_page phys_addr flags pte)
      s

unfoldable pub paging_map_page : (root_pml4_phys virt_addr phys_addr flags : ℕ) → M Bool
unfolding map_unmapped translate_with_cr3 has
paging_map_page root_pml4_phys virt_addr phys_addr flags s =
    if not (bit_and (bit_or virt_addr phys_addr) (page_size_4k - 1) == 0)
      || has flags (2 ^ 3) && has flags (2 ^ 1)
    then some (false, s)
    else map_unmapped (translate_with_cr3 s.tables root_pml4_phys virt_addr) root_pml4_phys
        virt_addr phys_addr flags s

-- The loop goes on, or breaks off.
unfoldable pub if_mapped : M Bool → Bool → M Bool
if_mapped rest true s = rest s
if_mapped rest false s = some (false, s)

-- The loop of `paging_map_range`, with the rounds that are left: it stops at the first failure.
unfoldable pub map_range_loop :
    (rounds offset root_pml4_phys virt_addr phys_addr flags : ℕ) → M Bool
unfolding paging_map_page if_mapped
map_range_loop zero offset root_pml4_phys virt_addr phys_addr flags s = some (true, s)
map_range_loop (suc rounds) offset root_pml4_phys virt_addr phys_addr flags s =
    (do
      ok ←
          paging_map_page root_pml4_phys (u64 (virt_addr + offset)) (u64 (phys_addr + offset)) flags
      if_mapped
          (map_range_loop rounds (offset + page_size_4k) root_pml4_phys virt_addr phys_addr flags)
          ok)
      s

unfoldable pub paging_map_range : (root_pml4_phys virt_addr phys_addr size flags : ℕ) → M Bool
unfolding map_range_loop
paging_map_range root_pml4_phys virt_addr phys_addr size flags s =
    let aligned = align_up size page_size_4k in
    if size == 0
      || (ltb (sub_u64 u64_max size) virt_addr || ltb (sub_u64 u64_max size) phys_addr)
      || ltb aligned size
    then some (false, s)
    else map_range_loop (aligned / page_size_4k) 0 root_pml4_phys virt_addr phys_addr flags s

-- The loop of `is_table_empty`, from the last entry down.
unfoldable pub all_zero : (entries : ℕ) → Tables → (table : ℕ) → Bool
all_zero zero t table = true
all_zero (suc i) t table = (t table i == 0) && all_zero i t table

unfoldable pub is_table_empty : Tables → (table : ℕ) → Bool
unfolding all_zero
is_table_empty t table = all_zero 512 t table

-- `pmm_free_page_phys(table_phys)`, one table less, and its entry zeroed.
unfoldable pub drop_table : (table_phys parent index : ℕ) → Paging → Paging
drop_table table_phys parent index s = record (write parent index 0 s) {
  pmm = pmm_free_page_phys table_phys s.pmm;
  info = record (s.info) { table_pages_allocated = sub_u64 s.info.table_pages_allocated 1 };
}

-- The part of `free_empty_tables` after the walk, from the PDPT up and from the page table up.
unfoldable pub free_pdpt : (pml4 pdpt virt_addr : ℕ) → Paging → Paging
unfolding is_table_empty drop_table
free_pdpt pml4 pdpt virt_addr s =
    if is_table_empty s.tables pdpt then drop_table pdpt pml4 (pml4_index virt_addr) s else s

unfoldable pub free_pd : (pml4 pdpt pd virt_addr : ℕ) → Paging → Paging
unfolding is_table_empty drop_table free_pdpt
free_pd pml4 pdpt pd virt_addr s =
    if is_table_empty s.tables pd
    then free_pdpt pml4 pdpt virt_addr (drop_table pd pdpt (pdpt_index virt_addr) s)
    else s

unfoldable pub free_pt : (pml4 pdpt pd pt virt_addr : ℕ) → Paging → Paging
unfolding is_table_empty drop_table free_pd
free_pt pml4 pdpt pd pt virt_addr s =
    if is_table_empty s.tables pt
    then free_pd pml4 pdpt pd virt_addr (drop_table pt pd (pd_index virt_addr) s)
    else s

-- The entry leads to no table.
unfoldable pub ends : (entry : ℕ) → Bool
unfolding has
ends entry = not (has entry page_present) || has entry page_ps

unfoldable pub free_empty_tables : (root_pml4_phys virt_addr : ℕ) → Paging → Paging
unfolding ends free_pt
free_empty_tables root_pml4_phys virt_addr s =
    let pml4 = bit_and root_pml4_phys entry_addr_mask_4k in
    let pml4e = s.tables pml4 (pml4_index virt_addr) in
    let pdpt = bit_and pml4e entry_addr_mask_4k in
    let pdpte = s.tables pdpt (pdpt_index virt_addr) in
    let pd = bit_and pdpte entry_addr_mask_4k in
    let pde = s.tables pd (pd_index virt_addr) in
    let pt = bit_and pde entry_addr_mask_4k in
    if ends pml4e
    then s
    else if ends pdpte
    then s
    else if ends pde
    then s
    else free_pt pml4 pdpt pd pt virt_addr s

-- The part of `paging_unmap_page_locked` after the walk: `none` is `false`, `some` what goes through
-- `out_phys_addr`.
unfoldable pub clear_page : (root_pml4_phys virt_addr : ℕ) → Option (ℕ × ℕ) → M (Option ℕ)
unfolding free_empty_tables has
clear_page root_pml4_phys virt_addr none s = some (none, s)
clear_page root_pml4_phys virt_addr (some (pt, i)) s =
    let entry = s.tables pt i in
    if has entry page_present
    then some (
      some (bit_and entry entry_addr_mask_4k),
      free_empty_tables root_pml4_phys virt_addr (write pt i 0 s),
    )
    else some (none, s)

unfoldable pub paging_unmap_page : (root_pml4_phys virt_addr : ℕ) → M (Option ℕ)
unfolding clear_page walk_to_pte
paging_unmap_page root_pml4_phys virt_addr s =
    (do
      pte ← walk_to_pte root_pml4_phys virt_addr false false
      clear_page root_pml4_phys virt_addr pte)
      s

-- The part of `paging_protect_page_locked` after the walk.
unfoldable pub change_page : (flags : ℕ) → Option (ℕ × ℕ) → M Bool
unfolding page_entry has
change_page flags none s = some (false, s)
change_page flags (some (pt, i)) s =
    let entry = s.tables pt i in
    if has entry page_present
    then some
        (true, write pt i (page_entry s.nx_enabled (bit_and entry entry_addr_mask_4k) flags) s)
    else some (false, s)

unfoldable pub paging_protect_page : (root_pml4_phys virt_addr flags : ℕ) → M Bool
unfolding change_page walk_to_pte
paging_protect_page root_pml4_phys virt_addr flags s =
    (do pte ← walk_to_pte root_pml4_phys virt_addr false false; change_page flags pte) s

-- The loop of `paging_protect_range`, which goes on after a failure; `ok` is the result so far.
unfoldable pub protect_range_loop :
    (rounds offset root_pml4_phys virt_addr flags : ℕ) (ok : Bool) → M Bool
unfolding paging_protect_page
protect_range_loop zero offset root_pml4_phys virt_addr flags ok s = some (ok, s)
protect_range_loop (suc rounds) offset root_pml4_phys virt_addr flags ok s =
    (do
      changed ← paging_protect_page root_pml4_phys (u64 (virt_addr + offset)) flags
      protect_range_loop rounds (offset + page_size_4k) root_pml4_phys virt_addr flags
          (ok && changed))
      s

unfoldable pub paging_protect_range : (root_pml4_phys virt_addr size flags : ℕ) → M Bool
unfolding protect_range_loop
paging_protect_range root_pml4_phys virt_addr size flags s =
    let aligned = align_up size page_size_4k in
    if size == 0 || ltb (sub_u64 u64_max size) virt_addr || ltb aligned size
    then some (false, s)
    else protect_range_loop (aligned / page_size_4k) 0 root_pml4_phys virt_addr flags true s
