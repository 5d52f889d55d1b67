-- ===== src/Mm/Paging.antt =====
-- mm/paging.c: the page tables. The functions that hold `g_paging_lock` are one step on the state;
-- `none` is a panic. A pointer into a table is the table's physical address with an index, because
-- the kernel reads and writes tables through the direct map. The instructions that reload CR3 and
-- drop TLB entries have no part in the state.
pub mod Entry
pub mod Pages
pub mod Boot
pub mod Tree
pub mod Steps
pub mod Map
pub mod MapRange
pub mod Unmap
use velox_os.Prelude.{
  ℕ, zero, suc, ◌+◌, ◌-◌, ◌*◌, ◌/◌, ◌^◌, Bool, true, false, not, ◌&&◌, ◌||◌, Option, none, some,
  bit_and, bit_or, ltb, leb, ◌==◌, if◌then◌else◌,
}
use velox_os.Prelude.Words.{u64, sub_u64, u64_max, align_up}
use velox_os.Mm.Pmm.{Pmm, pmm_try_alloc_page_phys, pmm_free_page_phys, pmm_invalid_phys_addr}

-- `paging_info_t`
pub record PagingInfo : Type 0 where
  pub initialized : Bool
  pub root_pml4_phys : ℕ
  pub table_pages_allocated : ℕ
  pub mapped_kernel_pages : ℕ
  pub mapped_hhdm_2m_pages : ℕ
  pub mapped_hhdm_4k_pages : ℕ
  pub mapped_passthrough_pages : ℕ
  pub reclaimed_bootloader_pages : ℕ

-- The entries: the 64-bit word at an index of the table at a physical address.
abbrev pub Tables : Type 0
Tables = ℕ → ℕ → ℕ

-- The static variables, the tables in memory, and the page allocator.
pub record Paging : Type 0 where
  pub tables : Tables
  pub pmm : Pmm
  pub initialized : Bool
  pub nx_enabled : Bool
  pub info : PagingInfo

-- A step that may panic.
abbrev pub M : Type 0 → Type 0
M A = Paging → Option (A × Paging)

abbrev pub pure : {A : Type 0} → A → M A
pure a s = some (a, s)

abbrev pub panic : {A : Type 0} → M A
panic s = none

infixl 5 ◌>>=◌
abbrev pub ◌>>=◌ : {A B : Type 0} → M A → (A → M B) → M B
◌>>=◌ m f s = elim (m s) [ none ↦ none | some (a, s') ↦ f a s' ]

-- The bits of an entry.
abbrev pub page_present : ℕ
page_present = 2 ^ 0

abbrev pub page_writable : ℕ
page_writable = 2 ^ 1

abbrev pub page_user : ℕ
page_user = 2 ^ 2

abbrev pub page_pwt : ℕ
page_pwt = 2 ^ 3

abbrev pub page_pcd : ℕ
page_pcd = 2 ^ 4

abbrev pub page_ps : ℕ
page_ps = 2 ^ 7

abbrev pub page_global : ℕ
page_global = 2 ^ 8

abbrev pub page_nx : ℕ
page_nx = 2 ^ 63

abbrev pub entry_addr_mask_4k : ℕ
entry_addr_mask_4k = (2 ^ 40 - 1) * 2 ^ 12

abbrev pub entry_addr_mask_2m : ℕ
entry_addr_mask_2m = (2 ^ 31 - 1) * 2 ^ 21

abbrev pub entry_addr_mask_1g : ℕ
entry_addr_mask_1g = (2 ^ 22 - 1) * 2 ^ 30

abbrev pub page_size_4k : ℕ
page_size_4k = 4096

abbrev pub page_size_2m : ℕ
page_size_2m = 2097152

abbrev pub page_size_1g : ℕ
page_size_1g = 1073741824

-- `(word & bit) != 0`
unfoldable pub has : (word bit : ℕ) → Bool
has word bit = not (bit_and word bit == 0)

abbrev pub pml4_index : (virt_addr : ℕ) → ℕ
pml4_index virt_addr = bit_and (virt_addr / 2 ^ 39) 511

abbrev pub pdpt_index : (virt_addr : ℕ) → ℕ
pdpt_index virt_addr = bit_and (virt_addr / 2 ^ 30) 511

abbrev pub pd_index : (virt_addr : ℕ) → ℕ
pd_index virt_addr = bit_and (virt_addr / 2 ^ 21) 511

abbrev pub pt_index : (virt_addr : ℕ) → ℕ
pt_index virt_addr = bit_and (virt_addr / 2 ^ 12) 511

unfoldable pub store : (table index entry : ℕ) → Tables → Tables
store table index entry t p i = if p == table && (i == index) then entry else t p i

-- The loop that zeroes the 512 entries of a new table.
unfoldable pub zero_table : (table : ℕ) → Tables → Tables
zero_table table t p i = if p == table && ltb i 512 then 0 else t p i

abbrev pub write : (table index entry : ℕ) → Paging → Paging
write table index entry s = record s { tables = store table index entry s.tables }

-- `alloc_table_page` once the page allocator has answered.
unfoldable pub new_table : Option ℕ × Pmm → M ℕ
unfolding zero_table
new_table (none, pmm') s = none
new_table (some table_phys, pmm') s =
    if table_phys == pmm_invalid_phys_addr
    then none
    else some (
      table_phys,
      record s {
        tables = zero_table table_phys s.tables;
        pmm = pmm';
        info = record (s.info) { table_pages_allocated = u64 (s.info.table_pages_allocated + 1) };
      },
    )

unfoldable pub alloc_table_page : M ℕ
unfolding new_table
alloc_table_page s = new_table (pmm_try_alloc_page_phys s.pmm) s

-- `child_phys | PAGE_PRESENT | PAGE_WRITABLE`, and `| PAGE_USER`
unfoldable pub table_entry : (user : Bool) (child_phys : ℕ) → ℕ
table_entry user child_phys =
    let new_entry = bit_or (bit_or child_phys page_present) page_writable in
    if user then bit_or new_entry page_user else new_entry

unfoldable pub get_or_create_table : (parent_table index : ℕ) (user : Bool) → M ℕ
unfolding alloc_table_page table_entry has store
get_or_create_table parent_table index user s =
    let entry = s.tables parent_table index in
    if has entry page_present
    then if has entry page_ps
      then none
      else some (
        bit_and entry entry_addr_mask_4k,
        if user && not (has entry page_user)
            then write parent_table index (bit_or entry page_user) s
            else s,
      )
    else ((do
      child_phys ← alloc_table_page
      λ s'. some (child_phys, write parent_table index (table_entry user child_phys) s'))
        s)

-- One `if ((flags & flag) != 0) { hw |= bit; }`
unfoldable pub or_if : (test : Bool) (bit hw : ℕ) → ℕ
or_if test bit hw = if test then bit_or hw bit else hw

unfoldable pub paging_flags_to_hw : (nx_enabled : Bool) (flags : ℕ) → ℕ
unfolding or_if has
paging_flags_to_hw nx_enabled flags =
    let writable = or_if (has flags (2 ^ 0)) page_writable 0 in
    let user = or_if (has flags (2 ^ 1)) page_user writable in
    let global = or_if (has flags (2 ^ 3)) page_global user in
    let through = or_if (has flags (2 ^ 5)) page_pwt global in
    let uncached = or_if (has flags (2 ^ 4)) page_pcd through in
    or_if (not (has flags (2 ^ 2)) && nx_enabled) page_nx uncached

-- What `walk_to_pte` leaves in `out_pte`: a table and an index; `none` is `false`. The walk from a
-- page directory, from a PDPT, and from the root.
unfoldable pub walk_pd : (pd_phys virt_addr : ℕ) (create user : Bool) → M (Option (ℕ × ℕ))
unfolding get_or_create_table has
walk_pd pd_phys virt_addr create user s =
    let entry = s.tables pd_phys (pd_index virt_addr) in
    if has entry page_ps || not (has entry page_present) && not create
    then some (none, s)
    else ((do
      pt_phys ← get_or_create_table pd_phys (pd_index virt_addr) user
      pure (some (pt_phys, pt_index virt_addr)))
        s)

unfoldable pub walk_pdpt : (pdpt_phys virt_addr : ℕ) (create user : Bool) → M (Option (ℕ × ℕ))
unfolding get_or_create_table walk_pd has
walk_pdpt pdpt_phys virt_addr create user s =
    let entry = s.tables pdpt_phys (pdpt_index virt_addr) in
    if has entry page_ps || not (has entry page_present) && not create
    then some (none, s)
    else ((do
      pd_phys ← get_or_create_table pdpt_phys (pdpt_index virt_addr) user
      walk_pd pd_phys virt_addr create user)
        s)

unfoldable pub walk_to_pte :
    (root_pml4_phys virt_addr : ℕ) (create user : Bool) → M (Option (ℕ × ℕ))
unfolding get_or_create_table walk_pdpt has
walk_to_pte root_pml4_phys virt_addr create user s =
    let pml4 = bit_and root_pml4_phys entry_addr_mask_4k in
    if not (has (s.tables pml4 (pml4_index virt_addr)) page_present) && not create
    then some (none, s)
    else ((do
      pdpt_phys ← get_or_create_table pml4 (pml4_index virt_addr) user
      walk_pdpt pdpt_phys virt_addr create user)
        s)

-- `translate_with_cr3`, from a page table, a page directory, a PDPT and the root: `none` is `false`,
-- `some` what goes through `out_phys_addr`.
unfoldable pub translate_pt : Tables → (pt virt_addr : ℕ) → Option ℕ
unfolding has
translate_pt t pt virt_addr =
    let pte = t pt (pt_index virt_addr) in
    if has pte page_present
    then some (bit_or (bit_and pte entry_addr_mask_4k) (bit_and virt_addr (page_size_4k - 1)))
    else none

unfoldable pub translate_pd : Tables → (pd virt_addr : ℕ) → Option ℕ
unfolding translate_pt has
translate_pd t pd virt_addr =
    let pde = t pd (pd_index virt_addr) in
    if not (has pde page_present)
    then none
    else if has pde page_ps
    then some (bit_or (bit_and pde entry_addr_mask_2m) (bit_and virt_addr (page_size_2m - 1)))
    else translate_pt t (bit_and pde entry_addr_mask_4k) virt_addr

unfoldable pub translate_pdpt : Tables → (pdpt virt_addr : ℕ) → Option ℕ
unfolding translate_pd has
translate_pdpt t pdpt virt_addr =
    let pdpte = t pdpt (pdpt_index virt_addr) in
    if not (has pdpte page_present)
    then none
    else if has pdpte page_ps
    then some (bit_or (bit_and pdpte entry_addr_mask_1g) (bit_and virt_addr (page_size_1g - 1)))
    else translate_pd t (bit_and pdpte entry_addr_mask_4k) virt_addr

unfoldable pub translate_with_cr3 : Tables → (root_cr3_phys virt_addr : ℕ) → Option ℕ
unfolding translate_pdpt has
translate_with_cr3 t root_cr3_phys virt_addr =
    let pml4 = bit_and root_cr3_phys entry_addr_mask_4k in
    let pml4e = t pml4 (pml4_index virt_addr) in
    if has pml4e page_present
    then translate_pdpt t (bit_and pml4e entry_addr_mask_4k) virt_addr
    else none
