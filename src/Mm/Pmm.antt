-- ===== src/Mm/Pmm.antt =====
-- mm/pmm.c and mm/pmm.h: the page-frame allocator. Each function takes the state of the file's
-- static variables and returns the new one; the functions that hold `g_pmm_lock` are one step.
pub mod Marks
pub mod Ranges
pub mod Alloc
pub mod Free
use velox_os.Prelude.{
  ℕ, zero, suc, ◌+◌, ◌-◌, ◌*◌, ◌/◌, ◌^◌, Bool, true, false, not, ◌&&◌, ◌||◌, Option, none, some,
  List, [], ◌∷◌, bit_and, ltb, leb, ◌==◌, if◌then◌else◌, replicate,
}
use velox_os.Prelude.Words.{u64, sub_u64, u64_max, align_up, align_down}
use velox_os.Mm.Bitmap.{bit_test, bit_set, bit_clear}

abbrev pub pmm_page_size : ℕ
pmm_page_size = 4096

-- `pmm_info_t`
pub record PmmInfo : Type 0 where
  pub total_pages : ℕ
  pub free_pages : ℕ
  pub used_pages : ℕ
  pub bitmap_bytes : ℕ
  pub bitmap_phys_base : ℕ
  pub highest_physical_address : ℕ

-- The static variables. The bytes behind `g_bitmap` are a list.
pub record Pmm : Type 0 where
  pub bitmap : List ℕ
  pub info : PmmInfo
  pub next_search : ℕ
  pub initialized : Bool

abbrev pub total : Pmm → ℕ
total s = s.info.total_pages

pub phys_to_page : ℕ → ℕ
phys_to_page phys_addr = phys_addr / pmm_page_size

unfoldable pub mark_page_used : ℕ → Pmm → Pmm
mark_page_used page s =
    if leb (total s) page then s else if bit_test s.bitmap page then s else record s {
      bitmap = bit_set s.bitmap page;
      info = record (s.info) {
        free_pages = sub_u64 s.info.free_pages 1;
        used_pages = u64 (s.info.used_pages + 1);
      };
    }

unfoldable pub mark_page_free : ℕ → Pmm → Pmm
mark_page_free page s =
    if leb (total s) page
    then s
    else if bit_test s.bitmap page
    then record s {
      bitmap = bit_clear s.bitmap page;
      info = record (s.info) {
        free_pages = u64 (s.info.free_pages + 1);
        used_pages = sub_u64 s.info.used_pages 1;
      };
    }
    else s

-- The loops of `mark_range_free` and `mark_range_used`: `rounds` pages from `page` on.
unfoldable pub free_loop : ℕ → ℕ → Pmm → Pmm
free_loop zero page s = s
free_loop (suc rounds) page s = free_loop rounds (page + 1) (mark_page_free page s)

unfoldable pub used_loop : ℕ → ℕ → Pmm → Pmm
used_loop zero page s = s
used_loop (suc rounds) page s = used_loop rounds (page + 1) (mark_page_used page s)

abbrev pub clip : ℕ → ℕ → ℕ
clip limit page_end = if ltb limit page_end then limit else page_end

unfoldable pub mark_range_free : ℕ → ℕ → Pmm → Pmm
unfolding phys_to_page
mark_range_free start_phys end_phys s =
    if leb end_phys start_phys
    then s
    else (let page_start = phys_to_page (align_up start_phys pmm_page_size) in
        let page_end = clip (total s) (phys_to_page (align_down end_phys pmm_page_size)) in
        free_loop (page_end - page_start) page_start s)

unfoldable pub mark_range_used : ℕ → ℕ → Pmm → Pmm
unfolding phys_to_page
mark_range_used start_phys end_phys s =
    if leb end_phys start_phys
    then s
    else (let page_start = phys_to_page (align_down start_phys pmm_page_size) in
        let page_end = clip (total s) (phys_to_page (align_up end_phys pmm_page_size)) in
        used_loop (page_end - page_start) page_start s)

-- The page that the scan looks at in its round `scanned`.
abbrev pub scan_page : ℕ → ℕ → ℕ → ℕ
scan_page limit start scanned =
    let page = u64 (start + scanned) in if leb limit page then sub_u64 page limit else page

abbrev pub take_page : ℕ → Pmm → Pmm
take_page page s =
    let marked = mark_page_used page s in
    record marked {
      next_search = if leb (total marked) (u64 (page + 1)) then 0 else u64 (page + 1);
    }

-- The loop of `pmm_try_alloc_page_phys`, with the rounds that are left: `some` is the page taken.
unfoldable pub alloc_loop : ℕ → ℕ → ℕ → Pmm → Option ℕ × Pmm
alloc_loop zero start scanned s = (none, s)
alloc_loop (suc rounds) start scanned s =
    let page = scan_page (total s) start scanned in
    let rest = alloc_loop rounds start (scanned + 1) s in
    if bit_test s.bitmap page then rest else (some page, take_page page s)

-- `none` is `false`, `some` what goes through `out_phys_addr`.
unfoldable pub pmm_try_alloc_page_phys : Pmm → Option ℕ × Pmm
unfolding alloc_loop
pmm_try_alloc_page_phys s =
    if not s.initialized || (s.info.free_pages == 0 || total s == 0)
    then (none, s)
    else (let start = if leb (total s) s.next_search then 0 else s.next_search in
        let (found, s') = alloc_loop (total s) start 0 s in
        (elim found [ none ↦ none | some page ↦ some (u64 (page * pmm_page_size)) ], s'))

abbrev pub pmm_invalid_phys_addr : ℕ
pmm_invalid_phys_addr = u64_max

unfoldable pub pmm_alloc_page_phys : Pmm → ℕ × Pmm
unfolding pmm_try_alloc_page_phys
pmm_alloc_page_phys s =
    let (found, s') = pmm_try_alloc_page_phys s in
    (elim found [ none ↦ pmm_invalid_phys_addr | some phys ↦ phys ], s')

-- `hhdm_offset` is the global of boot/boot.c.
unfoldable pub pmm_phys_to_virt : (hhdm_offset phys_addr : ℕ) → ℕ
pmm_phys_to_virt hhdm_offset phys_addr = u64 (phys_addr + hhdm_offset)

unfoldable pub pmm_virt_to_phys : (hhdm_offset virt_addr : ℕ) → ℕ
pmm_virt_to_phys hhdm_offset virt_addr = sub_u64 virt_addr hhdm_offset

unfoldable pub pmm_alloc_page : (hhdm_offset : ℕ) → Pmm → ℕ × Pmm
unfolding pmm_try_alloc_page_phys pmm_phys_to_virt
pmm_alloc_page hhdm_offset s =
    let (found, s') = pmm_try_alloc_page_phys s in
    (elim found [ none ↦ 0 | some phys ↦ pmm_phys_to_virt hhdm_offset phys ], s')

unfoldable pub pmm_free_page_phys : ℕ → Pmm → Pmm
unfolding phys_to_page
pmm_free_page_phys phys_addr s =
    let page = phys_to_page phys_addr in
    if not s.initialized
    then s
    else if not (bit_and phys_addr (pmm_page_size - 1) == 0)
    then s
    else if leb (total s) page
    then s
    else if bit_test s.bitmap page
    then (let freed = mark_page_free page s in
        record freed {
          next_search = if ltb page freed.next_search then page else freed.next_search;
        })
    else s

unfoldable pub pmm_free_page : (hhdm_offset virt_addr : ℕ) → Pmm → Pmm
unfolding pmm_free_page_phys pmm_virt_to_phys
pmm_free_page hhdm_offset virt_addr s =
    if virt_addr == 0 then s else pmm_free_page_phys (pmm_virt_to_phys hhdm_offset virt_addr) s
