-- ===== src/Mm/Vmalloc.antt =====
-- mm/vmalloc.c: `vmalloc_init_once_locked`, `vmalloc` and `vfree`. Each is one step under
-- `g_vmalloc_lock`. What they call of mm/pmm.c and mm/paging.c is the interface `Pages`, over the
-- state `K` of those two files.
pub mod Init
pub mod Alloc
pub mod Release
pub mod Success
use velox_os.Prelude.{
  ℕ, zero, suc, ◌+◌, ◌-◌, ◌*◌, ◌/◌, ◌^◌, Bool, true, false, not, ◌&&◌, ◌||◌, Option, none, some,
  List, [], ◌∷◌, bit_and, ltb, leb, ◌==◌, if◌then◌else◌,
}
use velox_os.Prelude.Words.{u64, sub_u64, u64_max, align_up}
use velox_os.Mm.Pmm.{pmm_page_size}
use velox_os.Mm.Ranges.{VmallocRange, range_end, vmalloc_free_range, carve}

-- The calls into the page allocator and the page tables.
pub record Pages (K : Type 0) : Type 0 where
  pub pmm_ready : K → Bool
  pub paging_ready : K → Bool
  pub highest_physical_address : K → ℕ
  pub root_pml4_phys : K → ℕ
  -- `none` is `false`, `some` what goes through the pointer.
  pub try_alloc_page : K → Option ℕ × K
  pub free_page : ℕ → K → K
  -- `none` is the panic of alloc_table_page without memory.
  pub map_page : (root virt phys flags : ℕ) → K → Option (Bool × K)
  pub unmap_page : (root virt : ℕ) → K → Option ℕ × K

-- The static variables; `free` is the used part of `g_vmalloc_free`.
pub record Vmalloc : Type 0 where
  pub free : List VmallocRange
  pub base : ℕ
  pub end : ℕ
  pub initialized : Bool

-- Addresses that the linker script and the boot loader give.
pub record Layout : Type 0 where
  pub kernel_virtual_end : ℕ
  pub hhdm_offset : ℕ

abbrev pub vmalloc_default_size : ℕ
vmalloc_default_size = 256 * 1024 * 1024

-- Where the region starts: behind the kernel, or behind the direct map if the kernel ends inside it.
unfoldable pub region_base : Layout → (highest : ℕ) → ℕ
region_base lay highest =
    let kernel_end = align_up lay.kernel_virtual_end pmm_page_size in
    let hhdm_sum = u64 (lay.hhdm_offset + align_up highest pmm_page_size) in
    let hhdm_end = if ltb hhdm_sum lay.hhdm_offset then u64_max else hhdm_sum in
    let inside = leb lay.hhdm_offset kernel_end && ltb kernel_end hhdm_end in
    align_up (if inside then hhdm_end else kernel_end) pmm_page_size

-- The region, cut off where the direct map starts. `none` is `return false`.
unfoldable pub region : Layout → (highest : ℕ) → Option VmallocRange
region lay highest =
    let base = region_base lay highest in
    let meets_hhdm =
      ltb base lay.hhdm_offset && ltb lay.hhdm_offset (range_end base vmalloc_default_size) in
    let size = if meets_hhdm then sub_u64 lay.hhdm_offset base else vmalloc_default_size in
    if meets_hhdm && leb lay.hhdm_offset base
    then none
    else if ltb size pmm_page_size
    then none
    else some (record { start = base; size = size })

module _ {K : Type 0} (pages : Pages K) (lay : Layout) where
  open pages use {
    pmm_ready, paging_ready, highest_physical_address, root_pml4_phys, try_alloc_page, free_page,
    map_page, unmap_page,
  }

  unfoldable pub vmalloc_init_once_locked : K → Vmalloc → Bool × Vmalloc
  vmalloc_init_once_locked k v =
      if v.initialized
      then (true, v)
      else if not (pmm_ready k) || not (paging_ready k)
      then (false, v)
      else if highest_physical_address k == 0 || (highest_physical_address k == u64_max)
      then (false, v)
      else (elim (region lay (highest_physical_address k)) [
        | none ↦ (false, v)
        | some r ↦ (
          true,
          record v {
            free = r ∷ [];
            base = r.start;
            end = u64 (r.start + r.size);
            initialized = true;
          },
        )
      ])

  unfoldable pub vmalloc_init : K → Vmalloc → Vmalloc
  unfolding vmalloc_init_once_locked
  vmalloc_init k v = (vmalloc_init_once_locked k v).1

  -- What the map of a page decides: the next round, the end of the loop, or a panic.
  unfoldable pub page_mapped :
      (phys mapped : ℕ) → (later : K → Option (ℕ × K)) → Option (Bool × K) → Option (ℕ × K)
  page_mapped phys mapped later none = none
  page_mapped phys mapped later (some (true, k)) = later k
  page_mapped phys mapped later (some (false, k)) = some (mapped, free_page phys k)

  -- The loop that maps a fresh page at each offset: `rounds` pages are left, `mapped` pages done.
  -- The result is the number of pages mapped, `none` a panic.
  unfoldable pub map_loop : (rounds mapped root addr flags : ℕ) → K → Option (ℕ × K)
  unfolding page_mapped
  map_loop zero mapped root addr flags k = some (mapped, k)
  map_loop (suc rounds) mapped root addr flags k =
      let (found, k1) = try_alloc_page k in
      elim found [
        | none ↦ some (mapped, k1)
        | some phys ↦
            page_mapped phys mapped (map_loop rounds (mapped + 1) root addr flags)
              (map_page root (u64 (addr + mapped * pmm_page_size)) phys flags k1)
      ]

  -- The loops that unmap pages from `page` on and give the frames back.
  unfoldable pub unmap_loop : (rounds page root addr : ℕ) → K → K
  unmap_loop zero page root addr k = k
  unmap_loop (suc rounds) page root addr k =
      let (found, k1) = unmap_page root (u64 (addr + page * pmm_page_size)) k in
      unmap_loop rounds (page + 1) root addr
        (elim found [ none ↦ k1 | some phys ↦ free_page phys k1 ])

  -- `none` is a panic; the address 0 is NULL.
  abbrev give_back : (addr aligned : ℕ) → Vmalloc → K → Option (ℕ × Vmalloc × K)
  give_back addr aligned v k = elim (vmalloc_free_range addr aligned v.free) [
    | none ↦ none
    | some free ↦ some (0, record v { free = free }, k)
  ]

  -- After the loop: all pages are mapped, or what was done is undone.
  unfoldable pub after_mapping :
      (root addr aligned : ℕ) → Vmalloc → Option (ℕ × K) → Option (ℕ × Vmalloc × K)
  unfolding unmap_loop
  after_mapping root addr aligned v none = none
  after_mapping root addr aligned v (some (mapped, k)) =
      if mapped * pmm_page_size == aligned
      then some (addr, v, k)
      else give_back addr aligned v (unmap_loop mapped 0 root addr k)

  -- `vmalloc` once a range is carved out.
  unfoldable pub back_with_pages : (addr aligned flags : ℕ) → Vmalloc → K → Option (ℕ × Vmalloc × K)
  unfolding map_loop after_mapping
  back_with_pages addr aligned flags v k =
      let root = root_pml4_phys k in
      if root == 0
      then give_back addr aligned v k
      else after_mapping root addr aligned v
          (map_loop (aligned / pmm_page_size) 0 root addr flags k)

  -- The loop of `vmalloc` over the free list.
  unfoldable pub search : (aligned flags : ℕ) → Vmalloc → K → Option (ℕ × Vmalloc × K)
  unfolding back_with_pages
  search aligned flags v k = elim (carve aligned v.free) [
    | none ↦ some (0, v, k)
    | some (addr, free) ↦ back_with_pages addr aligned flags (record v { free = free }) k
  ]

  unfoldable pub vmalloc : (size flags : ℕ) → Vmalloc → K → Option (ℕ × Vmalloc × K)
  vmalloc size flags v k =
      let aligned = align_up size pmm_page_size in
      if size == 0 || ltb aligned size
      then some (0, v, k)
      else (let (ok, v1) = vmalloc_init_once_locked k v in
          if not ok then some (0, v1, k) else search aligned flags v1 k)

  unfoldable pub release : (addr aligned : ℕ) → Vmalloc → K → Option (Vmalloc × K)
  release addr aligned v k = elim (vmalloc_free_range addr aligned v.free) [
    | none ↦ none
    | some free ↦ some (record v { free = free }, k)
  ]

  unfoldable pub vfree : (addr size : ℕ) → Vmalloc → K → Option (Vmalloc × K)
  unfolding unmap_loop release
  vfree addr size v k =
      let aligned = align_up size pmm_page_size in
      if addr == 0 || (size == 0)
      then some (v, k)
      else if not (bit_and addr (pmm_page_size - 1) == 0)
      then some (v, k)
      else if ltb aligned size
      then some (v, k)
      else if not v.initialized
      then some (v, k)
      else if ltb addr v.base || (leb v.end addr || ltb (sub_u64 v.end aligned) addr)
      then some (v, k)
      else if root_pml4_phys k == 0
      then some (v, k)
      else release addr aligned v (unmap_loop (aligned / pmm_page_size) 0 (root_pml4_phys k) addr k)
