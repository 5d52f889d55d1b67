-- ===== src/Mm/Vmalloc/Init.antt =====
-- The region that `vmalloc_init_once_locked` of mm/vmalloc.c takes.
use velox_os.Prelude.{
  ℕ, ◌+◌, ◌*◌, ◌/◌, ◌%◌, ◌^◌, ◌≤◌, ◌<◌, ◌≡◌, ◌⊎◌, refl, true, false, [], ◌∷◌, arith, inl, inr, some,
  Option-cases,
}
use velox_os.Prelude.Words.{u64, align_up, align_up_page}
use velox_os.Mm.Ranges.{VmallocRange, range_end}
use velox_os.Mm.Ranges.Order.{IsPages}
use velox_os.Mm.Vmalloc.{
  Pages, Vmalloc, Layout, region_base, region, vmalloc_init_once_locked, vmalloc_default_size,
}
use velox_os.Mm.Vmalloc.Alloc.{IsValid}

-- A layout in which neither the kernel nor the direct map comes near the end of the address space.
pub record IsLayout (lay : Layout) (highest : ℕ) : Type 0 where
  pub hhdm_aligned : lay.hhdm_offset % 4096 ≡ 0
  pub kernel_low : lay.kernel_virtual_end + 4095 + vmalloc_default_size < 2 ^ 64
  pub hhdm_low : lay.hhdm_offset + highest + 4095 + vmalloc_default_size < 2 ^ 64

-- The region lies on whole pages above the kernel, and beside the direct map of all memory.
pub record IsRegion (lay : Layout) (highest : ℕ) (r : VmallocRange) : Type 0 where
  pub pages : IsPages (r.start + r.size) r
  pub top : r.start + r.size < 2 ^ 64
  pub not_large : r.size ≤ vmalloc_default_size
  pub above_kernel : lay.kernel_virtual_end ≤ r.start
  pub beside_hhdm : (r.start + r.size ≤ lay.hhdm_offset) ⊎ (lay.hhdm_offset + highest ≤ r.start)

align_up_again : (v : ℕ) → v % 4096 ≡ 0 → v + 4095 < 2 ^ 64 → align_up v 4096 ≡ v
align_up_again v a h = omega (arith, align_up_page v)

region_base_lem :
    (lay : Layout) (highest : ℕ)
    → IsLayout lay highest
    → (lay.kernel_virtual_end ≤ region_base lay highest)
      × (region_base lay highest % 4096 ≡ 0)
      × (region_base lay highest + vmalloc_default_size < 2 ^ 64)
      × ((region_base lay highest < lay.hhdm_offset)
          ⊎ (lay.hhdm_offset + highest ≤ region_base lay highest))
unfolding region_base
region_base_lem lay highest l =
    let k : align_up lay.kernel_virtual_end 4096 ≡ (lay.kernel_virtual_end + 4095) / 4096 * 4096 =
      omega (arith, align_up_page lay.kernel_virtual_end) in
    let s : u64 (lay.hhdm_offset + align_up highest 4096)
        ≡ lay.hhdm_offset + (highest + 4095) / 4096 * 4096 =
      omega (arith, align_up_page highest) in
    ground (
      arith,
      k,
      s,
      align_up_again ((lay.kernel_virtual_end + 4095) / 4096 * 4096),
      align_up_again (lay.hhdm_offset + (highest + 4095) / 4096 * 4096),
    )

range_end_near :
    (base : ℕ)
    → base + vmalloc_default_size < 2 ^ 64
    → range_end base vmalloc_default_size ≡ base + vmalloc_default_size
unfolding range_end
range_end_near base h = ground arith

pub region-IsRegion :
    (lay : Layout) (highest : ℕ) (r : VmallocRange)
    → IsLayout lay highest
    → region lay highest ≡ some r
    → IsRegion lay highest r
unfolding region
region-IsRegion lay highest r l e =
    let b = region_base_lem lay highest l in
    ground (arith, b, range_end_near (region_base lay highest))

-- A region as the whole free list.
abbrev started_with : Vmalloc → VmallocRange → Vmalloc
started_with v r = record v {
  free = r ∷ [];
  base = r.start;
  end = u64 (r.start + r.size);
  initialized = true;
}

one_range :
    (lay : Layout) (highest : ℕ) (v : Vmalloc) (r : VmallocRange)
    → IsRegion lay highest r
    → IsValid (started_with v r)
one_range lay highest v r is = record {
  started = refl;
  top = omega arith;
  gapped = (omega arith, pages, tt);
  room = omega arith;
}
  where
    pages : IsPages (u64 (r.start + r.size)) r
    pages = record {
      some_size = is.pages.some_size;
      ends = omega (arith, is.top);
      start_aligned = is.pages.start_aligned;
      size_aligned = is.pages.size_aligned;
    }

module _ {K : Type 0} (pages : Pages K) (lay : Layout) where
  -- In a layout that stays below the end of the address space, with the direct map on a page
  -- boundary, the first successful initialisation leaves a valid allocator: from its base to its end
  -- runs its one free range, on whole pages, of at most 256 MiB, above the kernel and beside the
  -- direct map of physical memory.
  pub vmalloc_init-IsValid :
      (k : K) (v v' : Vmalloc)
      → IsLayout lay (pages.highest_physical_address k)
      → v.initialized ≡ false
      → vmalloc_init_once_locked pages lay k v ≡ (true, v')
      → IsValid v'
        × ((r : VmallocRange) × (v'.free ≡ r ∷ [])
            × (v'.base ≡ r.start)
            × (v'.end ≡ r.start + r.size)
            × IsRegion lay (pages.highest_physical_address k) r)
  unfolding vmalloc_init_once_locked
  vmalloc_init-IsValid k v v' l off e =
      elim (Option-cases (region lay (pages.highest_physical_address k))) [
        | inl nowhere ↦ ground arith
        | inr (r, found) ↦
            let is = region-IsRegion lay (pages.highest_physical_address k) r l found in
            let whole : v' ≡ started_with v r = ground arith in
            let ends : u64 (r.start + r.size) ≡ r.start + r.size = omega (arith, is.top) in
            rw whole
              (one_range lay (pages.highest_physical_address k) v r is, (r, refl, refl, ends, is))
      ]
