-- ===== src/Tests/Vmalloc.antt =====
-- mm/vmalloc.c over a page allocator that counts the frames it gives.
use velox_os.Prelude.{
  ℕ, ◌+◌, ◌*◌, ◌/◌, ◌≡◌, refl, true, false, List, [], ◌∷◌, some, none, arith, ◌-◌, ◌%◌, ◌≤◌, ◌&&◌,
  ◌==◌, leb, if◌then◌else◌,
}
use velox_os.Prelude.Words.{align_up}
use velox_os.Mm.Ranges.{VmallocRange, range_end, carve}
use velox_os.Mm.Ranges.Order.{Gapped, holds}
use velox_os.Mm.Vmalloc.{
  Pages, Vmalloc, Layout, vmalloc_init_once_locked, region, region_base, vmalloc, search,
  back_with_pages, page_mapped, after_mapping, map_loop, vfree,
}
use velox_os.Mm.Frames.{kernel_pages}
use velox_os.Tests.Paging.{start}
use velox_os.Mm.Vmalloc.Alloc.{IsValid, Frees, Allocates, VmallocSpec, vmalloc_lem}
use velox_os.Mm.Vmalloc.Release.{IsAccepted, VfreeSpec, vfree_lem, vfree-vmalloc}
use velox_os.Mm.Vmalloc.Success.{Supplies, vmalloc-Supplies}
use velox_os.Mm.Vmalloc.Init.{IsRegion, vmalloc_init-IsValid}

-- The state is the number of frames given; the page tables take everything.
abbrev pages : Pages ℕ
pages = record {
  pmm_ready = λ k. true;
  paging_ready = λ k. true;
  highest_physical_address = λ k. 1048576;
  root_pml4_phys = λ k. 4096;
  try_alloc_page = λ k. (some (k * 4096), k + 1);
  free_page = λ phys k. k;
  map_page = λ root virt phys flags k. some (true, k);
  unmap_page = λ root virt k. (some 8192, k);
}

abbrev lay : Layout
lay = record { kernel_virtual_end = 20000; hhdm_offset = 2147483648 }

abbrev ranges : List VmallocRange
ranges = record { start = 16384; size = 8192 } ∷ record { start = 40960; size = 12288 } ∷ []

ranges-Gapped : Gapped 16384 1048576 ranges
ranges-Gapped = (
  omega arith,
  record { some_size = omega arith; ends = omega arith; start_aligned = refl; size_aligned = refl },
  (
    omega arith,
    record {
      some_size = omega arith;
      ends = omega arith;
      start_aligned = refl;
      size_aligned = refl;
    },
    tt,
  ),
)

abbrev started : Vmalloc
started = record { free = ranges; base = 16384; end = 1048576; initialized = true }

started-IsValid : IsValid started
started-IsValid = record {
  started = refl;
  top = omega arith;
  gapped = ranges-Gapped;
  room = omega arith;
}

-- Over the page tables and frames of Tests/Paging.
vmalloc_example :
    VmallocSpec kernel_pages start started 8192 (vmalloc kernel_pages lay 5000 3 started start)
vmalloc_example = vmalloc_lem kernel_pages lay 5000 3 started start (omega arith) started-IsValid

accepted : IsAccepted started 28672 5000
accepted = record {
  not_null = omega arith;
  some_size = omega arith;
  no_wrap = omega arith;
  aligned = refl;
  above = omega arith;
  below = omega arith;
}

vfree_example : VfreeSpec started 28672 8192 (vfree pages lay 28672 5000 started 2)
vfree_example = vfree_lem pages lay 28672 5000 started 2 started-IsValid accepted (omega arith)

abbrev after : Vmalloc
after = record {
  free = record { start = 40960; size = 12288 } ∷ [];
  base = 16384;
  end = 1048576;
  initialized = true;
}

gives : vmalloc pages lay 5000 0 started 2 ≡ some (16384, after, 4)
unfolding vmalloc vmalloc_init_once_locked search carve back_with_pages after_mapping map_loop
    page_mapped align_up
gives = refl

vfree_vmalloc_example :
    (v : Vmalloc) × (k : ℕ) × (vfree pages lay 16384 5000 after 9 ≡ some (v, k))
    × Frees started v (holds ranges)
vfree_vmalloc_example =
    vfree-vmalloc pages lay 5000 0 started after 16384 2 4 9 (omega arith) (omega arith)
      started-IsValid gives (omega arith) (omega arith)

abbrev blank : Vmalloc
blank = record { free = []; base = 0; end = 0; initialized = false }

abbrev first : Vmalloc
first = record {
  free = record { start = 20480; size = 268435456 } ∷ [];
  base = 20480;
  end = 268455936;
  initialized = true;
}

starts : vmalloc_init_once_locked pages lay 2 blank ≡ (true, first)
unfolding vmalloc_init_once_locked region region_base align_up range_end
starts = refl

vmalloc_init_example :
    IsValid first
    × ((r : VmallocRange) × (first.free ≡ r ∷ [])
        × (first.base ≡ r.start)
        × (first.end ≡ r.start + r.size)
        × IsRegion lay 1048576 r)
vmalloc_init_example =
    vmalloc_init-IsValid pages lay 2 blank first
      (record { hhdm_aligned = refl; kernel_low = omega arith; hhdm_low = omega arith }) refl starts

-- So many frames; a page that is not aligned or has been passed is refused, and without a frame for
-- the table the map panics.
abbrev counted : Pages (ℕ × ℕ)
counted = record {
  pmm_ready = λ k. true;
  paging_ready = λ k. true;
  highest_physical_address = λ k. 1048576;
  root_pml4_phys = λ k. 4096;
  try_alloc_page = λ k. if k.0 == 0 then (none, k) else (some (k.0 * 4096), (k.0 - 1, k.1));
  free_page = λ phys k. (k.0 + 1, k.1);
  map_page = λ root virt phys flags k.
      if k.0 == 0
      then none
      else if leb k.1 virt && (virt % 4096 == 0)
      then some (true, (k.0, virt + 4096))
      else some (false, k);
  unmap_page = λ root virt k. (none, k);
}

-- More frames than pages, at an address that the map takes.
abbrev Ready : ℕ → ℕ → ℕ × ℕ → Type 0
Ready n virt k = (n + 1 ≤ k.0) × (k.1 ≤ virt) × (virt % 4096 ≡ 0)

counted-Supplies : Supplies counted lay 4096 0 Ready
counted-Supplies = record {
  next = λ n virt k h.
      (k.0 * 4096, (k.0 - 1, virt + 4096), ground (arith, h), ground (arith, h), omega (arith, h));
}

vmalloc_supplies_example :
    (addr : ℕ) × (v' : Vmalloc) × (k' : ℕ × ℕ) × (vmalloc counted lay 5000 0 started (9, 0)
      ≡ some (addr, v', k'))
    × Allocates started ((5000 + 4095) / 4096 * 4096) addr v'
vmalloc_supplies_example =
    vmalloc-Supplies counted lay 5000 0 4096 started (9, 0) Ready (omega arith) (omega arith)
      started-IsValid counted-Supplies (λ addr al free. (omega arith, omega arith, al)) refl
      (omega arith) refl
