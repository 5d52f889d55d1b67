-- ===== src/Mm/Frames.antt =====
-- What mm/vmalloc.c calls of mm/pmm.c and mm/paging.c, filled by the models of those files: the
-- frames and the page tables are one state.
use velox_os.Prelude.{ℕ, Option, none, some}
use velox_os.Mm.Pmm.{pmm_try_alloc_page_phys, pmm_free_page_phys}
use velox_os.Mm.Paging.{Paging}
use velox_os.Mm.Paging.Pages.{paging_map_page, paging_unmap_page}
use velox_os.Mm.Vmalloc.{Pages}

-- paging_unmap_page allocates nothing, so that its model's panic does not arise.
abbrev unmapped : Paging → Option (Option ℕ × Paging) → Option ℕ × Paging
unmapped s none = (none, s)
unmapped s (some r) = r

abbrev pub kernel_pages : Pages Paging
kernel_pages = record {
  pmm_ready = λ s. s.pmm.initialized;
  paging_ready = λ s. s.initialized;
  highest_physical_address = λ s. s.pmm.info.highest_physical_address;
  root_pml4_phys = λ s. s.info.root_pml4_phys;
  try_alloc_page =
      λ s. let (found, pmm) = pmm_try_alloc_page_phys s.pmm in (found, record s { pmm = pmm });
  free_page = λ phys s. record s { pmm = pmm_free_page_phys phys s.pmm };
  map_page = paging_map_page;
  unmap_page = λ root virt s. unmapped s (paging_unmap_page root virt s);
}
