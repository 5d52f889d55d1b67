-- ===== src/Tests/Pmm.antt =====
-- mm/pmm.c with 16 pages, of which page 2 is free.
use velox_os.Prelude.{ℕ, ◌≡◌, refl, true, List, [], ◌∷◌, some, arith}
use velox_os.Mm.Bitmap.{IsBytes, bit_test}
use velox_os.Mm.Pmm.{Pmm, alloc_loop, mark_page_used, pmm_try_alloc_page_phys, pmm_free_page_phys}
use velox_os.Mm.Pmm.Marks.{IsValid, count_clear}
use velox_os.Mm.Pmm.Alloc.{AllocSpec, pmm_try_alloc_page_phys-AllocSpec}
use velox_os.Mm.Pmm.Free.{free-pmm_try_alloc}

abbrev bytes : List ℕ
bytes = 251 ∷ 255 ∷ []

abbrev one_free : Pmm
one_free = record {
  bitmap = bytes;
  info = record {
    total_pages = 16;
    free_pages = 1;
    used_pages = 15;
    bitmap_bytes = 2;
    bitmap_phys_base = 4096;
    highest_physical_address = 65536;
  };
  next_search = 5;
  initialized = true;
}

bytes-IsBytes : IsBytes bytes
bytes-IsBytes = (omega arith, (omega arith, tt))

one_free-IsValid : IsValid one_free
unfolding count_clear bit_test
one_free-IsValid = record {
  bytes = (omega arith, (omega arith, tt));
  covers = omega arith;
  small = omega arith;
  free_count = refl;
  all_counted = refl;
}

alloc_example : AllocSpec one_free (pmm_try_alloc_page_phys one_free)
alloc_example = pmm_try_alloc_page_phys-AllocSpec one_free-IsValid

abbrev none_free : Pmm
none_free = (pmm_try_alloc_page_phys one_free).1

takes_page_two : pmm_try_alloc_page_phys one_free ≡ (some 8192, none_free)
unfolding pmm_try_alloc_page_phys alloc_loop mark_page_used bit_test
takes_page_two = refl

free_alloc_example :
    ((q : ℕ) → bit_test (pmm_free_page_phys 8192 none_free).bitmap q ≡ bit_test bytes q)
    × ((pmm_free_page_phys 8192 none_free).info.free_pages ≡ 1)
    × ((pmm_free_page_phys 8192 none_free).info.used_pages ≡ 15)
free_alloc_example = free-pmm_try_alloc one_free-IsValid takes_page_two
