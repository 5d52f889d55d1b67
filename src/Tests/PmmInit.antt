-- ===== src/Tests/PmmInit.antt =====
-- mm/pmm.c's start on a map of 32 usable pages and a reserved hole.
use velox_os.Prelude.{List, [], ◌∷◌, false, arith}
use velox_os.Mm.Pmm.{Pmm}
use velox_os.Mm.PmmInit.{MemoryMapEntry, usable, framebuffer, pmm_init}
use velox_os.Mm.PmmInit.Correct.{StartsOr, Boots, Cause, pmm_init_lem}

abbrev entries : List MemoryMapEntry
entries =
    record { base = 4096; len = 126976; kind = usable }
    ∷ record { base = 1048576; len = 8192; kind = framebuffer }
    ∷ []

abbrev zeroed : Pmm
zeroed = record {
  bitmap = [];
  info = record {
    total_pages = 0;
    free_pages = 0;
    used_pages = 0;
    bitmap_bytes = 0;
    bitmap_phys_base = 0;
    highest_physical_address = 0;
  };
  next_search = 0;
  initialized = false;
}

pmm_init_example :
    StartsOr (Boots 32768 40960 entries) (Cause entries) (pmm_init 32768 40960 entries zeroed)
pmm_init_example = pmm_init_lem 32768 40960 entries zeroed (omega arith) (omega arith) (
  record { base_fits = omega arith; len_fits = omega arith },
  (record { base_fits = omega arith; len_fits = omega arith }, tt),
)
