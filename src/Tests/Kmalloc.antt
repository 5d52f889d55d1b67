-- ===== src/Tests/Kmalloc.antt =====
-- mm/kmalloc.c with one free block of 1024 bytes, at 65536.
use velox_os.Prelude.{inl, inr, ℕ, ◌+◌, ◌*◌, refl, true, List, [], ◌∷◌, arith}
use velox_os.Mm.Kmalloc.{Heap, first_block, kmalloc, kmalloc_magic_free}
use velox_os.Mm.Kmalloc.Fit.{Links, FitSpec, first_block-FitSpec}
use velox_os.Mm.Kmalloc.FreeList.{IsFreeList}
use velox_os.Mm.Kmalloc.Alloc.{KmallocSpec, kmalloc-KmallocSpec}

abbrev heap : Heap
heap = record {
  blocks = λ a. record {
    magic = kmalloc_magic_free;
    free = 1;
    size = 1024;
    next_phys = 0;
    next_free = 0;
    prev_free = 0;
  };
  free_list = 65536;
  initialized = true;
}

abbrev listed : List ℕ
listed = 65536 ∷ []

-- Pools come from 1048576 on.
abbrev vmalloc : ℕ → ℕ × ℕ
vmalloc k = (1048576 + k * 8388608, k + 1)

heap-Links : Links heap.blocks 0 65536 listed
heap-Links = (refl, omega arith, refl, refl)

heap-IsFreeList : IsFreeList heap listed
heap-IsFreeList = (heap-Links, (tt, tt), (refl, tt))

first_block_example : FitSpec heap.blocks 112 listed (first_block 1 112 65536 heap.blocks)
first_block_example = first_block-FitSpec heap.blocks 112 1 0 65536 listed heap-Links (omega arith)

kmalloc_example : KmallocSpec heap listed 2000 1048576 (kmalloc vmalloc 2 2000 heap 0)
kmalloc_example =
    kmalloc-KmallocSpec vmalloc heap 0 listed 2 2000 refl heap-IsFreeList (omega arith)
      (omega arith, tt) ((inl (omega arith), tt), tt) (inr (inl (omega arith), tt)) (omega arith)
      (omega arith) (omega arith)
