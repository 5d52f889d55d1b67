-- ===== src/Mm.antt =====
-- mm/: the page-frame allocator and the allocators above it.
pub mod Bitmap
pub mod Pmm
pub mod Paging
pub mod PmmInit
pub mod Ranges
pub mod Vmalloc
pub mod Frames
pub mod Kmalloc
