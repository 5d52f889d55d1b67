-- ===== src/Tests.antt =====
-- The theorems applied to small states.
mod Pmm
mod PmmInit
mod Vmalloc
mod Paging
mod Kmalloc
mod Sched
mod Irq
mod Keyboard
mod Vfs
mod Gpt
mod Fat32
mod Fat32Vfs
