-- ===== src/Arch.antt =====
-- arch/x86_64: the dispatch of interrupts, and the keyboard.
pub mod Irq
pub mod Keyboard
