-- ===== src/Fs.antt =====
-- The file systems, `fs/`: the virtual file system layer that the others plug into.
pub mod Vfs
pub mod Gpt
pub mod Fat32
pub mod Fat32Vfs
