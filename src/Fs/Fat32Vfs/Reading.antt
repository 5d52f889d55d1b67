-- ===== src/Fs/Fat32Vfs/Reading.antt =====
-- Reading a file of a FAT volume through the virtual file system, fs/vfs/fat32_vfs.c.
use velox_os.Prelude.{ℕ, ◌≡◌, ◌≢◌, refl, false, Option, List, ◌<◌, ◌+◌, ◌==◌, length, arith}
use velox_os.Prelude.Words.{u64}
use velox_os.Fs.Vfs.{pos, Bytes, File}
use velox_os.Fs.Vfs.Paths.{take, drop}
use velox_os.Fs.Vfs.Files.{advance, read_with, vfs_read}
use velox_os.Fs.Gpt.{Gpt}
use velox_os.Fs.Fat32.Files.Content.{Chain, content, fat32_read_file_at-content}
use velox_os.Fs.Fat32Vfs.{Inode, fat32_file_ops, fat32_vfs_read}
use velox_os.Fs.Fat32Vfs.Tree.{State, memory, inode_of, fat_env}

module _ (device : ℕ → ℕ → Option Bytes) (g : Gpt) (rounds fuel : ℕ) {H : Type 0}
    (malloc : ℕ → H → ℕ × H) (free : ℕ → H → H) where
  abbrev St : Type 0
  St = State device g rounds fuel malloc free

  -- The part of a file that a read at its position takes.
  abbrev pub window : Inode → (bufs : List Bytes) → File → (len : ℕ) → Bytes
  window inode bufs file len = take len (drop file.position (take inode.size (content bufs)))

  -- vfs_read of an open file whose node is of the FAT driver and has an inode, at a chain of
  -- clusters that can be read and ends, with memory for a cluster, returns the bytes of the file from
  -- the position on, `len` of them or as many as there are, and their count, and advances the
  -- position by that in 64 bits.
  pub vfs_read-content :
      (file : File) (len : ℕ) (inode : Inode) (bufs : List Bytes) (s : St)
      → file.node ≢ 0
      → (s.nodes file.node).ops ≡ fat32_file_ops
      → (s.nodes file.node).payload ≢ 0
      → inode_of device g rounds fuel malloc free s (s.nodes file.node).payload ≡ inode
      → Chain device g inode.vol inode.first_cluster bufs
      → 0 < inode.vol.bytes_per_cluster
      → (malloc inode.vol.bytes_per_cluster s.heap.blocks).0 ≢ 0
      → (let run = vfs_read (fat_env device g rounds fuel malloc free) fuel file len s in
          let got = window inode bufs file len in
          (run.0 ≡ pos (length got))
          × (run.1 ≡ got)
          × (run.2 ≡ record file { position = u64 (file.position + length got) }))
  unfolding vfs_read read_with advance fat32_vfs_read
  vfs_read-content file len inode bufs s named ops held at chain p mem =
      let is_named : (file.node == 0) ≡ false = ground arith in
      let is_held : ((s.nodes file.node).payload == 0) ≡ false = ground arith in
      let got =
        fat32_read_file_at-content device g inode.vol (memory device g rounds fuel malloc free)
          inode.first_cluster inode.size file.position len bufs s.heap chain p mem in
      rw (is_named, ops, is_held, at, got) (refl, refl, refl)
