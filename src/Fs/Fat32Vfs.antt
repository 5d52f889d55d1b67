-- ===== src/Fs/Fat32Vfs.antt =====
-- The driver that joins FAT32 to the virtual file system, fs/vfs/fat32_vfs.c.
--
-- The inodes that the nodes' `data` points to live in a store by address beside the heap, and the
-- tables fat32_dir_ops and fat32_file_ops are at two fixed addresses. A dir_cache is the list of its
-- entries with the address of its block.
pub mod Tree
pub mod Keeps
pub mod Mounting
pub mod Reading
use mathlib.Core.Option.{map as option_map}
use velox_os.Prelude.{
  ℕ, zero, suc, ◌+◌, ◌*◌, ◌%◌, ◌^◌, Bool, true, false, not, ◌&&◌, Option, none, some, List, [], ◌∷◌,
  length, get_or, ltb, leb, ◌==◌, if◌then◌else◌, bit_and,
}
use velox_os.Fs.Vfs.{
  ℤ, pos, negsuc, err_io, err_nomem, err_nametoolong, err_notsup, vfs_name_max, Bytes, Node, File,
  Stat, Dirent, Fs, Ops, Env,
}
use velox_os.Fs.Vfs.Mounts.{vfs_mount, vfs_unmount_detach}
use velox_os.Fs.Vfs.Nodes.{put_node, vfs_node_create, vfs_node_destroy, vfs_add_child}
use velox_os.Fs.Vfs.Resolve.{M, ◌>>=◌, done}
use velox_os.Fs.Gpt.{Gpt}
use velox_os.Fs.Fat32.{Vol, no_vol}
use velox_os.Fs.Fat32.Dirs.{FatDirent, fat32_read_dir}
use velox_os.Fs.Fat32.Files.{fat32_read_file_at}
use velox_os.Fs.Fat32.Lookup.{
  Outcome, found, code, fat32_name_equal_ci, fat32_lookup, fat32_readdir_index,
}

-- `fat32_vfs_inode_t`
pub record Inode : Type 0 where
  pub vol : Vol
  pub first_cluster : ℕ
  pub size : ℕ
  pub attributes : ℕ
  pub dir_cache : ℕ
  pub cached : List FatDirent
  pub dir_cache_loaded : Bool

pub record FatHeap (H : Type 0) : Type 0 where
  pub blocks : H
  pub inodes : ℕ → Inode

abbrev pub fat32_dir_ops : ℕ
fat32_dir_ops = 1

abbrev pub fat32_file_ops : ℕ
fat32_file_ops = 2

-- The bytes of a `fat32_dirent_t` and of a `fat32_vfs_inode_t`.
abbrev pub dirent_size : ℕ
dirent_size = 280

abbrev pub inode_size : ℕ
inode_size = 48

abbrev pub node_type : (attributes : ℕ) → ℕ
node_type attributes = if bit_and attributes 0x10 == 0 then 1 else 2

unfoldable pub find_sibling_ci : (fuel : ℕ) → (ℕ → Node) → (child : ℕ) → Bytes → Option ℕ
find_sibling_ci zero nodes child name = none
find_sibling_ci (suc fuel) nodes child name =
    let next = find_sibling_ci fuel nodes (nodes child).next_sibling name in
    if child == 0
    then some 0
    else if not ((nodes child).name == 0) && fat32_name_equal_ci (nodes child).text name
    then some child
    else next

-- The first entry of the cache under a name.
unfoldable pub find_cached : Bytes → List FatDirent → Outcome FatDirent
find_cached name [] = code (negsuc 1)
find_cached name (d ∷ ds) = if fat32_name_equal_ci d.name name then found d else find_cached name ds

-- An inode without a cache.
abbrev pub new_inode : Vol → (first_cluster size attributes : ℕ) → Inode
new_inode vol first_cluster size attributes = record {
  vol = vol;
  first_cluster = first_cluster;
  size = size;
  attributes = attributes;
  dir_cache = 0;
  cached = [];
  dir_cache_loaded = false;
}

module _ (device : ℕ → ℕ → Option Bytes) (g : Gpt) (rounds fuel : ℕ) {H : Type 0}
    (malloc : ℕ → H → ℕ × H) (free : ℕ → H → H) where
  abbrev pub S : Type 0
  S = Fs (FatHeap H)

  -- The heap alone; its drivers are not called.
  abbrev pub heap_env : Ops S → Ops S → Env
  heap_env dir_ops file_ops = record {
    Heap = FatHeap H;
    kmalloc = λ size h. ((malloc size h.blocks).0, record h { blocks = (malloc size h.blocks).1 });
    kfree = λ block h. record h { blocks = free block h.blocks };
    ops_at = λ a. if a == fat32_dir_ops then dir_ops else file_ops;
  }

  abbrev pub no_ops : Ops S
  no_ops = record {
    open_op = none;
    close_op = none;
    read_op = none;
    write_op = none;
    readdir_op = none;
    lookup_op = none;
    stat_op = none;
  }

  abbrev pub base : Env
  base = heap_env no_ops no_ops

  abbrev pub with_heap : {A : Type 0} → S → A × FatHeap H → A × S
  with_heap s (a, h) = (a, record s { heap = h })

  -- A run on the heap, in the whole state.
  abbrev pub on_heap : {A : Type 0} → M (FatHeap H) A → M S A
  on_heap m s = option_map (with_heap s) (m s.heap)

  abbrev pub inode_at : S → ℕ → Inode
  inode_at s p = s.heap.inodes p

  unfoldable pub put_inode : ℕ → Inode → S → S
  put_inode p i s = record s {
    heap = record (s.heap) { inodes = λ q. if p == q then i else s.heap.inodes q };
  }

  unfoldable pub kfree_block : ℕ → S → S
  kfree_block block s = record s { heap = base.kfree block s.heap }

  unfoldable pub fat32_vfs_open : File → (flags : ℕ) → S → ℤ × File × S
  fat32_vfs_open file flags s = (pos 0, file, s)

  unfoldable pub fat32_vfs_write : File → Bytes → S → ℤ × File × S
  fat32_vfs_write file buf s = (err_notsup, file, s)

  unfoldable pub fat32_vfs_read : File → (len : ℕ) → S → ℤ × Bytes × File × S
  unfolding fat32_read_file_at
  fat32_vfs_read file len s =
      let p = (s.nodes file.node).payload in
      let inode = inode_at s p in
      let ((rc, buf), h) =
        fat32_read_file_at device g base inode.vol inode.first_cluster inode.size file.position len
          s.heap in
      if p == 0 then (err_io, [], file, s) else (rc, buf, file, record s { heap = h })

  -- What a filled buffer of `room` entries decides; `larger` tries twice the size.
  unfoldable pub keep_cache : (p block room : ℕ) → (larger : M S ℤ) → Bool × List FatDirent → M S ℤ
  unfolding kfree_block put_inode
  keep_cache p block room larger (false, out) s = done err_io (kfree_block block s)
  keep_cache p block room larger (true, out) s =
      if ltb (length out) room
      then done (pos 0) (
          put_inode p
            (record (inode_at s p) { dir_cache = block; cached = out; dir_cache_loaded = true }) s)
      else larger (kfree_block block s)

  unfoldable pub fill_cache : (p room : ℕ) → (larger : M S ℤ) → ℕ × FatHeap H → M S ℤ
  unfolding keep_cache fat32_read_dir
  fill_cache p room larger (block, h) s =
      let s' : S = record s { heap = h } in
      let inode = inode_at s p in
      if block == 0
      then done err_nomem s'
      else (on_heap (fat32_read_dir device g inode.vol rounds base inode.first_cluster room)
            >>= keep_cache p block room larger)
          s'

  -- The loop that doubles `room` from 64 until it wraps to 0, in the 26th round.
  unfoldable pub cache_loop : (tries room p : ℕ) → M S ℤ
  unfolding fill_cache
  cache_loop zero room p s = done err_nomem s
  cache_loop (suc tries) room p s =
      fill_cache p room (cache_loop tries ((room * 2) % 2 ^ 32) p)
        (base.kmalloc (dirent_size * room) s.heap) s

  unfoldable pub fat32_vfs_load_dir_cache : (p : ℕ) → M S ℤ
  unfolding cache_loop
  fat32_vfs_load_dir_cache p s =
      let load = cache_loop 26 64 p s in
      if (inode_at s p).dir_cache_loaded then done (pos 0) s else load

  -- The entry as `vfs_dirent_t`.
  abbrev pub no_dirent : Dirent
  no_dirent = record { name = []; type = 0 }

  unfoldable pub entry_out : FatDirent → ℤ × Dirent
  entry_out d =
      if ltb vfs_name_max (length d.name)
      then (err_nametoolong, no_dirent)
      else (pos 1, record { name = d.name; type = node_type d.attributes })

  abbrev pub indexed : ℤ × Option FatDirent → ℤ × Dirent
  indexed (negsuc n, out) = (negsuc n, no_dirent)
  indexed (pos n, none) = (pos 0, no_dirent)
  indexed (pos n, some d) = entry_out d

  unfoldable pub nth_cached : List FatDirent → (index : ℕ) → ℤ × Dirent
  unfolding entry_out
  nth_cached [] index = (pos 0, no_dirent)
  nth_cached (d ∷ ds) zero = entry_out d
  nth_cached (d ∷ ds) (suc i) = nth_cached ds i

  unfoldable pub read_indexed : (p index : ℕ) → M S (ℤ × Dirent)
  unfolding nth_cached fat32_readdir_index
  read_indexed p index s =
      let inode = inode_at s p in
      let slow =
        (on_heap (fat32_readdir_index device g inode.vol rounds base inode.first_cluster index)
            >>= λ r. done (indexed r))
          s in
      if inode.dir_cache_loaded then done (nth_cached inode.cached index) s else slow

  -- Without memory for a cache the entry is looked up on the disk.
  unfoldable pub after_load : (p index : ℕ) → ℤ → M S (ℤ × Dirent)
  unfolding read_indexed
  after_load p index (pos n) = read_indexed p index
  after_load p index (negsuc n) =
      if n == 11 then read_indexed p index else done (negsuc n, no_dirent)

  unfoldable pub fat32_vfs_readdir : (dir index : ℕ) → M S (ℤ × Dirent)
  unfolding after_load fat32_vfs_load_dir_cache
  fat32_vfs_readdir dir index s =
      let p = (s.nodes dir).payload in
      let run = (fat32_vfs_load_dir_cache p >>= after_load p index) s in
      if p == 0 then done (err_io, no_dirent) s else run
