-- ===== src/Fs/Vfs.antt =====
-- The data of the virtual file system, fs/vfs/vfs.h and the top of fs/vfs/vfs.c.
--
-- A pointer is its address and NULL is 0; a C string is the list of its bytes below the NUL, and a
-- pointer with a length the list of those bytes. Out parameters are results. The nodes live in a
-- store by address; the heap of kernel/mm and the tables of driver functions are the interface
-- `Env`, which the operations take.
pub mod Paths
pub mod Find
pub mod Nodes
pub mod Resolve
pub mod Mounts
pub mod Files
use velox_os.Prelude.{ℕ, suc, ◌==◌, Bool, not, Option, List, bit_and}

-- `int` and `vfs_ssize_t`: `negsuc n` is -(n + 1).
pub data ℤ : Type 0 where
  pos : ℕ → ℤ
  negsuc : ℕ → ℤ

abbrev pub err_noent : ℤ
err_noent = negsuc 1

abbrev pub err_io : ℤ
err_io = negsuc 4

abbrev pub err_nomem : ℤ
err_nomem = negsuc 11

abbrev pub err_exist : ℤ
err_exist = negsuc 16

abbrev pub err_notdir : ℤ
err_notdir = negsuc 19

abbrev pub err_inval : ℤ
err_inval = negsuc 21

abbrev pub err_nametoolong : ℤ
err_nametoolong = negsuc 35

abbrev pub err_notsup : ℤ
err_notsup = negsuc 94

abbrev pub vfs_name_max : ℕ
vfs_name_max = 255

abbrev pub slash : ℕ
slash = 47

abbrev pub Bytes : Type 0
Bytes = List ℕ

-- `vfs_node_t`; `text` is what `name` points to.
pub record Node : Type 0 where
  pub name : ℕ
  pub text : Bytes
  pub name_len : ℕ
  pub type : ℕ
  pub flags : ℕ
  pub size : ℕ
  pub ops : ℕ
  pub payload : ℕ
  pub parent : ℕ
  pub first_child : ℕ
  pub next_sibling : ℕ

-- `vfs_mount_t`: `block` and `text_block` are the addresses of the record and of its path.
pub record Mount : Type 0 where
  pub block : ℕ
  pub text_block : ℕ
  pub path : Bytes
  pub path_len : ℕ
  pub root : ℕ

-- `vfs_file_t`, at the address `block`.
pub record File : Type 0 where
  pub block : ℕ
  pub node : ℕ
  pub position : ℕ
  pub flags : ℕ
  pub private_data : ℕ

pub record Stat : Type 0 where
  pub type : ℕ
  pub size : ℕ

pub record Dirent : Type 0 where
  pub name : Bytes
  pub type : ℕ

-- The mounts, the newest first as `g_mounts` links them, the nodes by address, and the heap.
pub record Fs (Heap : Type 0) : Type 0 where
  pub mounts : List Mount
  pub nodes : ℕ → Node
  pub heap : Heap

-- `vfs_node_ops_t` on a state `S`; `none` is a NULL entry. `ioctl` has no caller.
-- A `readdir`, `lookup` or `stat` whose result is `none` does not return.
pub record Ops (S : Type 0) : Type 0 where
  pub open_op : Option (File → ℕ → S → ℤ × File × S)
  pub close_op : Option (File → S → ℤ × S)
  pub read_op : Option (File → ℕ → S → ℤ × Bytes × File × S)
  pub write_op : Option (File → Bytes → S → ℤ × File × S)
  pub readdir_op : Option (ℕ → ℕ → S → Option ((ℤ × Dirent) × S))
  pub lookup_op : Option (ℕ → Bytes → S → Option (ℕ × S))
  pub stat_op : Option (ℕ → S → Option ((ℤ × Stat) × S))

-- What lies outside fs/vfs: `kmalloc` and `kfree`, and the driver's table at each address (0 is
-- the NULL `ops`, whose table is never read).
pub record Env : Type 1 where
  pub Heap : Type 0
  pub kmalloc : ℕ → Heap → ℕ × Heap
  pub kfree : ℕ → Heap → Heap
  pub ops_at : ℕ → Ops (Fs Heap)

-- `type & VFS_NODE_DIR`
abbrev pub is_dir : ℕ → Bool
is_dir type = not (bit_and type 2 == 0)
