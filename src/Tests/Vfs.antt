-- ===== src/Tests/Vfs.antt =====
-- A small tree: the root directory 10 holds the directory 20, "mnt", and the file 30, "a".
use velox_os.Prelude.{◌⊎◌, ◌≢◌, ℕ, ◌+◌, ◌≡◌, refl, none, some, [], ◌∷◌, arith, ◌==◌, if◌then◌else◌}
use velox_os.Fs.Vfs.{pos, Bytes, Node, Mount, Fs, Ops, Env, err_notdir}
use velox_os.Fs.Vfs.Find.{vfs_find_mount_for_path}
use velox_os.Fs.Vfs.Find.Longest.{IsMount, Longest, vfs_find_mount_for_path-Longest}
use velox_os.Fs.Vfs.Mounts.{is_mount_of, vfs_mount, vfs_unmount_detach}
use velox_os.Fs.Vfs.Mounts.Laws.{
  vfs_mount-IsTable, vfs_unmount_detach-vfs_mount, vfs_resolve_path-vfs_mount,
}
use velox_os.Fs.Vfs.Mounts.Table.{IsTable}
use velox_os.Fs.Vfs.Nodes.{vfs_add_child, vfs_find_child, vfs_strcmp_eq}
use velox_os.Fs.Vfs.Nodes.Children.{vfs_find_child-vfs_add_child}
use velox_os.Fs.Vfs.Paths.{begins_with_slash, vfs_path_is_prefix, vfs_skip_slashes, trimmed}
use velox_os.Fs.Vfs.Resolve.{node_at, failed, vfs_lookup_child, vfs_resolve_path}
use velox_os.Fs.Vfs.Resolve.Lookup.{
  resolve_segments, vfs_resolve_path-segments, vfs_resolve_path-append_slash,
}

-- A heap that counts: blocks are never used again. No driver has an entry.
abbrev no_ops : Ops (Fs ℕ)
no_ops = record {
  open_op = none;
  close_op = none;
  read_op = none;
  write_op = none;
  readdir_op = none;
  lookup_op = none;
  stat_op = none;
}

abbrev pub env : Env
env = record {
  Heap = ℕ;
  kmalloc = λ size h. (h, h + size);
  kfree = λ block h. h;
  ops_at = λ a. no_ops;
}

abbrev plain : Bytes → (type first next : ℕ) → Node
plain text type first next = record {
  name = 5;
  text = text;
  name_len = 3;
  type = type;
  flags = 0;
  size = 0;
  ops = 0;
  payload = 0;
  parent = 0;
  first_child = first;
  next_sibling = next;
}

abbrev mnt_path : Bytes
mnt_path = b'/' ∷ b'm' ∷ b'n' ∷ b't' ∷ []

abbrev nodes : ℕ → Node
nodes a =
    if a == 10
    then plain [] 2 20 0
    else if a == 20
    then plain (b'm' ∷ b'n' ∷ b't' ∷ []) 2 0 30
    else plain (b'a' ∷ []) 1 0 0

abbrev root_mount : Mount
root_mount = record { block = 1; text_block = 2; path = b'/' ∷ []; path_len = 1; root = 10 }

abbrev fs : Fs ℕ
fs = record { mounts = root_mount ∷ []; nodes = nodes; heap = 1000 }

abbrev new_mount : Mount
new_mount = record { block = 1000; text_block = 1032; path = mnt_path; path_len = 4; root = 40 }

abbrev mounted : Fs ℕ
mounted = record { mounts = new_mount ∷ root_mount ∷ []; nodes = nodes; heap = 1037 }

mount_run : vfs_mount env 9 40 (some mnt_path) fs ≡ some (pos 0, mounted)
unfolding vfs_mount is_mount_of vfs_resolve_path vfs_find_child begins_with_slash vfs_path_is_prefix
    vfs_skip_slashes vfs_lookup_child vfs_strcmp_eq
mount_run = refl

-- A file is no directory: "/a/x" fails, and "//mnt///" is the directory.
not_a_directory :
    vfs_resolve_path env 9 (some (b'/' ∷ b'a' ∷ b'/' ∷ b'x' ∷ [])) fs ≡ some (failed err_notdir, fs)
unfolding vfs_resolve_path vfs_find_child begins_with_slash vfs_path_is_prefix vfs_skip_slashes
    vfs_lookup_child vfs_strcmp_eq
not_a_directory = refl

slashes :
    vfs_resolve_path env 9 (some (b'/' ∷ b'/' ∷ b'm' ∷ b'n' ∷ b't' ∷ b'/' ∷ b'/' ∷ [])) fs
    ≡ some (node_at 20, fs)
unfolding vfs_resolve_path vfs_find_child begins_with_slash vfs_path_is_prefix vfs_skip_slashes
    vfs_lookup_child vfs_strcmp_eq
slashes = refl

root_mount-IsMount : IsMount root_mount
unfolding begins_with_slash
root_mount-IsMount = record { sized = refl; absolute = refl }

find_example :
    Longest mnt_path (root_mount ∷ []) (vfs_find_mount_for_path mnt_path (root_mount ∷ []))
find_example = vfs_find_mount_for_path-Longest mnt_path (root_mount ∷ []) (root_mount-IsMount, tt)

resolve_example :
    vfs_resolve_path env 9 (some mnt_path) fs
    ≡ resolve_segments env 9
        (trimmed mnt_path)
        (vfs_find_mount_for_path (trimmed mnt_path) fs.mounts)
        fs
unfolding begins_with_slash
resolve_example = vfs_resolve_path-segments env 9 mnt_path fs

append_slash_example :
    vfs_resolve_path env 9 (some (b'/' ∷ b'm' ∷ b'n' ∷ b't' ∷ b'/' ∷ [])) fs
    ≡ vfs_resolve_path env 9 (some mnt_path) fs
append_slash_example = vfs_resolve_path-append_slash env 9 b'/' (b'm' ∷ b'n' ∷ b't' ∷ []) fs

table : IsTable fs.mounts
table = (root_mount-IsMount, tt, tt)

mount_example : IsTable mounted.mounts
mount_example =
    vfs_mount-IsTable env 9 (λ a dir name s t c f h k. cc) 40 mnt_path (omega arith) fs mounted
      (pos 0) table mount_run

unmount_example :
    ((vfs_unmount_detach env (some mnt_path) mounted).0 ≡ pos 0)
    × ((vfs_unmount_detach env (some mnt_path) mounted).1 ≡ 40)
    × ((vfs_unmount_detach env (some mnt_path) mounted).2.mounts ≡ fs.mounts)
    × ((vfs_unmount_detach env (some mnt_path) mounted).2.nodes ≡ mounted.nodes)
unmount_example =
    vfs_unmount_detach-vfs_mount env 9 (λ a dir name s t c f h k. cc) 40 mnt_path (omega arith) fs
      mounted mount_run

resolve_mounted_example :
    vfs_resolve_path env 9 (some mnt_path) mounted ≡ some (node_at 40, mounted)
resolve_mounted_example =
    vfs_resolve_path-vfs_mount env 9 (λ a dir name s t c f h k. cc) 40 mnt_path (omega arith) fs
      mounted table mount_run

-- The node 50 is added below the root.
abbrev with_child : Fs ℕ
with_child = (vfs_add_child 10 50 fs).1

find_child_example :
    (((with_child.nodes 50).text ≡ b'b' ∷ [])
      × (vfs_find_child 9 with_child.nodes 10 (b'b' ∷ []) ≡ some 50))
    ⊎ (((with_child.nodes 50).text ≢ b'b' ∷ [])
        × (vfs_find_child 9 with_child.nodes 10 (b'b' ∷ [])
            ≡ vfs_find_child 9 fs.nodes 10 (b'b' ∷ [])))
unfolding vfs_add_child
find_child_example =
    vfs_find_child-vfs_add_child 10 50 (20 ∷ 30 ∷ []) fs with_child refl
      (refl, omega arith, (refl, omega arith, refl)) (omega arith, (omega arith, tt)) 9 (b'b' ∷ [])
      (omega arith) (omega arith)
