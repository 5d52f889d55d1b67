-- ===== src/Fs/Vfs/Mounts.antt =====
-- vfs_init, vfs_mount, vfs_unmount and vfs_unmount_detach of fs/vfs/vfs.c.
pub mod Laws
pub mod Table
use velox_os.Prelude.{
  ℕ, ◌+◌, ◌%◌, ◌^◌, ◌≡◌, Bool, true, false, not, ◌&&◌, ◌||◌, Option, none, some, List, [], ◌∷◌,
  length, ltb, ◌==◌, if◌then◌else◌,
}
use velox_os.Fs.Vfs.{
  ℤ, pos, err_inval, err_noent, err_notdir, err_exist, err_nomem, Bytes, Mount, Fs, Env, is_dir,
}
use velox_os.Fs.Vfs.Paths.{same_bytes, begins_with_slash, trimmed, vfs_trim_path_len}
use velox_os.Fs.Vfs.Resolve.{Resolved, node_at, failed, M, ◌>>=◌, done, empty, vfs_resolve_path}

-- `mnt->path_len == path_len && memcmp(mnt->path, path, path_len) == 0`
unfoldable pub is_mount_of : Bytes → Mount → Bool
unfolding same_bytes
is_mount_of path mnt =
    if mnt.path_len == length path then same_bytes (length path) mnt.path path else false

-- The loop of `vfs_mount` over the mounts.
unfoldable pub is_mounted : Bytes → List Mount → Bool
is_mounted path [] = false
is_mounted path (mnt ∷ mounts) = is_mount_of path mnt || is_mounted path mounts

-- What a later round found, with the mounts that the loop has passed kept.
abbrev pub past : Mount → Option (Mount × List Mount) → Option (Mount × List Mount)
past mnt none = none
past mnt (some (found, rest)) = some (found, mnt ∷ rest)

-- The loop of `vfs_unmount_detach`: the mount that it unlinks, and the list without it.
unfoldable pub detach : Bytes → List Mount → Option (Mount × List Mount)
detach path [] = none
detach path (mnt ∷ mounts) =
    let later = past mnt (detach path mounts) in
    if is_mount_of path mnt then some (mnt, mounts) else later

abbrev pub no_mounts : List Mount → Bool
no_mounts [] = true
no_mounts (mnt ∷ mounts) = false

-- The bytes of a `vfs_mount_t`.
abbrev pub mount_size : ℕ
mount_size = 32

module _ (e : Env) where
  open e use {Heap, kmalloc, kfree}

  unfoldable pub vfs_init : Fs Heap → Fs Heap
  vfs_init s = record s { mounts = [] }

  -- `vfs_mount` with the record's block allocated: `path` is the trimmed path.
  unfoldable pub link_mount : (block root : ℕ) (path : Bytes) → ℕ × Heap → Fs Heap → ℤ × Fs Heap
  link_mount block root path (text_block, h) s =
      if text_block == 0
      then (err_nomem, record s { heap = kfree block h })
      else let mnt : Mount = record {
        block = block;
        text_block = text_block;
        path = path;
        path_len = length path % 2 ^ 16;
        root = root;
      } in
        (pos 0, record s { mounts = mnt ∷ s.mounts; heap = h })

  unfoldable pub alloc_mount : (root : ℕ) (path : Bytes) → Fs Heap → ℤ × Fs Heap
  unfolding link_mount
  alloc_mount root path s =
      let (block, h) = kmalloc mount_size s.heap in
      if block == 0
      then (err_nomem, record s { heap = h })
      else link_mount block root path (kmalloc (length path + 1) h) s

  -- What the resolved mount point decides.
  unfoldable pub mount_at : (root : ℕ) (path : Bytes) → Resolved → M (Fs Heap) ℤ
  unfolding alloc_mount
  mount_at root path (failed rc) s = done rc s
  mount_at root path (node_at mp) s =
      if not (is_dir (s.nodes mp).type) then done err_notdir s else some (alloc_mount root path s)

  -- `vfs_mount` past its first test.
  unfoldable pub mount_trimmed : (fuel root : ℕ) (path : Bytes) → M (Fs Heap) ℤ
  unfolding mount_at is_mounted vfs_trim_path_len trimmed
  mount_trimmed fuel root path s =
      if vfs_trim_path_len path == 0
      then done err_inval s
      else if is_mounted (trimmed path) s.mounts
      then done err_exist s
      else if ltb 1 (vfs_trim_path_len path) && not (no_mounts s.mounts)
      then (vfs_resolve_path e fuel (some path) >>= mount_at root (trimmed path)) s
      else some (alloc_mount root (trimmed path) s)

  -- `none` is the NULL path, and 0 the NULL root.
  unfoldable pub vfs_mount : (fuel root : ℕ) → Option Bytes → M (Fs Heap) ℤ
  unfolding mount_trimmed begins_with_slash
  vfs_mount fuel root none s = done err_inval s
  vfs_mount fuel root (some path) s =
      if (root == 0) || not (begins_with_slash path)
      then done err_inval s
      else mount_trimmed fuel root path s

  -- The unlinked mount is freed, its path first.
  unfoldable pub free_mount : Option (Mount × List Mount) → Fs Heap → ℤ × ℕ × Fs Heap
  free_mount none s = (err_noent, 0, s)
  free_mount (some (mnt, rest)) s = (
    pos 0,
    mnt.root,
    record s { mounts = rest; heap = kfree mnt.block (kfree mnt.text_block s.heap) },
  )

  -- With the root that it hands back, 0 on an error.
  unfoldable pub vfs_unmount_detach : Option Bytes → Fs Heap → ℤ × ℕ × Fs Heap
  unfolding free_mount detach begins_with_slash trimmed
  vfs_unmount_detach none s = (err_inval, 0, s)
  vfs_unmount_detach (some path) s =
      if not (begins_with_slash path)
      then (err_inval, 0, s)
      else free_mount (detach (trimmed path) s.mounts) s

  unfoldable pub vfs_unmount : Option Bytes → Fs Heap → ℤ × Fs Heap
  unfolding vfs_unmount_detach
  vfs_unmount path s = let (rc, root, s') = vfs_unmount_detach path s in (rc, s')
