-- ===== src/Fs/Vfs/Find.antt =====
-- vfs_find_mount_for_path of fs/vfs/vfs.c.
pub mod Longest
use velox_os.Prelude.{
  ℕ, Bool, true, false, ◌&&◌, Option, none, some, List, [], ◌∷◌, leb, if◌then◌else◌,
}
use velox_os.Fs.Vfs.{Bytes, Mount}
use velox_os.Fs.Vfs.Paths.{vfs_path_is_prefix}

-- The loop over the mounts, with `best` and `best_len`.
unfoldable pub find_loop : Bytes → List Mount → Option Mount → ℕ → Option Mount
find_loop path [] best best_len = best
find_loop path (mnt ∷ mounts) best best_len =
    let taken = find_loop path mounts (some mnt) mnt.path_len in
    let passed = find_loop path mounts best best_len in
    if vfs_path_is_prefix path mnt && leb best_len mnt.path_len then taken else passed

unfoldable pub vfs_find_mount_for_path : Bytes → List Mount → Option Mount
unfolding find_loop
vfs_find_mount_for_path path mounts = find_loop path mounts none 0
