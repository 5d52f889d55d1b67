-- ===== src/Fs/Fat32Vfs/Mounting.antt =====
-- Mounting a FAT volume, fs/vfs/fat32_vfs.c.
use mathlib.Core.Path.{subst}
use velox_os.Prelude.{
  ℕ, zero, suc, [], ◌≡◌, sym, inl, inr, Option, none, some, length, ◌<◌, ◌^◌, ◌==◌, Bool-cases,
  Option-cases,
}
use velox_os.Fs.Vfs.{ℤ, pos, negsuc, Bytes}
use velox_os.Fs.Vfs.Mounts.{vfs_mount}
use velox_os.Fs.Vfs.Mounts.Laws.{vfs_resolve_path-vfs_mount}
use velox_os.Fs.Vfs.Mounts.Table.{IsTable, Mounted, vfs_mount-Mounted}
use velox_os.Fs.Vfs.Resolve.{node_at, vfs_resolve_path, ◌>>=◌}
use velox_os.Fs.Gpt.{Gpt}
use velox_os.Fs.Fat32.{Vol}
use velox_os.Fs.Fat32Vfs.{fat32_dir_ops, new_inode}
use velox_os.Fs.Fat32Vfs.Keeps.{fat_env-KeepsMounts, make_tree_node-mounts}
use velox_os.Fs.Fat32Vfs.Tree.{
  State, make_tree_node, mount_end, mount_root, fat32_vfs_mount, fat_env,
}

module _ (device : ℕ → ℕ → Option Bytes) (g : Gpt) (rounds fuel : ℕ) {H : Type 0}
    (malloc : ℕ → H → ℕ × H) (free : ℕ → H → H) where
  abbrev St : Type 0
  St = State device g rounds fuel malloc free

  -- The root node and its inode as the mount makes them.
  abbrev pub fat_root : Vol → St → ℕ × St
  fat_root vol s =
      make_tree_node device g rounds fuel malloc free [] 2 fat32_dir_ops 0
        (new_inode vol vol.root_cluster 0 0x10) s

  -- A success, when the run ends, leaves the path at the root.
  abbrev Opened : (root : ℕ) → (path : Bytes) → Option (ℤ × St) → Type 0
  Opened root path none = Unit
  Opened root path (some (negsuc n, t)) = Unit
  Opened root path (some (pos n, t)) =
      vfs_resolve_path (fat_env device g rounds fuel malloc free) fuel (some path) t
      ≡ some (node_at root, t)

  mount_end-Opened :
      (root : ℕ) (path : Bytes) (rc : ℤ) (s : St)
      → Opened root path (some (rc, s))
      → Opened root path (mount_end device g rounds fuel malloc free root rc s)
  unfolding mount_end
  mount_end-Opened root path (pos n) s h = h
  mount_end-Opened root path (negsuc n) s h = tt

  vfs_mount-Opened :
      (root : ℕ) (path : Bytes) (rc : ℤ) (s t : St)
      → length path < 2 ^ 16
      → IsTable s.mounts
      → vfs_mount (fat_env device g rounds fuel malloc free) fuel root (some path) s ≡ some (rc, t)
      → Opened root path (some (rc, t))
  vfs_mount-Opened root path (negsuc n) s t short v k = tt
  vfs_mount-Opened root path (pos zero) s t short v k =
      vfs_resolve_path-vfs_mount (fat_env device g rounds fuel malloc free) fuel
        (fat_env-KeepsMounts device g rounds fuel malloc free) root path short s t v k
  vfs_mount-Opened root path (pos (suc n)) s t short v k =
      let e = fat_env device g rounds fuel malloc free in
      elim (subst (Mounted e root path s.mounts) k (
        vfs_mount-Mounted e fuel (fat_env-KeepsMounts device g rounds fuel malloc free) root path
          s)) [ inl (bad, _) ↦ absurd bad | inr (m, bad, _, _, _, _, _) ↦ absurd cc ]

  mount_root-Opened :
      (path : Bytes) (root : ℕ) (s : St)
      → length path < 2 ^ 16
      → IsTable s.mounts
      → Opened root path (mount_root device g rounds fuel malloc free path (root, s))
  unfolding mount_root
  mount_root-Opened path root s short v =
      let e = fat_env device g rounds fuel malloc free in
      elim (Bool-cases (root == 0)) [
        | inl z ↦ rw z tt
        | inr z ↦ rw z (elim (Option-cases (vfs_mount e fuel root (some path) s)) [
          | inl k ↦ rw (k, ◌>>=◌) tt
          | inr ((rc, t), k) ↦
              rw (k, ◌>>=◌)
                (mount_end-Opened root path rc t (vfs_mount-Opened root path rc s t short v k))
        ])
      ]

  -- After fat32_vfs_mount returned 0 on a well-formed mount table, at a path of less than 65,536
  -- bytes, the path resolves to the root node that the mount made, with the FAT driver's lookups
  -- below the other mounts.
  pub vfs_resolve_path-fat32_vfs_mount :
      (vol : Vol) (path : Bytes) (s t : St)
      → length path < 2 ^ 16
      → IsTable s.mounts
      → fat32_vfs_mount device g rounds fuel malloc free vol path s ≡ some (pos 0, t)
      → vfs_resolve_path (fat_env device g rounds fuel malloc free) fuel (some path) t
        ≡ some (node_at (fat_root vol s).0, t)
  unfolding fat32_vfs_mount
  vfs_resolve_path-fat32_vfs_mount vol path s t short v h =
      subst (Opened (fat_root vol s).0 path) h (
        mount_root-Opened path (fat_root vol s).0 (fat_root vol s).1 short (
          subst IsTable
            (sym (make_tree_node-mounts device g rounds fuel malloc free [] 2 fat32_dir_ops 0 _ s))
            v))
