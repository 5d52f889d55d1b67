-- ===== src/Fs/Vfs/Mounts/Laws.antt =====
-- Mounting, against the invariant of the table, unmounting and path lookup.
use mathlib.Core.Path.{subst}
use mathlib.Core.List.{append-nil}
use velox_os.Prelude.{
  ℕ, ◌^◌, ◌≤◌, ◌<◌, ◌≡◌, refl, sym, ap, ◌∙◌, ◌≢◌, inl, inr, true, false, Option, none, some, List,
  [], ◌∷◌, All, length, length-append, ◌==◌, arith,
}
use velox_os.Fs.Vfs.{ℤ, pos, Bytes, Mount, Fs, Env}
use velox_os.Fs.Vfs.Find.{vfs_find_mount_for_path}
use velox_os.Fs.Vfs.Find.Longest.{
  IsMount, Covers, Longest, All-Member, single, vfs_find_mount_for_path-Longest,
}
use velox_os.Fs.Vfs.Paths.{drop, begins_with_slash, trimmed}
use velox_os.Fs.Vfs.Paths.Laws.{length-drop_all}
use velox_os.Fs.Vfs.Mounts.{is_mount_of, detach, vfs_mount, vfs_unmount_detach}
use velox_os.Fs.Vfs.Mounts.Table.{
  IsTable, IsNew, Mounted, All-IsMount, All-not_mounted, length-trimmed, begins-length,
  begins-trimmed, is_mount_lem, nil_of_length, vfs_mount-Mounted,
}
use velox_os.Fs.Vfs.Resolve.{node_at, vfs_resolve_path}
use velox_os.Fs.Vfs.Resolve.Kept.{KeepsMounts}
use velox_os.Fs.Vfs.Resolve.Lookup.{descend, resolve_segments, vfs_resolve_path-segments}
use velox_os.Fs.Vfs.Resolve.Segments.{segments, segments-nil}

Covers-own : (path : Bytes) (m : Mount) → m.path ≡ path → Covers path m
Covers-own path m e = inr ([], sym e ∙ sym (append-nil m.path), inl refl)

-- A mount that covers a path and is as long has that path.
eq_of_Covers :
    (path : Bytes) (m : Mount)
    → begins_with_slash path ≡ true
    → length path ≤ length m.path
    → Covers path m
    → m.path ≡ path
eq_of_Covers path m b l (inl (e, _)) =
    let n : length path ≤ 1 = omega (arith, l, ap length e) in
    e ∙ sym (single path b (omega (arith, begins-length path b)))
eq_of_Covers path m b l (inr (rest, e, _)) =
    sym (nil_of_length m.path rest (omega (arith, l, ap length e, length-append {0} m.path rest)))
    ∙ sym e

-- A mount with the path itself is found before all others, when no other has that path.
find_new :
    (path : Bytes) (m : Mount) (ms : List Mount) (r : Option Mount)
    → begins_with_slash path ≡ true
    → m.path ≡ path
    → All (λ x. x.path ≢ path) ms
    → Longest path (m ∷ ms) r
    → r ≡ some m
unfolding Longest
find_new path m ms none b e other h = absurd (h.0 (Covers-own path m e))
find_new path m ms (some x) b e other (inl k, c, h) = ap some k
find_new path m ms (some x) b e other (inr k, c, h) =
    let long : length path ≤ length x.path =
      omega (arith, h.0 (Covers-own path m e), ap length e) in
    absurd (All-Member (λ x. x.path ≢ path) ms other k (eq_of_Covers path x b long c))

IsMount-of_new :
    (root : ℕ) (path : Bytes) (m : Mount)
    → begins_with_slash path ≡ true
    → length path < 2 ^ 16
    → IsNew root (trimmed path) m
    → IsMount m
IsMount-of_new root path m b l n = record {
  sized = omega (arith, n.cut, length-trimmed path, ap length n.at_path);
  absolute = ap begins_with_slash n.at_path ∙ begins-trimmed path b;
}

own_root :
    (e : Env) (fuel root : ℕ) (path : Bytes) (m : Mount) (s : Fs e.Heap)
    → m.root ≡ root
    → (root == 0) ≡ false
    → m.path_len ≡ length path
    → resolve_segments e fuel path (some m) s ≡ some (node_at root, s)
unfolding resolve_segments descend
own_root e fuel root path m s r z l =
    let nz : (m.root == 0) ≡ false = ap (λ n. n == 0) r ∙ z in
    let gone : drop m.path_len path ≡ [] = ap (λ n. drop n path) l ∙ length-drop_all path in
    rw nz (
      ap (λ p. descend e fuel m.root (segments p) s) gone
      ∙ ap (λ p. descend e fuel m.root p s) segments-nil
      ∙ ap (λ n. some (node_at n, s)) r)

module _ (e : Env) (fuel : ℕ) (keeps : KeepsMounts e) (root : ℕ) (path : Bytes)
    (short : length path < 2 ^ 16) (s t : Fs e.Heap) where
  -- Whatever `vfs_mount` answers on a path of less than 65,536 bytes, the mounts stay well-formed
  -- and no two of them have the same path.
  pub vfs_mount-IsTable :
      (rc : ℤ)
      → IsTable s.mounts
      → vfs_mount e fuel root (some path) s ≡ some (rc, t)
      → IsTable t.mounts
  vfs_mount-IsTable rc v h =
      elim (subst (Mounted e root path s.mounts) h (vfs_mount-Mounted e fuel keeps root path s)) [
        | inl (_, same) ↦ rw same v
        | inr (m, _, more, n, b, _, free) ↦ rw more (
          IsMount-of_new root path m b short n,
          subst (λ p. All (λ x. x.path ≢ p) s.mounts) (sym n.at_path)
              (All-not_mounted (trimmed path) s.mounts v free),
          v,
        )
      ]

  -- A mount that succeeded is undone by unmounting the same path: the root comes back, and the
  -- mounts are those of before.
  pub vfs_unmount_detach-vfs_mount :
      vfs_mount e fuel root (some path) s ≡ some (pos 0, t)
      → ((vfs_unmount_detach e (some path) t).0 ≡ pos 0)
        × ((vfs_unmount_detach e (some path) t).1 ≡ root)
        × ((vfs_unmount_detach e (some path) t).2.mounts ≡ s.mounts)
        × ((vfs_unmount_detach e (some path) t).2.nodes ≡ t.nodes)
  unfolding vfs_unmount_detach detach
  vfs_unmount_detach-vfs_mount h =
      elim (subst (Mounted e root path s.mounts) h (vfs_mount-Mounted e fuel keeps root path s)) [
        | inl (bad, _) ↦ absurd bad
        | inr (m, _, more, n, b, _, free) ↦
            let hit : is_mount_of (trimmed path) m ≡ true =
              is_mount_lem (trimmed path) m (IsMount-of_new root path m b short n).sized
                n.at_path in
            rw (b, more, detach) (rw hit (refl, n.at_root, refl, refl))
      ]

  -- After a mount that succeeded on a well-formed table, the path resolves to the mounted root.
  pub vfs_resolve_path-vfs_mount :
      IsTable s.mounts
      → vfs_mount e fuel root (some path) s ≡ some (pos 0, t)
      → vfs_resolve_path e fuel (some path) t ≡ some (node_at root, t)
  vfs_resolve_path-vfs_mount v h =
      elim (subst (Mounted e root path s.mounts) h (vfs_mount-Mounted e fuel keeps root path s)) [
        | inl (bad, _) ↦ absurd bad
        | inr (m, _, more, n, b, z, free) ↦
            let w : IsMount m = IsMount-of_new root path m b short n in
            let found : vfs_find_mount_for_path (trimmed path) (m ∷ s.mounts) ≡ some m =
              find_new (trimmed path) m s.mounts _ (begins-trimmed path b) n.at_path
                (All-not_mounted (trimmed path) s.mounts v free)
                (vfs_find_mount_for_path-Longest (trimmed path) (m ∷ s.mounts)
                  (w, All-IsMount s.mounts v)) in
            rw (vfs_resolve_path-segments e fuel path t, b, more, found)
              (own_root e fuel root (trimmed path) m _ n.at_root z (w.sized ∙ ap length n.at_path))
      ]
