-- ===== src/Fs/Vfs/Resolve.antt =====
-- vfs_lookup_child and vfs_resolve_path of fs/vfs/vfs.c.
pub mod Kept
pub mod Lookup
pub mod Segments
use velox_os.Prelude.{
  ℕ, zero, suc, ◌+◌, ◌-◌, ◌<◌, ◌≡◌, Bool, true, false, not, ◌&&◌, ◌||◌, Option, none, some, List,
  [], ◌∷◌, length, ltb, ◌==◌, if◌then◌else◌,
}
use velox_os.Fs.Vfs.{
  ℤ, pos, negsuc, err_inval, err_noent, err_notdir, err_nametoolong, vfs_name_max, slash, Bytes,
  Mount, Fs, Ops, Env, is_dir,
}
use velox_os.Fs.Vfs.Find.{vfs_find_mount_for_path}
use velox_os.Fs.Vfs.Nodes.{vfs_find_child}
use velox_os.Fs.Vfs.Paths.{drop, vfs_skip_slashes, trimmed, vfs_trim_path_len, begins_with_slash}

-- The result of `vfs_resolve_path`: the node, or the negative code.
pub data Resolved : Type 0 where
  node_at : ℕ → Resolved
  failed : ℤ → Resolved

-- A run on the state; `none` is a loop over siblings that does not end.
abbrev pub M : Type 0 → Type 0 → Type 0
M S A = S → Option (A × S)

infixl 5 ◌>>=◌
abbrev pub ◌>>=◌ : {S A B : Type 0} → M S A → (A → M S B) → M S B
◌>>=◌ m f s = elim (m s) [ none ↦ none | some (a, s') ↦ f a s' ]

abbrev pub done : {S A : Type 0} → A → M S A
done a s = some (a, s)

-- `seg` and what follows it
unfoldable pub take_segment : Bytes → Bytes × Bytes
take_segment [] = ([], [])
take_segment (c ∷ p) =
    let (seg, rest) = take_segment p in if c == slash then ([], c ∷ p) else (c ∷ seg, rest)

abbrev pub empty : Bytes → Bool
empty [] = true
empty (c ∷ p) = false

-- `p` behind the path of the mount: `mnt->path_len` bytes, a slash below a mount other than the
-- root, and all slashes that follow
unfoldable pub below_mount : Bytes → Mount → Bytes
below_mount path mnt =
    let p = drop mnt.path_len path in
    vfs_skip_slashes (if ltb 1 mnt.path_len && begins_with_slash p then drop 1 p else p)

module _ (e : Env) (fuel : ℕ) where
  open e use {Heap, ops_at}

  abbrev pub S : Type 0
  S = Fs Heap

  abbrev pub child_found : Option ℕ → M S ℕ
  child_found none s = none
  child_found (some child) s = some (child, s)

  -- `dir->ops->lookup` where the node has one, and the child list otherwise.
  unfoldable pub lookup_with : Option (ℕ → Bytes → M S ℕ) → (dir : ℕ) (name : Bytes) → M S ℕ
  lookup_with (some lookup) dir name s = lookup dir name s
  lookup_with none dir name s = child_found (vfs_find_child fuel s.nodes dir name) s

  -- `dir->ops && dir->ops->lookup`
  abbrev pub lookup_entry : S → ℕ → Option (ℕ → Bytes → M S ℕ)
  lookup_entry s dir = if (s.nodes dir).ops == 0 then none else (ops_at (s.nodes dir).ops).lookup_op

  unfoldable pub vfs_lookup_child : (dir : ℕ) (name : Bytes) → M S ℕ
  unfolding lookup_with
  vfs_lookup_child dir name s =
      if dir == 0 then some (0, s) else lookup_with (lookup_entry s dir) dir name s

  -- After the lookup of a segment: `p` is what follows, its slashes skipped, and `next` goes on.
  unfoldable pub step_into : (node : ℕ) (p : Bytes) → M S Resolved → M S Resolved
  step_into node p next s =
      if node == 0
      then done (failed err_noent) s
      else if not (empty p) && not (is_dir (s.nodes node).type)
      then done (failed err_notdir) s
      else next s

  -- One round of the loop with its segment and the rest; `next` is the rounds that follow.
  unfoldable pub walk_segment :
      (next : ℕ → Bytes → M S Resolved) → (node : ℕ) (seg rest : Bytes) → M S Resolved
  unfolding step_into
  walk_segment next node [] rest = next node (vfs_skip_slashes rest)
  walk_segment next node (c ∷ seg) rest =
      if ltb vfs_name_max (length (c ∷ seg))
      then done (failed err_nametoolong)
      else vfs_lookup_child node (c ∷ seg) >>= λ child.
          step_into child (vfs_skip_slashes rest) (next child (vfs_skip_slashes rest))

  -- The loop, for the bytes between `p` and `end`. `rounds` is the number of those bytes: each
  -- round takes one at least.
  unfoldable pub walk : (rounds : ℕ) (node : ℕ) (p : Bytes) → M S Resolved
  unfolding take_segment walk_segment
  walk zero node p = done (node_at node)
  walk (suc rounds) node [] = done (node_at node)
  walk (suc rounds) node (c ∷ p) =
      walk_segment (walk rounds) node (take_segment (c ∷ p)).0 (take_segment (c ∷ p)).1

  -- From the mount that was found, by its root, on.
  unfoldable pub resolve_from : (path : Bytes) → Option Mount → M S Resolved
  unfolding walk below_mount
  resolve_from path none = done (failed err_noent)
  resolve_from path (some mnt) =
      let p = below_mount path mnt in
      let found = walk (length p) mnt.root p in
      if mnt.root == 0 then done (failed err_noent) else found

  -- `none` is the NULL path.
  unfoldable pub vfs_resolve_path : Option Bytes → M S Resolved
  unfolding resolve_from vfs_find_mount_for_path trimmed vfs_trim_path_len
  vfs_resolve_path none s = done (failed err_inval) s
  vfs_resolve_path (some path) s =
      if not (begins_with_slash path) || (vfs_trim_path_len path == 0)
      then done (failed err_inval) s
      else resolve_from (trimmed path) (vfs_find_mount_for_path (trimmed path) s.mounts) s

  -- `vfs_resolve`: NULL on any error.
  abbrev pub node_or_null : Resolved → ℕ
  node_or_null (node_at n) = n
  node_or_null (failed rc) = 0

  unfoldable pub vfs_resolve : Option Bytes → M S ℕ
  unfolding vfs_resolve_path
  vfs_resolve path = vfs_resolve_path path >>= λ r. done (node_or_null r)
