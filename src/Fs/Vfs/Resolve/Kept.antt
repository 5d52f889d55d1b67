-- ===== src/Fs/Vfs/Resolve/Kept.antt =====
-- What a lookup leaves alone: the mounts, as long as the drivers do.
use mathlib.Core.Path.{subst}
use velox_os.Prelude.{
  ℕ, ◌≡◌, refl, sym, ◌∙◌, inl, inr, Bool, true, false, not, ◌&&◌, Option, none, some, List, [], ◌∷◌,
  length, ltb, ◌==◌, Bool-cases, Option-cases, if◌then◌else◌,
}
use velox_os.Fs.Vfs.{pos, negsuc, err_inval, vfs_name_max, Bytes, Mount, Fs, Env, is_dir}
use velox_os.Fs.Vfs.Find.{vfs_find_mount_for_path}
use velox_os.Fs.Vfs.Nodes.{vfs_find_child}
use velox_os.Fs.Vfs.Paths.{drop, trimmed, begins_with_slash}
use velox_os.Fs.Vfs.Resolve.{
  Resolved, node_at, failed, M, ◌>>=◌, S, child_found, lookup_with, vfs_lookup_child,
  vfs_resolve_path,
}
use velox_os.Fs.Vfs.Resolve.Segments.{no_segments, segments}
use velox_os.Fs.Vfs.Resolve.Lookup.{enter, descend, resolve_segments, vfs_resolve_path-segments}

-- No driver's `lookup` mounts or unmounts.
abbrev pub KeepsMounts : Env → Type 0
KeepsMounts e =
    (a dir : ℕ) (name : Bytes) (s t : Fs e.Heap) (child : ℕ) (f : ℕ → Bytes → M (Fs e.Heap) ℕ)
    → (e.ops_at a).lookup_op ≡ some f
    → f dir name s ≡ some (child, t)
    → t.mounts ≡ s.mounts

-- A negative code where there is one.
abbrev pub IsOutcome : Resolved → Type 0
IsOutcome (node_at n) = Unit
IsOutcome (failed (negsuc n)) = Unit
IsOutcome (failed (pos n)) = ⊥

module _ (env : Env) (fuel : ℕ) (keeps : KeepsMounts env) where
  -- A run that ends leaves the mounts `ms`.
  abbrev Kept : List Mount → Option (Resolved × S env fuel) → Type 0
  Kept ms none = Unit
  Kept ms (some (r, s)) = (s.mounts ≡ ms) × IsOutcome r

  abbrev KeptChild : List Mount → Option (ℕ × S env fuel) → Type 0
  KeptChild ms none = Unit
  KeptChild ms (some (n, s)) = s.mounts ≡ ms

  child_found-Kept :
      (found : Option ℕ) (s : S env fuel) → KeptChild s.mounts (child_found env fuel found s)
  child_found-Kept none s = tt
  child_found-Kept (some c) s = refl

  lookup_with-Kept :
      (entry : Option (ℕ → Bytes → M (S env fuel) ℕ)) (dir : ℕ) (name : Bytes) (s : S env fuel)
      → ((f : ℕ → Bytes → M (S env fuel) ℕ) (child : ℕ) (t : S env fuel)
          → entry ≡ some f
          → f dir name s ≡ some (child, t)
          → t.mounts ≡ s.mounts)
      → KeptChild s.mounts (lookup_with env fuel entry dir name s)
  unfolding lookup_with
  lookup_with-Kept none dir name s k = child_found-Kept (vfs_find_child fuel s.nodes dir name) s
  lookup_with-Kept (some f) dir name s k = elim (Option-cases (f dir name s)) [
    | inl e ↦ rw e tt
    | inr ((child, t), e) ↦ rw e (k f child t refl e)
  ]

  lookup_child-Kept :
      (dir : ℕ) (name : Bytes) (s : S env fuel)
      → KeptChild s.mounts (vfs_lookup_child env fuel dir name s)
  unfolding vfs_lookup_child
  lookup_child-Kept dir name s = elim (Bool-cases (dir == 0)) [
    | inl e ↦ rw e refl
    | inr e ↦ rw e (elim (Bool-cases ((s.nodes dir).ops == 0)) [
      | inl z ↦ rw z (lookup_with-Kept none dir name s (λ f child t h k. cc))
      | inr z ↦ rw z (
          lookup_with-Kept (env.ops_at (s.nodes dir).ops).lookup_op dir name s
            (λ f child t h k. keeps (s.nodes dir).ops dir name s t child f h k))
    ])
  ]

  enter-Kept :
      (ms : List Mount) (child : ℕ) (segs : List Bytes) (next : M (S env fuel) Resolved)
      (s : S env fuel)
      → s.mounts ≡ ms
      → Kept ms (next s)
      → Kept ms (enter env fuel child segs next s)
  unfolding enter
  enter-Kept ms child segs next s h k = elim (Bool-cases (child == 0)) [
    | inl e ↦ rw e (h, tt)
    | inr e ↦
        rw e (elim (Bool-cases (not (no_segments segs) && not (is_dir (s.nodes child).type))) [
          | inl d ↦ rw d (h, tt)
          | inr d ↦ rw d k
        ])
  ]

  descend-Kept :
      (ms : List Mount) (node : ℕ) (segs : List Bytes) (s : S env fuel)
      → s.mounts ≡ ms
      → Kept ms (descend env fuel node segs s)
  unfolding descend
  descend-Kept ms node [] s h = (h, tt)
  descend-Kept ms node (seg ∷ segs) s h = elim (Bool-cases (ltb vfs_name_max (length seg))) [
    | inl e ↦ rw e (h, tt)
    | inr e ↦ rw e (elim (Option-cases (vfs_lookup_child env fuel node seg s)) [
      | inl k ↦ rw (k, ◌>>=◌) tt
      | inr ((c, t), k) ↦
          let same : t.mounts ≡ s.mounts = rw k at (lookup_child-Kept node seg s) in
          rw (k, ◌>>=◌)
            (enter-Kept ms c segs (descend env fuel c segs) t (same ∙ h)
              (descend-Kept ms c segs t (same ∙ h)))
    ])
  ]

  resolve_segments-Kept :
      (path : Bytes) (found : Option Mount) (s : S env fuel)
      → Kept s.mounts (resolve_segments env fuel path found s)
  unfolding resolve_segments
  resolve_segments-Kept path none s = (refl, tt)
  resolve_segments-Kept path (some mnt) s = elim (Bool-cases (mnt.root == 0)) [
    | inl e ↦ rw e (refl, tt)
    | inr e ↦ rw e (descend-Kept s.mounts mnt.root (segments (drop mnt.path_len path)) s refl)
  ]

  guarded-Kept :
      (b : Bool) (ms : List Mount) (o : Option (Resolved × S env fuel)) (s : S env fuel)
      → s.mounts ≡ ms
      → Kept ms o
      → Kept ms (if b then o else some (failed err_inval, s))
  guarded-Kept true ms o s h k = k
  guarded-Kept false ms o s h k = (h, tt)

  pub vfs_resolve_path-Kept :
      (path : Bytes) (s : S env fuel) (r : Resolved) (t : S env fuel)
      → vfs_resolve_path env fuel (some path) s ≡ some (r, t)
      → (t.mounts ≡ s.mounts) × IsOutcome r
  vfs_resolve_path-Kept path s r t h =
      let found = vfs_find_mount_for_path (trimmed path) s.mounts in
      subst (Kept s.mounts) (sym (vfs_resolve_path-segments env fuel path s) ∙ h) (
        guarded-Kept (begins_with_slash path) s.mounts _ s refl
          (resolve_segments-Kept (trimmed path) found s))
