-- ===== src/Fs/Vfs/Resolve/Lookup.antt =====
-- vfs_resolve_path as a lookup of the path's segments, one below the other.
use velox_os.Prelude.{
  ℕ, zero, suc, ◌≤◌, ◌≡◌, refl, sym, ap, ◌∙◌, inl, inr, true, false, not, ◌&&◌, Option, none, some,
  List, [], ◌∷◌, ◌++◌, length, ltb, ◌==◌, Bool-cases, Option-cases, if◌then◌else◌, arith,
}
use velox_os.Fs.Vfs.{
  err_inval, err_noent, err_notdir, err_nametoolong, vfs_name_max, slash, Bytes, Mount, Env, is_dir,
}
use velox_os.Fs.Vfs.Find.{vfs_find_mount_for_path}
use velox_os.Fs.Vfs.Paths.Laws.{trimmed-append_slash, trim_from_pos}
use velox_os.Fs.Vfs.Paths.{drop, vfs_skip_slashes, trimmed, vfs_trim_path_len, begins_with_slash}
use velox_os.Fs.Vfs.Resolve.{
  Resolved, node_at, failed, M, ◌>>=◌, done, take_segment, walk_segment, empty, below_mount, S,
  step_into, walk, resolve_from, vfs_lookup_child, vfs_resolve_path,
}
use velox_os.Fs.Vfs.Resolve.Segments.{
  segments, no_segments, segments-skip, length-skip, length-take_segment, first_segment,
  segments-slash, segments-nil, empty-skip,
}

length-skip_slash :
    (c : ℕ) (p : Bytes) → (c == slash) ≡ true → length (vfs_skip_slashes (c ∷ p)) ≤ length p
unfolding vfs_skip_slashes
length-skip_slash c p e = rw e (length-skip p)

bind_cong :
    {S A B : Type 0} (m : M S A) (f g : A → M S B) (s : S)
    → ((a : A) (t : S) → f a t ≡ g a t)
    → (m >>= f) s ≡ (m >>= g) s
bind_cong m f g s h = elim (Option-cases (m s)) [
  | inl e ↦ rw (e, ◌>>=◌)
  | inr ((a, t), e) ↦ rw (e, ◌>>=◌) (h a t)
]

drop_slash : (p : Bytes) → begins_with_slash p ≡ true → segments (drop 1 p) ≡ segments p
unfolding begins_with_slash
drop_slash [] e = refl
drop_slash (c ∷ p) e = sym (segments-slash c p e)

segments-below_mount :
    (path : Bytes) (mnt : Mount)
    → segments (below_mount path mnt) ≡ segments (drop mnt.path_len path)
unfolding below_mount
segments-below_mount path mnt =
    elim (Bool-cases (ltb 1 mnt.path_len && begins_with_slash (drop mnt.path_len path))) [
      | inl e ↦ rw e (
          segments-skip (drop 1 (drop mnt.path_len path))
          ∙ drop_slash (drop mnt.path_len path) (ground arith))
      | inr e ↦ rw e (segments-skip (drop mnt.path_len path))
    ]

trim_path_len-begins : (p : Bytes) → begins_with_slash p ≡ true → (vfs_trim_path_len p == 0) ≡ false
unfolding begins_with_slash vfs_trim_path_len
trim_path_len-begins [] e = absurd (ground arith)
trim_path_len-begins (c ∷ p) e = ground (arith, trim_from_pos (c ∷ p) (length (c ∷ p)))

module _ (env : Env) (fuel : ℕ) where
  -- What is left of a lookup once a child was found: it must be a directory where segments follow.
  unfoldable pub enter :
      (child : ℕ) → List Bytes → M (S env fuel) Resolved → M (S env fuel) Resolved
  enter child segs next s =
      if child == 0
      then done (failed err_noent) s
      else if not (no_segments segs) && not (is_dir (s.nodes child).type)
      then done (failed err_notdir) s
      else next s

  -- The segments, looked up one below the other.
  unfoldable pub descend : (node : ℕ) → List Bytes → M (S env fuel) Resolved
  unfolding enter
  descend node [] = done (node_at node)
  descend node (seg ∷ segs) =
      if ltb vfs_name_max (length seg)
      then done (failed err_nametoolong)
      else vfs_lookup_child env fuel node seg >>= λ child. enter child segs (descend child segs)

  step_into-enter :
      (child : ℕ) (p : Bytes) (segs : List Bytes) (f g : M (S env fuel) Resolved) (s : S env fuel)
      → empty p ≡ no_segments segs
      → f s ≡ g s
      → step_into env fuel child p f s ≡ enter child segs g s
  unfolding step_into enter
  step_into-enter child p segs f g s h k = rw (h, k)

  walk_segment-descend :
      (next : ℕ → Bytes → M (S env fuel) Resolved) (node c : ℕ) (seg rest : Bytes) (s : S env fuel)
      → ((child : ℕ) (t : S env fuel)
          → next child (vfs_skip_slashes rest) t ≡ descend child (segments rest) t)
      → walk_segment env fuel next node (c ∷ seg) rest s
        ≡ descend node ((c ∷ seg) ∷ segments rest) s
  unfolding walk_segment descend
  walk_segment-descend next node c seg rest s h =
      elim (Bool-cases (ltb vfs_name_max (length (c ∷ seg)))) [
        | inl e ↦ rw e
        | inr e ↦ rw e (
            bind_cong (vfs_lookup_child env fuel node (c ∷ seg)) _ _ s (λ child t.
              step_into-enter child (vfs_skip_slashes rest) (segments rest)
                (next child (vfs_skip_slashes rest)) (descend child (segments rest)) t
                (empty-skip rest) (h child t)))
      ]

  walk-descend :
      (rounds node : ℕ) (p : Bytes) (s : S env fuel)
      → length p ≤ rounds
      → walk env fuel rounds node p s ≡ descend node (segments p) s
  unfolding walk descend
  walk-descend zero node [] s h = rw segments-nil
  walk-descend zero node (c ∷ p) s h = absurd (omega arith)
  walk-descend (suc rounds) node [] s h = rw segments-nil
  walk-descend (suc rounds) node (c ∷ p) s h = elim (Bool-cases (c == slash)) [
    | inl e ↦
        rw (e, walk_segment)
          (walk-descend rounds node (vfs_skip_slashes (c ∷ p)) s
              (omega (arith, length-skip_slash c p e))
            ∙ ap (λ q. descend node q s) (segments-skip (c ∷ p)))
    | inr e ↦ rw (first_segment c p e) (
        rw e (
          walk_segment-descend (walk env fuel rounds) node c (take_segment p).0 (take_segment p).1 s
            (λ child t.
              walk-descend rounds child (vfs_skip_slashes (take_segment p).1) t
                (omega (arith, length-skip (take_segment p).1, length-take_segment p))
              ∙ ap (λ q. descend child q t) (segments-skip (take_segment p).1))))
  ]

  -- From a mount on: the segments behind its path, looked up from its root.
  unfoldable pub resolve_segments : Bytes → Option Mount → M (S env fuel) Resolved
  unfolding descend
  resolve_segments path none = done (failed err_noent)
  resolve_segments path (some mnt) =
      if mnt.root == 0
      then done (failed err_noent)
      else descend mnt.root (segments (drop mnt.path_len path))

  resolve_from-segments :
      (path : Bytes) (found : Option Mount) (s : S env fuel)
      → resolve_from env fuel path found s ≡ resolve_segments path found s
  unfolding resolve_from resolve_segments
  resolve_from-segments path none s = refl
  resolve_from-segments path (some mnt) s = elim (Bool-cases (mnt.root == 0)) [
    | inl e ↦ rw e
    | inr e ↦ rw e (
        walk-descend (length (below_mount path mnt)) mnt.root (below_mount path mnt) s (omega arith)
        ∙ ap (λ q. descend mnt.root q s) (segments-below_mount path mnt))
  ]

  -- vfs_resolve_path refuses a path that does not begin with a slash; of any other it looks up,
  -- from the root of the mount that was found for it, the segments behind the mount's path, each
  -- in the node before it. Its loop never stops early, and slashes in a row count once.
  pub vfs_resolve_path-segments :
      (path : Bytes) (s : S env fuel)
      → vfs_resolve_path env fuel (some path) s ≡ (
          if begins_with_slash path
          then resolve_segments (trimmed path) (vfs_find_mount_for_path (trimmed path) s.mounts) s
          else done (failed err_inval) s)
  unfolding vfs_resolve_path
  vfs_resolve_path-segments path s = elim (Bool-cases (begins_with_slash path)) [
    | inl e ↦
        rw (e, trim_path_len-begins path e)
          (resolve_from-segments (trimmed path) (vfs_find_mount_for_path (trimmed path) s.mounts) s)
    | inr e ↦ rw e
  ]

  -- A slash more at the end of a path that is not empty changes nothing.
  pub vfs_resolve_path-append_slash :
      (c : ℕ) (p : Bytes) (s : S env fuel)
      → vfs_resolve_path env fuel (some ((c ∷ p) ++ slash ∷ [])) s
        ≡ vfs_resolve_path env fuel (some (c ∷ p)) s
  unfolding begins_with_slash
  vfs_resolve_path-append_slash c p s =
      rw (vfs_resolve_path-segments ((c ∷ p) ++ slash ∷ []) s, vfs_resolve_path-segments (c ∷ p) s)
        (rw (trimmed-append_slash c p) refl)
