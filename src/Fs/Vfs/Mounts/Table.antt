-- ===== src/Fs/Vfs/Mounts/Table.antt =====
-- The mount table under vfs_mount: what a call adds to it, and that it stays well-formed.
use mathlib.Core.Path.{subst}
use velox_os.Prelude.{
  ℕ, zero, suc, ◌+◌, ◌%◌, ◌^◌, ◌≤◌, ◌<◌, ◌≡◌, refl, sym, ap, ◌∙◌, ◌≢◌, ◌⊎◌, inl, inr, true, false,
  not, ◌&&◌, ◌||◌, Option, none, some, List, [], ◌∷◌, ◌++◌, All, length, ltb, ◌==◌, Bool-cases,
  Option-cases, arith,
}
use velox_os.Fs.Vfs.{ℤ, pos, negsuc, Bytes, Mount, Fs, Env, is_dir}
use velox_os.Fs.Vfs.Find.Longest.{IsMount}
use velox_os.Fs.Vfs.Paths.{
  take, same_bytes, begins_with_slash, trim_from, trimmed, vfs_trim_path_len,
}
use velox_os.Fs.Vfs.Paths.Laws.{same_bytes-eq, length-take, trim_from_bounds, trim_from_pos}
use velox_os.Fs.Vfs.Mounts.{
  mount_size, is_mount_of, is_mounted, no_mounts, link_mount, alloc_mount, mount_at, vfs_mount,
}
use velox_os.Fs.Vfs.Resolve.{Resolved, node_at, failed, ◌>>=◌, vfs_resolve_path}
use velox_os.Fs.Vfs.Resolve.Kept.{KeepsMounts, IsOutcome, vfs_resolve_path-Kept}

same_bytes_refl : (a : Bytes) → same_bytes (length a) a a ≡ true
unfolding same_bytes
same_bytes_refl [] = refl
same_bytes_refl (x ∷ a) = ground (arith, same_bytes_refl a)

pub nil_of_length : (a rest : Bytes) → length (a ++ rest) ≡ length a → a ++ rest ≡ a
nil_of_length [] [] h = refl
nil_of_length [] (c ∷ rest) h = absurd (omega arith)
nil_of_length (x ∷ a) rest h = ap (λ t. x ∷ t) (nil_of_length a rest (omega arith))

-- A mount is taken for that of a path exactly where the paths are the same.
pub path_of_mount :
    (path : Bytes) (m : Mount) → IsMount m → is_mount_of path m ≡ true → m.path ≡ path
unfolding is_mount_of
path_of_mount path m v h =
    let (rest, e) = same_bytes-eq m.path path (ground arith) in
    let l : m.path_len ≡ length path = ground arith in
    e ∙ nil_of_length path rest (sym (ap length e) ∙ sym v.sized ∙ l)

pub is_mount_lem :
    (path : Bytes) (m : Mount)
    → m.path_len ≡ length m.path
    → m.path ≡ path
    → is_mount_of path m ≡ true
unfolding is_mount_of
is_mount_lem path m v e =
    ground
      (arith, v ∙ ap length e, ap (λ t. same_bytes (length path) t path) e ∙ same_bytes_refl path)

-- The mounts are well-formed, and no two have the same path.
abbrev pub IsTable : List Mount → Type 0
IsTable [] = Unit
IsTable (m ∷ ms) = IsMount m × All (λ x. x.path ≢ m.path) ms × IsTable ms

pub All-IsMount : (ms : List Mount) → IsTable ms → All IsMount ms
All-IsMount [] h = tt
All-IsMount (m ∷ ms) h = (h.0, All-IsMount ms h.2)

pub All-not_mounted :
    (path : Bytes) (ms : List Mount)
    → IsTable ms
    → is_mounted path ms ≡ false
    → All (λ x. x.path ≢ path) ms
unfolding is_mounted
All-not_mounted path [] v h = tt
All-not_mounted path (m ∷ ms) v h = (
  (λ e. ground (arith, is_mount_lem path m v.0.sized e)),
  All-not_mounted path ms v.2 (ground arith),
)

pub length-trimmed : (p : Bytes) → length (trimmed p) ≤ length p
unfolding trimmed vfs_trim_path_len
length-trimmed p = omega (
  arith,
  length-take (trim_from p (length p)) p (trim_from_bounds p (length p)),
  trim_from_bounds p (length p),
)

begins-take : (n : ℕ) (p : Bytes) → 0 < n → begins_with_slash (take n p) ≡ begins_with_slash p
unfolding begins_with_slash
begins-take zero p h = absurd (omega arith)
begins-take (suc n) [] h = refl
begins-take (suc n) (c ∷ p) h = refl

pub begins-length : (p : Bytes) → begins_with_slash p ≡ true → 0 < length p
unfolding begins_with_slash
begins-length [] h = absurd (ground arith)
begins-length (c ∷ p) h = omega arith

pub begins-trimmed : (p : Bytes) → begins_with_slash p ≡ true → begins_with_slash (trimmed p) ≡ true
unfolding trimmed vfs_trim_path_len
begins-trimmed p h =
    begins-take (trim_from p (length p)) p (trim_from_pos p (length p) (begins-length p h)) ∙ h

-- The new mount of a root at a trimmed path.
pub record IsNew (root : ℕ) (path : Bytes) (m : Mount) : Type 0 where
  pub at_path : m.path ≡ path
  pub cut : m.path_len ≡ length path % 2 ^ 16
  pub at_root : m.root ≡ root

-- Either the table is as before and the code is an error, or the mount is the first.
-- A negative code.
abbrev pub IsError : ℤ → Type 0
IsError (negsuc n) = Unit
IsError (pos n) = ⊥

abbrev pub Linked : ℕ → Bytes → List Mount → ℤ → List Mount → Type 0
Linked root path ms rc ms' =
    ((IsError rc) × (ms' ≡ ms)) ⊎ ((m : Mount) × (rc ≡ pos 0) × (ms' ≡ m ∷ ms) × IsNew root path m)

module _ (e : Env) where
  link_mount-Linked :
      (block root : ℕ) (path : Bytes) (text : ℕ × e.Heap) (s : Fs e.Heap)
      → Linked root path s.mounts
          (link_mount e block root path text s).0
          (link_mount e block root path text s).1.mounts
  unfolding link_mount
  link_mount-Linked block root path (text, h) s = elim (Bool-cases (text == 0)) [
    | inl z ↦ rw z (inl (tt, refl))
    | inr z ↦ rw z (inr (_, refl, refl, record { at_path = refl; cut = refl; at_root = refl }))
  ]

  alloc_mount-Linked :
      (root : ℕ) (path : Bytes) (s : Fs e.Heap)
      → Linked root path s.mounts (alloc_mount e root path s).0 (alloc_mount e root path s).1.mounts
  unfolding alloc_mount
  alloc_mount-Linked root path s = elim (Bool-cases ((e.kmalloc mount_size s.heap).0 == 0)) [
    | inl z ↦ rw z (inl (tt, refl))
    | inr z ↦ rw z (
        link_mount-Linked (e.kmalloc mount_size s.heap).0 root path
          (e.kmalloc (length path + 1) (e.kmalloc mount_size s.heap).1) s)
  ]

  -- What a run of `vfs_mount` from the mounts `ms` ends with.
  abbrev Ends : ℕ → Bytes → List Mount → Option (ℤ × Fs e.Heap) → Type 0
  Ends root path ms none = Unit
  Ends root path ms (some (rc, t)) = Linked root path ms rc t.mounts

  mount_at-Ends :
      (root : ℕ) (path : Bytes) (r : Resolved) (s : Fs e.Heap)
      → IsOutcome r
      → Ends root path s.mounts (mount_at e root path r s)
  unfolding mount_at
  mount_at-Ends root path (failed (pos n)) s h = absurd h
  mount_at-Ends root path (failed (negsuc n)) s h = inl (tt, refl)
  mount_at-Ends root path (node_at mp) s h = elim (Bool-cases (not (is_dir (s.nodes mp).type))) [
    | inl z ↦ rw z (inl (tt, refl))
    | inr z ↦ rw z (alloc_mount-Linked root path s)
  ]

  module _ (fuel : ℕ) (keeps : KeepsMounts e) where
    mount_below-Ends :
        (root : ℕ) (path : Bytes) (s : Fs e.Heap)
        → Ends root
            (trimmed path)
            s.mounts
            ((vfs_resolve_path e fuel (some path) >>= mount_at e root (trimmed path)) s)
    mount_below-Ends root path s = elim (Option-cases (vfs_resolve_path e fuel (some path) s)) [
      | inl h ↦ rw (h, ◌>>=◌) tt
      | inr ((r, t), h) ↦
          let (same, outcome) = vfs_resolve_path-Kept e fuel keeps path s r t h in
          rw (h, ◌>>=◌)
            (subst (λ ms. Ends root (trimmed path) ms (mount_at e root (trimmed path) r t)) same
              (mount_at-Ends root (trimmed path) r t outcome))
    ]

  -- With what a success also tells: the root and the path are good, and the path was free.
  abbrev pub Mounted : ℕ → Bytes → List Mount → Option (ℤ × Fs e.Heap) → Type 0
  Mounted root path ms none = Unit
  Mounted root path ms (some (rc, t)) =
      ((IsError rc) × (t.mounts ≡ ms))
      ⊎ ((m : Mount) × (rc ≡ pos 0)
          × (t.mounts ≡ m ∷ ms)
          × IsNew root (trimmed path) m
          × (begins_with_slash path ≡ true)
          × ((root == 0) ≡ false)
          × (is_mounted (trimmed path) ms ≡ false))

  Mounted-of_Ends :
      (root : ℕ) (path : Bytes) (ms : List Mount) (o : Option (ℤ × Fs e.Heap))
      → begins_with_slash path ≡ true
      → (root == 0) ≡ false
      → is_mounted (trimmed path) ms ≡ false
      → Ends root (trimmed path) ms o
      → Mounted root path ms o
  Mounted-of_Ends root path ms none b z f h = tt
  Mounted-of_Ends root path ms (some (rc, t)) b z f (inl h) = inl h
  Mounted-of_Ends root path ms (some (rc, t)) b z f (inr (m, r, l, n)) = inr (m, r, l, n, b, z, f)

  module _ (fuel : ℕ) (keeps : KeepsMounts e) where
    pub vfs_mount-Mounted :
        (root : ℕ) (path : Bytes) (s : Fs e.Heap)
        → Mounted root path s.mounts (vfs_mount e fuel root (some path) s)
    unfolding vfs_mount
    vfs_mount-Mounted root path s =
        elim (Bool-cases ((root == 0) || not (begins_with_slash path))) [
          | inl z ↦ rw z (inl (tt, refl))
          | inr z ↦ rw z (elim (Bool-cases (vfs_trim_path_len path == 0)) [
            | inl l ↦ rw l (inl (tt, refl))
            | inr l ↦ rw l (elim (Bool-cases (is_mounted (trimmed path) s.mounts)) [
              | inl f ↦ rw f (inl (tt, refl))
              | inr f ↦
                  rw f
                    (elim (Bool-cases
                      (ltb 1 (vfs_trim_path_len path) && not (no_mounts s.mounts))) [
                        | inl b ↦ rw b (
                            Mounted-of_Ends root path s.mounts _ (ground arith) (ground arith) f
                              (mount_below-Ends fuel keeps root path s))
                        | inr b ↦ rw b (
                            Mounted-of_Ends root path s.mounts
                              (some (alloc_mount e root (trimmed path) s)) (ground arith)
                              (ground arith) f (alloc_mount-Linked root (trimmed path) s))
                      ])
            ])
          ])
        ]
