-- ===== src/Fs/Vfs/Find/Longest.antt =====
-- The mount that vfs_find_mount_for_path picks, against an independent reading of the paths.
use velox_os.Prelude.{
  ℕ, ◌+◌, ◌≤◌, ◌<◌, ◌≡◌, refl, sym, ap, ◌∙◌, ◌⊎◌, inl, inr, Bool, true, Option, none, some, List,
  [], ◌∷◌, ◌++◌, All, length, length-append, get_or, leb, ◌==◌, Bool-cases, if◌then◌else◌, arith,
}
use velox_os.Fs.Vfs.{Bytes, slash, Mount}
use velox_os.Fs.Vfs.Find.{find_loop, vfs_find_mount_for_path}
use velox_os.Fs.Vfs.Paths.Laws.{same_bytes-append, same_bytes-eq, get_or-append, begins_lem}
use velox_os.Fs.Vfs.Paths.{same_bytes, begins_with_slash, vfs_path_is_prefix}

-- The path is the mount's own, or lies below it at a slash; every absolute path lies below "/".
abbrev pub Covers : Bytes → Mount → Type 0
Covers path m =
    ((m.path ≡ slash ∷ []) × (begins_with_slash path ≡ true))
    ⊎ ((rest : Bytes) × (path ≡ m.path ++ rest) × ((rest ≡ []) ⊎ (begins_with_slash rest ≡ true)))

-- A mount whose length is that of its path, an absolute one.
pub record IsMount (m : Mount) : Type 0 where
  pub sized : m.path_len ≡ length m.path
  pub absolute : begins_with_slash m.path ≡ true

abbrev pub Member : Mount → List Mount → Type 0
Member m [] = ⊥
Member m (x ∷ xs) = (m ≡ x) ⊎ Member m xs

pub All-Member : (P : Mount → Type 0) (xs : List Mount) {m : Mount} → All P xs → Member m xs → P m
All-Member P [] h k = absurd k
All-Member P (x ∷ xs) h (inl e) = rw e (h.0)
All-Member P (x ∷ xs) h (inr k) = All-Member P xs h.1 k

pub single : (p : Bytes) → begins_with_slash p ≡ true → length p ≡ 1 → p ≡ slash ∷ []
unfolding begins_with_slash
single [] b h = absurd (omega arith)
single (c ∷ []) b h = ground arith
single (c ∷ d ∷ p) b h = absurd (omega arith)

-- What the loop returns from `best` with its length on.
abbrev Picked : Bytes → List Mount → Option Mount → ℕ → Option Mount → Type 0
Picked path ms best best_len r =
    ((r ≡ best) × All (λ x. vfs_path_is_prefix path x ≡ true → x.path_len < best_len) ms)
    ⊎ ((m : Mount) × (r ≡ some m)
        × Member m ms
        × (vfs_path_is_prefix path m ≡ true)
        × (best_len ≤ m.path_len)
        × All (λ x. vfs_path_is_prefix path x ≡ true → x.path_len ≤ m.path_len) ms)

All-weaken :
    (path : Bytes) (a b : ℕ) (ms : List Mount)
    → a ≤ b
    → All (λ x. vfs_path_is_prefix path x ≡ true → x.path_len < a) ms
    → All (λ x. vfs_path_is_prefix path x ≡ true → x.path_len ≤ b) ms
All-weaken path a b [] h k = tt
All-weaken path a b (x ∷ ms) h k = (λ e. omega (arith, k.0 e), All-weaken path a b ms h k.1)

find_loop-Picked :
    (path : Bytes) (ms : List Mount) (best : Option Mount) (best_len : ℕ)
    → Picked path ms best best_len (find_loop path ms best best_len)
unfolding find_loop
find_loop-Picked path [] best best_len = inl (refl, tt)
find_loop-Picked path (x ∷ ms) best best_len = elim (Bool-cases (vfs_path_is_prefix path x)) [
  | inr miss ↦ rw miss (elim (find_loop-Picked path ms best best_len) [
    | inl (e, h) ↦ inl (e, ((λ p. ground arith), h))
    | inr (m, e, k, p, l, h) ↦ inr (m, e, inr k, p, l, ((λ q. ground arith), h))
  ])
  | inl hit ↦ elim (Bool-cases (leb best_len x.path_len)) [
    | inr low ↦
        rw (hit, low)
          (elim (find_loop-Picked path ms best best_len) [
            | inl (e, h) ↦ inl (e, ((λ p. ground arith), h))
            | inr (m, e, k, p, l, h) ↦ inr (m, e, inr k, p, l, ((λ q. ground arith), h))
          ])
    | inl high ↦
        rw (hit, high)
          (elim (find_loop-Picked path ms (some x) x.path_len) [
            | inl (e, h) ↦ inr (
              x,
              e,
              inl refl,
              hit,
              ground arith,
              ((λ p. omega arith), All-weaken path _ _ ms (omega arith) h),
            )
            | inr (m, e, k, p, l, h) ↦ inr (m, e, inr k, p, ground arith, ((λ q. l), h))
          ])
  ]
]

-- The test at the end of a prefix of length `n`.
abbrev ends_well : ℕ → Bytes → Bool
ends_well n path = if length path == n then true else get_or path n 0 == slash

ends_well-Covers :
    (a rest : Bytes)
    → ends_well (length a) (a ++ rest) ≡ true
    → (rest ≡ []) ⊎ (begins_with_slash rest ≡ true)
ends_well-Covers a [] h = inl refl
ends_well-Covers a (c ∷ rest) h = inr (
    ground
      (arith, length-append {0} a (c ∷ rest), get_or-append a (c ∷ rest), begins_lem (c ∷ rest)))

ends_well_lem :
    (a rest : Bytes)
    → (rest ≡ []) ⊎ (begins_with_slash rest ≡ true)
    → ends_well (length a) (a ++ rest) ≡ true
ends_well_lem a [] h = ground (arith, length-append {0} a [])
ends_well_lem a (c ∷ rest) (inl e) = absurd (omega (arith, ap length e))
ends_well_lem a (c ∷ rest) (inr b) =
    ground
      (arith, length-append {0} a (c ∷ rest), get_or-append a (c ∷ rest), begins_lem (c ∷ rest))

begins-append : (a rest : Bytes) → begins_with_slash a ≡ true → begins_with_slash (a ++ rest) ≡ true
unfolding begins_with_slash
begins-append [] rest h = absurd (ground arith)
begins-append (c ∷ a) rest h = h

begins-ne-nil : (a : Bytes) → begins_with_slash a ≡ true → 0 < length a
unfolding begins_with_slash
begins-ne-nil [] h = absurd (ground arith)
begins-ne-nil (c ∷ a) h = omega arith

-- A well-formed mount is found to be a prefix exactly of the paths that it covers.
pub Covers-of_prefix :
    (path : Bytes) (m : Mount) → IsMount m → vfs_path_is_prefix path m ≡ true → Covers path m
unfolding vfs_path_is_prefix
Covers-of_prefix path m v h = elim (Bool-cases (m.path_len == 1)) [
  | inl one ↦ inl (single m.path v.absolute (ground arith), ground arith)
  | inr more ↦
      let fits : same_bytes m.path_len path m.path ≡ true = ground arith in
      let end : ends_well m.path_len path ≡ true = ground arith in
      let (rest, e) =
        same_bytes-eq path m.path (ap (λ n. same_bytes n path m.path) (sym v.sized) ∙ fits) in
      let end' : ends_well (length m.path) (m.path ++ rest) ≡ true =
        ap (ends_well (length m.path)) (sym e) ∙ ap (λ n. ends_well n path) (sym v.sized) ∙ end in
      inr (rest, e, ends_well-Covers m.path rest end')
]

pub prefix_of-Covers :
    (path : Bytes) (m : Mount) → IsMount m → Covers path m → vfs_path_is_prefix path m ≡ true
unfolding vfs_path_is_prefix
prefix_of-Covers path m v (inl (e, b)) =
    let l : m.path_len ≡ 1 = v.sized ∙ ap length e in ground (arith, l, b)
prefix_of-Covers path m v (inr (rest, e, b)) =
    let fits : same_bytes m.path_len path m.path ≡ true =
      ap (λ n. same_bytes n path m.path) v.sized
      ∙ ap (λ p. same_bytes (length m.path) p m.path) e
      ∙ same_bytes-append m.path rest in
    let end : ends_well m.path_len path ≡ true =
      ap (λ n. ends_well n path) v.sized
      ∙ ap (ends_well (length m.path)) e
      ∙ ends_well_lem m.path rest b in
    let len : length path ≡ length m.path + length rest = ap length e ∙ length-append m.path rest in
    let start : begins_with_slash path ≡ true =
      ap begins_with_slash e ∙ begins-append m.path rest v.absolute in
    let pos : 0 < length m.path = begins-ne-nil m.path v.absolute in
    ground (arith, fits, end, len, start, pos)

-- The mount that was found covers the path and none that covers it is longer; there is none only
-- where no mount covers it.
unfoldable pub Longest : Bytes → List Mount → Option Mount → Type 0
Longest path ms none = All (λ x. ¬ Covers path x) ms
Longest path ms (some m) =
    Member m ms × Covers path m × All (λ x. Covers path x → length x.path ≤ length m.path) ms

All-not_covered :
    (path : Bytes) (ms : List Mount)
    → All IsMount ms
    → All (λ x. vfs_path_is_prefix path x ≡ true → x.path_len < 0) ms
    → All (λ x. ¬ Covers path x) ms
All-not_covered path [] v h = tt
All-not_covered path (x ∷ ms) v h =
    ((λ c. omega (arith, h.0 (prefix_of-Covers path x v.0 c))), All-not_covered path ms v.1 h.1)

All-shorter :
    (path : Bytes) (n l : ℕ) (ms : List Mount)
    → n ≤ l
    → All IsMount ms
    → All (λ x. vfs_path_is_prefix path x ≡ true → x.path_len ≤ n) ms
    → All (λ x. Covers path x → length x.path ≤ l) ms
All-shorter path n l [] b v h = tt
All-shorter path n l (x ∷ ms) b v h = (
  (λ c. omega (arith, (v.0).sized, h.0 (prefix_of-Covers path x v.0 c))),
  All-shorter path n l ms b v.1 h.1,
)

-- Among mounts whose lengths are those of their paths, vfs_find_mount_for_path returns one that
-- covers the path, no longer one does, and it returns none only where no mount covers the path.
pub vfs_find_mount_for_path-Longest :
    (path : Bytes) (ms : List Mount)
    → All IsMount ms
    → Longest path ms (vfs_find_mount_for_path path ms)
unfolding vfs_find_mount_for_path Longest
vfs_find_mount_for_path-Longest path ms v = elim (find_loop-Picked path ms none 0) [
  | inl (e, h) ↦ rw e (All-not_covered path ms v h)
  | inr (m, e, k, p, l, h) ↦
      let w : IsMount m = All-Member IsMount ms v k in
      rw e (
        k,
        Covers-of_prefix path m w p,
        All-shorter path m.path_len (length m.path) ms (omega (arith, w.sized)) v h,
      )
]
