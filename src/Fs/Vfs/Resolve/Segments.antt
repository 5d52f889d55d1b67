-- ===== src/Fs/Vfs/Resolve/Segments.antt =====
-- vfs_resolve_path against a reference: the path is split at every slash, the empty pieces are
-- dropped, and the rest are looked up one below the other.
use velox_os.Prelude.{
  ℕ, ◌≤◌, ◌≡◌, refl, ap, ◌⊎◌, inl, inr, Bool, true, false, List, [], ◌∷◌, length, ◌==◌, Bool-cases,
  if◌then◌else◌, arith,
}
use velox_os.Fs.Vfs.{slash, Bytes}
use velox_os.Fs.Vfs.Paths.{vfs_skip_slashes, begins_with_slash}
use velox_os.Fs.Vfs.Resolve.{take_segment, empty}

abbrev prepend : ℕ → List Bytes → List Bytes
prepend c [] = (c ∷ []) ∷ []
prepend c (seg ∷ segs) = (c ∷ seg) ∷ segs

-- The pieces between the slashes, the empty ones too.
pub split : Bytes → List Bytes
split [] = [] ∷ []
split (c ∷ p) = if c == slash then [] ∷ split p else prepend c (split p)

abbrev drop_empty : List Bytes → List Bytes
drop_empty [] = []
drop_empty ([] ∷ segs) = drop_empty segs
drop_empty ((c ∷ seg) ∷ segs) = (c ∷ seg) ∷ drop_empty segs

unfoldable pub segments : Bytes → List Bytes
unfolding split
segments p = drop_empty (split p)

abbrev pub no_segments : List Bytes → Bool
no_segments [] = true
no_segments (seg ∷ segs) = false

pub segments-skip : (p : Bytes) → segments (vfs_skip_slashes p) ≡ segments p
unfolding segments vfs_skip_slashes
segments-skip [] = refl
segments-skip (c ∷ p) = elim (Bool-cases (c == slash)) [
  | inl e ↦ rw e (segments-skip p)
  | inr e ↦ rw (e, e)
]

pub length-skip : (p : Bytes) → length (vfs_skip_slashes p) ≤ length p
unfolding vfs_skip_slashes
length-skip [] = omega arith
length-skip (c ∷ p) = ground (arith, length-skip p)

-- The pieces of a path are its first segment and those of the rest.
abbrev joined : Bytes → Bytes → List Bytes
joined seg [] = seg ∷ []
joined seg (c ∷ p) = seg ∷ split p

joined-prepend : (c : ℕ) (seg p : Bytes) → prepend c (joined seg p) ≡ joined (c ∷ seg) p
joined-prepend c seg [] = refl
joined-prepend c seg (d ∷ p) = refl

split_lem : (p : Bytes) → split p ≡ joined (take_segment p).0 (take_segment p).1
unfolding split take_segment
split_lem [] = refl
split_lem (c ∷ p) = elim (Bool-cases (c == slash)) [
  | inl e ↦ rw e
  | inr e ↦ rw (e, split_lem p) (joined-prepend c (take_segment p).0 (take_segment p).1)
]

-- A segment ends at a slash, or at the end of the path.
abbrev AtEnd : Bytes → Type 0
AtEnd p = (p ≡ []) ⊎ (begins_with_slash p ≡ true)

take_segment-AtEnd : (p : Bytes) → AtEnd (take_segment p).1
unfolding take_segment begins_with_slash
take_segment-AtEnd [] = inl refl
take_segment-AtEnd (c ∷ p) = elim (Bool-cases (c == slash)) [
  | inl e ↦ rw e (inr e)
  | inr e ↦ rw e (take_segment-AtEnd p)
]

pub length-take_segment : (p : Bytes) → length (take_segment p).1 ≤ length p
unfolding take_segment
length-take_segment [] = omega arith
length-take_segment (c ∷ p) = ground (arith, length-take_segment p)

drop_empty-joined :
    (c : ℕ) (seg p : Bytes) → AtEnd p → drop_empty (joined (c ∷ seg) p) ≡ (c ∷ seg) ∷ segments p
unfolding segments begins_with_slash
drop_empty-joined c seg [] h = refl
drop_empty-joined c seg (d ∷ p) (inl e) = absurd (omega (arith, ap length e))
drop_empty-joined c seg (d ∷ p) (inr e) = rw e

-- The first segment of a path that begins with one, and the segments behind it.
pub first_segment :
    (c : ℕ) (p : Bytes)
    → (c == slash) ≡ false
    → segments (c ∷ p) ≡ (c ∷ (take_segment p).0) ∷ segments (take_segment p).1
unfolding segments take_segment
first_segment c p e =
    rw (split_lem (c ∷ p))
      (rw e (drop_empty-joined c (take_segment p).0 (take_segment p).1 (take_segment-AtEnd p)))

pub segments-slash : (c : ℕ) (p : Bytes) → (c == slash) ≡ true → segments (c ∷ p) ≡ segments p
unfolding segments split
segments-slash c p e = rw e

pub segments-nil : segments [] ≡ []
unfolding segments
segments-nil = refl

pub empty-skip : (p : Bytes) → empty (vfs_skip_slashes p) ≡ no_segments (segments p)
unfolding vfs_skip_slashes
empty-skip [] = rw segments-nil
empty-skip (c ∷ p) = elim (Bool-cases (c == slash)) [
  | inl e ↦ rw (segments-slash c p e) (rw e (empty-skip p))
  | inr e ↦ rw (first_segment c p e) (rw e refl)
]
