-- ===== src/Fs/Gpt/Table.antt =====
-- What gpt_init leaves in the table, against a list of the entries on the disk.
use mathlib.Core.Path.{subst}
use mathlib.Core.List.{append-nil, append_assoc}
use velox_os.Prelude.{
  ℕ, zero, suc, ◌+◌, ◌*◌, ◌%◌, ◌^◌, ◌≤◌, ◌<◌, ◌≡◌, refl, ap, ◌∙◌, inl, inr, true, false, Option,
  some, List, [], ◌∷◌, ◌++◌, length, length-append, length-set, get_or, set, ltb, leb, ◌==◌,
  Bool-cases, if◌then◌else◌, arith,
}
use velox_os.Fs.Vfs.{Bytes}
use velox_os.Fs.Gpt.{
  entries_bytes, max_partitions, entry_bytes, le_at, header_at, has_signature, Extent, Partition,
  Gpt, name_loop, guid_to_utf8, is_empty, extent_at, no_partition, add_named, add_entry, and_then,
  entries_loop, with_entries, on_header, gpt_init,
}

-- The partitions of the entries from `i` on that are not empty, in their order.
unfoldable pub extents : (rounds i : ℕ) → (esize : ℕ) → Bytes → List Extent
extents zero i esize buf = []
extents (suc rounds) i esize buf =
    let later = extents rounds (i + 1) esize buf in
    if is_empty 16 buf (i * esize) then later else extent_at buf (i * esize) ∷ later

-- The first partitions of the table.
pub first : ℕ → List Partition → List Extent
first zero ps = []
first (suc n) [] = []
first (suc n) (p ∷ ps) = p.extent ∷ first n ps

-- The name at an offset ends within its 36 units.
pub record HasEnd (buf : Bytes) (units : ℕ) : Type 0 where
  pub last : ℕ
  pub within : last < 36
  pub terminated : le_at 2 buf (units + 2 * last) ≡ 0

-- The entries lie in what was read, and each name ends.
pub record Fits (rounds esize : ℕ) (buf : Bytes) : Type 0 where
  pub wide : entry_bytes ≤ esize
  pub inside : rounds * esize ≤ entries_bytes
  pub few : rounds ≤ max_partitions
  pub names : (i : ℕ) → i < rounds → HasEnd buf (i * esize + 56)

name_loop_total :
    (rounds i d : ℕ) (buf : Bytes) (units : ℕ) (out : Bytes)
    → le_at 2 buf (units + 2 * (i + d)) ≡ 0
    → units + 2 * (i + d) + 2 ≤ entries_bytes
    → (out' : Bytes) × (name_loop rounds i buf units out ≡ some out')
unfolding name_loop
name_loop_total zero i d buf units out z l = (out, refl)
name_loop_total (suc rounds) i zero buf units out z l =
    let inside : ltb entries_bytes (units + 2 * i + 2) ≡ false = ground arith in
    let same : units + 2 * (i + 0) ≡ units + 2 * i = omega arith in
    let at_end : le_at 2 buf (units + 2 * i) ≡ 0 = rw same at z in (out, rw (inside, at_end) refl)
name_loop_total (suc rounds) i (suc d) buf units out z l =
    let inside : ltb entries_bytes (units + 2 * i + 2) ≡ false = ground arith in
    let next : i + suc d ≡ i + 1 + d = omega arith in
    elim (Bool-cases (le_at 2 buf (units + 2 * i) == 0)) [
      | inl e ↦ (out, rw (inside, e))
      | inr e ↦
          rw (inside, e) (name_loop_total rounds (i + 1) d buf units _ (rw next at z) (omega arith))
    ]

guid_to_utf8_total :
    (buf : Bytes) (units : ℕ) (out : Bytes)
    → HasEnd buf units
    → units + 72 ≤ entries_bytes
    → (out' : Bytes) × (guid_to_utf8 buf units out 72 ≡ some out')
unfolding guid_to_utf8
guid_to_utf8_total buf units out h l =
    let start : units + 2 * (0 + h.last) ≡ units + 2 * h.last = omega arith in
    let (o, e) =
      name_loop_total 71 0 h.last buf units out (ap (le_at 2 buf) start ∙ h.terminated)
        (omega (arith, h.within)) in
    (set o 71 0, rw e)

first-set :
    (n : ℕ) (ps : List Partition) (p : Partition)
    → n < length ps
    → first (suc n) (set ps n p) ≡ first n ps ++ p.extent ∷ []
unfolding first
first-set n [] p l = absurd (omega arith)
first-set zero (q ∷ ps) p l = refl
first-set (suc n) (q ∷ ps) p l = ap (λ t. q.extent ∷ t) (first-set n ps p (omega arith))

-- What one entry adds.
abbrev entry_extents : Bytes → (offset : ℕ) → List Extent
entry_extents buf offset = if is_empty 16 buf offset then [] else extent_at buf offset ∷ []

-- A table of 128 places, of which the first hold these.
record Holds (g : Gpt) (es : List Extent) : Type 0 where
  room : length g.partitions ≡ max_partitions
  counted : g.partition_count ≡ length es
  listed : first g.partition_count g.partitions ≡ es

abbrev placed : Gpt → Extent → Bytes → Gpt
placed g x name = record g {
  partitions = set g.partitions g.partition_count (record { extent = x; name = name });
  partition_count = g.partition_count + 1;
}

placed-Holds :
    (g : Gpt) (es : List Extent) (x : Extent) (name : Bytes)
    → Holds g es
    → length es < max_partitions
    → Holds (placed g x name) (es ++ x ∷ [])
placed-Holds g es x name h c = record {
  room = length-set g.partitions g.partition_count (record { extent = x; name = name }) ∙ h.room;
  counted = omega (arith, h.counted, length-append {0} es (x ∷ []));
  listed =
      ap (λ n. first n (placed g x name).partitions) (omega arith)
      ∙ first-set g.partition_count g.partitions (record { extent = x; name = name })
          (omega (arith, h.room, h.counted))
      ∙ ap (λ t. t ++ x ∷ []) h.listed;
}

add_entry_lem :
    (buf : Bytes) (offset : ℕ) (g : Gpt) (es : List Extent)
    → Holds g es
    → offset + entry_bytes ≤ entries_bytes
    → length es < max_partitions
    → HasEnd buf (offset + 56)
    → (g' : Gpt) × (add_entry buf offset g ≡ some g') × Holds g' (es ++ entry_extents buf offset)
unfolding add_entry add_named
add_entry_lem buf offset g es h l c n =
    let inside : ltb entries_bytes (offset + entry_bytes) ≡ false = ground arith in
    let room : leb max_partitions g.partition_count ≡ false = ground (arith, h.counted) in
    elim (Bool-cases (is_empty 16 buf offset)) [
      | inl e ↦ (g, rw (inside, e), rw e (rw append-nil h))
      | inr e ↦
          let (name, k) =
            guid_to_utf8_total buf (offset + 56)
              (get_or g.partitions g.partition_count no_partition).name n (omega arith) in
          (
            placed g (extent_at buf offset) name,
            rw (inside, e, room, k) refl,
            rw e (placed-Holds g es (extent_at buf offset) name h c),
          )
    ]

length-entry_extents : (buf : Bytes) (offset : ℕ) → length (entry_extents buf offset) ≤ 1
length-entry_extents buf offset = ground arith

extents_step :
    (rounds i esize : ℕ) (buf : Bytes)
    → entry_extents buf (i * esize) ++ extents rounds (i + 1) esize buf
      ≡ extents (suc rounds) i esize buf
unfolding extents
extents_step rounds i esize buf = elim (Bool-cases (is_empty 16 buf (i * esize))) [
  | inl e ↦ rw e
  | inr e ↦ rw e
]

loop_step :
    (rounds i esize : ℕ) (buf : Bytes) (g : Gpt)
    → (i * esize) % 2 ^ 32 ≡ i * esize
    → entries_loop (suc rounds) i esize buf g
      ≡ and_then (add_entry buf (i * esize) g) (entries_loop rounds (i + 1) esize buf)
unfolding entries_loop
loop_step rounds i esize buf g e = rw e

first-zero : (ps : List Partition) → first 0 ps ≡ []
unfolding first
first-zero ps = refl

-- The entries from `i` on, on a table that holds `es`.
entries_loop_lem :
    (rounds i esize : ℕ) (buf : Bytes) (g : Gpt) (es : List Extent)
    → Holds g es
    → entry_bytes ≤ esize
    → (i + rounds) * esize ≤ entries_bytes
    → length es + rounds ≤ max_partitions
    → ((j : ℕ) → j < i + rounds → HasEnd buf (j * esize + 56))
    → (g' : Gpt) × (entries_loop rounds i esize buf g ≡ some g')
      × Holds g' (es ++ extents rounds i esize buf)
unfolding entries_loop extents
entries_loop_lem zero i esize buf g es h w l c n = (g, refl, rw append-nil h)
entries_loop_lem (suc rounds) i esize buf g es h w l c n =
    let step : (i + suc rounds) * esize ≡ i * esize + esize + rounds * esize = grind arith in
    let here : i * esize + entry_bytes ≤ entries_bytes = omega (arith, step, w, l) in
    let small : (i * esize) % 2 ^ 32 ≡ i * esize = omega arith in
    let next : i + 1 + rounds ≡ i + suc rounds = omega arith in
    let (g1, e1, h1) =
      add_entry_lem buf (i * esize) g es h here (omega arith) (n i (omega arith)) in
    let (g2, e2, h2) =
      entries_loop_lem rounds (i + 1) esize buf g1 (es ++ entry_extents buf (i * esize)) h1 w
        (omega (arith, ap (λ t. t * esize) next, l))
        (omega (
          arith,
          length-append {0} es (entry_extents buf (i * esize)),
          length-entry_extents buf (i * esize),
        ))
        (λ j k. n j (omega arith)) in
    (
      g2,
      loop_step rounds i esize buf g small
          ∙ ap (λ o. and_then o (entries_loop rounds (i + 1) esize buf)) e1
          ∙ e2,
      subst (Holds g2)
          (append_assoc es (entry_extents buf (i * esize)) _
            ∙ ap (λ t. es ++ t) (extents_step rounds i esize buf))
          h2,
    )

-- A disk whose header and entries can be read, with the signature, and whose entries lie in what
-- is read: gpt_init returns true without leaving its buffers, and the table holds the entries
-- that are not empty, in the order of the disk, and counts them.
pub gpt_init-extents :
    (read : ℕ → ℕ → Option Bytes) (sector buf : Bytes) (g : Gpt)
    → read 1 1 ≡ some sector
    → has_signature (header_at sector).signature ≡ true
    → read 2 32 ≡ some buf
    → length g.partitions ≡ max_partitions
    → Fits (header_at sector).num_partition_entries (header_at sector).partition_entry_size buf
    → (g' : Gpt) × (gpt_init read g ≡ some (true, g'))
      × (first g'.partition_count g'.partitions
          ≡ extents
              (header_at sector).num_partition_entries
              0
              (header_at sector).partition_entry_size
              buf)
      × (g'.partition_count
          ≡ length (
              extents
                (header_at sector).num_partition_entries
                0
                (header_at sector).partition_entry_size
                buf))
unfolding gpt_init on_header with_entries
gpt_init-extents read sector buf g r1 sig r2 room fits =
    let n = (header_at sector).num_partition_entries in
    let w = (header_at sector).partition_entry_size in
    let zero_n : 0 + n ≡ n = omega arith in
    let fresh : Gpt = record g { header = header_at sector; partition_count = 0 } in
    let (g', e, h) =
      entries_loop_lem n 0 w buf fresh []
        (record { room = room; counted = refl; listed = first-zero g.partitions }) fits.wide
        (omega (arith, ap (λ t. t * w) zero_n, fits.inside)) (omega (arith, fits.few))
        (λ j k. fits.names j (omega arith)) in
    (g', rw (r1, sig, r2, e) refl, h.listed, h.counted)
