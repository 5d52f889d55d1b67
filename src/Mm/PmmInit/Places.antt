-- ===== src/Mm/PmmInit/Places.antt =====
-- Addresses in `pmm_init`: the highest end, the number of pages, and the place of the bitmap.
use velox_os.Prelude.{
  ℕ, ◌+◌, ◌%◌, ◌^◌, ◌≤◌, ◌<◌, ◌≡◌, ◌⊎◌, ◌*◌, ◌/◌, ◌-◌, refl, ap, inl, inr, arith, ltb, leb, ◌&&◌,
  Bool, true, false, Bool-cases, if◌then◌else◌, Option, none, some, List, [], ◌∷◌, All,
}
use velox_os.Prelude.Words.{align_up, align_down, align_up_page, align_down_page}
use velox_os.Mm.PmmInit.{
  MemoryMapType, MemoryMapEntry, usable, reserved, acpi_reclaimable, acpi_nvs, bad_memory,
  bootloader_reclaimable, kernel_and_modules, framebuffer, is_usable, entry_end, max_end_loop,
  max_physical_end, find_bitmap_region,
}

-- The fields of an entry are words.
pub record IsEntry (e : MemoryMapEntry) : Type 0 where
  pub base_fits : e.base < 2 ^ 64
  pub len_fits : e.len < 2 ^ 64

abbrev pub AllEnds : ℕ → List MemoryMapEntry → Type 0
AllEnds limit = All (λ e. entry_end e ≤ limit)

pub entry_end_bounds :
    {e : MemoryMapEntry} → IsEntry e → (e.base ≤ entry_end e) × (entry_end e < 2 ^ 64)
unfolding entry_end
entry_end_bounds w = ground arith

max_end_loop_le : (es : List MemoryMapEntry) (m : ℕ) → m ≤ max_end_loop es m
unfolding max_end_loop
max_end_loop_le [] m = omega arith
max_end_loop_le (e ∷ es) m =
    ground (arith, max_end_loop_le es (if ltb m (entry_end e) then entry_end e else m))

max_end_loop-AllEnds : (es : List MemoryMapEntry) (m : ℕ) → AllEnds (max_end_loop es m) es
unfolding max_end_loop
max_end_loop-AllEnds [] m = tt
max_end_loop-AllEnds (e ∷ es) m =
    let next = if ltb m (entry_end e) then entry_end e else m in
    (ground (arith, max_end_loop_le es next), max_end_loop-AllEnds es next)

-- No entry ends above the highest address.
pub max_physical_end-AllEnds : (es : List MemoryMapEntry) → AllEnds (max_physical_end es) es
unfolding max_physical_end
max_physical_end-AllEnds es = max_end_loop-AllEnds es 0

max_end_loop_lt :
    (es : List MemoryMapEntry) (m : ℕ) → All IsEntry es → m < 2 ^ 64 → max_end_loop es m < 2 ^ 64
unfolding max_end_loop
max_end_loop_lt [] m w h = h
max_end_loop_lt (e ∷ es) m w h = max_end_loop_lt es _ w.1 (ground (arith, entry_end_bounds w.0))

pub max_physical_end_lt : (es : List MemoryMapEntry) → All IsEntry es → max_physical_end es < 2 ^ 64
unfolding max_physical_end
max_physical_end_lt es w = max_end_loop_lt es 0 w (omega arith)

-- What a place for `size` bytes of bitmap is, below the limit of all entries.
pub record IsPlace (limit size place : ℕ) : Type 0 where
  pub aligned : place % 4096 ≡ 0
  pub ends : place + align_up size 4096 ≤ limit

pub find_bitmap_region-IsPlace :
    (es : List MemoryMapEntry) (limit size place : ℕ)
    → All IsEntry es
    → AllEnds limit es
    → limit + 4095 < 2 ^ 64
    → find_bitmap_region es size ≡ some place
    → IsPlace limit size place
unfolding find_bitmap_region
find_bitmap_region-IsPlace [] limit size place w ends lim e = absurd (cc)
find_bitmap_region-IsPlace (x ∷ es) limit size place w ends lim e = ground (
  arith,
  entry_end_bounds w.0,
  align_up_page x.base,
  align_down_page (entry_end x),
  find_bitmap_region-IsPlace es limit size place w.1 ends.1 lim,
)

-- A page boundary in a usable entry, with room for the whole pages of `size` bytes up to the
-- entry's end and the end of the address space.
pub record FitsIn (size : ℕ) (e : MemoryMapEntry) (place : ℕ) : Type 0 where
  pub kind : e.kind ≡ usable
  pub aligned : place % 4096 ≡ 0
  pub above : e.base ≤ place
  pub below : place + (size + 4095) / 4096 * 4096 ≤ e.base + e.len
  pub low : place + (size + 4095) / 4096 * 4096 < 2 ^ 64

abbrev pub NoRoom : ℕ → MemoryMapEntry → Type 0
NoRoom size e = (place : ℕ) → FitsIn size e place → ⊥

-- The first page boundary of the first entry that has one with room.
abbrev pub IsFirst : (size place : ℕ) → List MemoryMapEntry → Type 0
IsFirst size place [] = ⊥
IsFirst size place (e ∷ es) =
    (FitsIn size e place × (place < e.base + 4096)) ⊎ (NoRoom size e × IsFirst size place es)

abbrev pub PlaceSpec : ℕ → List MemoryMapEntry → Option ℕ → Type 0
PlaceSpec size es none = All (NoRoom size) es
PlaceSpec size es (some place) = IsFirst size place es

usable_lem : (k : MemoryMapType) → is_usable k ≡ true → k ≡ usable
usable_lem usable h = refl
usable_lem reserved h = absurd (cc)
usable_lem acpi_reclaimable h = absurd (cc)
usable_lem acpi_nvs h = absurd (cc)
usable_lem bad_memory h = absurd (cc)
usable_lem bootloader_reclaimable h = absurd (cc)
usable_lem kernel_and_modules h = absurd (cc)
usable_lem framebuffer h = absurd (cc)

entry_end_lem :
    (e : MemoryMapEntry)
    → IsEntry e
    → (entry_end e ≤ e.base + e.len)
      × (entry_end e < 2 ^ 64)
      × ((entry_end e ≡ e.base + e.len) ⊎ (entry_end e ≡ 2 ^ 64 - 1))
unfolding entry_end
entry_end_lem e w = ground (arith, w.base_fits, w.len_fits)

-- The test of an entry in `find_bitmap_region`, its addresses rounded.
abbrev has_place : ℕ → MemoryMapEntry → Bool
has_place size e =
    let start = align_up e.base 4096 in
    let end = align_down (entry_end e) 4096 in
    is_usable e.kind && (leb start end && leb (align_up size 4096) (end - start))

module _ (size : ℕ) (e : MemoryMapEntry) (w : IsEntry e) (low : entry_end e + 4095 < 2 ^ 64)
    (small : size + 4095 < 2 ^ 64) where
  start : align_up e.base 4096 ≡ (e.base + 4095) / 4096 * 4096
  start = omega (arith, align_up_page e.base, (entry_end_bounds w).0)

  end : align_down (entry_end e) 4096 ≡ entry_end e / 4096 * 4096
  end = align_down_page (entry_end e) (omega arith)

  span : align_up size 4096 ≡ (size + 4095) / 4096 * 4096
  span = omega (arith, align_up_page size)

  fits :
      has_place size e ≡ true
      → FitsIn size e (align_up e.base 4096) × (align_up e.base 4096 < e.base + 4096)
  fits h =
      let room : align_up e.base 4096 + align_up size 4096 ≤ align_down (entry_end e) 4096 =
        ground arith in
      let whole = entry_end_lem e w in
      (
        record {
          kind = usable_lem e.kind (ground arith);
          aligned = omega (arith, start);
          above = omega (arith, start);
          below = omega (arith, room, start, end, span, whole.0);
          low = omega (arith, room, start, end, span, whole.1);
        },
        omega (arith, start),
      )

  no_room : has_place size e ≡ false → NoRoom size e
  no_room h place f =
      let kind : is_usable e.kind ≡ true = ap is_usable f.kind in
      let end_below : place + (size + 4095) / 4096 * 4096 ≤ entry_end e =
        omega (arith, entry_end_lem e w, f.below, f.low) in
      let room : align_up e.base 4096 + align_up size 4096 ≤ align_down (entry_end e) 4096 =
        omega (arith, start, end, span, f.aligned, f.above, end_below) in
      absurd (ground (arith, kind, room))

PlaceSpec-later :
    (size : ℕ) (e : MemoryMapEntry) (es : List MemoryMapEntry) (r : Option ℕ)
    → NoRoom size e
    → PlaceSpec size es r
    → PlaceSpec size (e ∷ es) r
PlaceSpec-later size e es none n h = (n, h)
PlaceSpec-later size e es (some place) n h = inr (n, h)

-- `find_bitmap_region` returns the first place with room, and none only where no entry has room.
pub find_bitmap_region-PlaceSpec :
    (es : List MemoryMapEntry) (limit size : ℕ)
    → All IsEntry es
    → AllEnds limit es
    → limit + 4095 < 2 ^ 64
    → size + 4095 < 2 ^ 64
    → PlaceSpec size es (find_bitmap_region es size)
unfolding find_bitmap_region
find_bitmap_region-PlaceSpec [] limit size w ends lim small = tt
find_bitmap_region-PlaceSpec (e ∷ es) limit size w ends lim small =
    let low : entry_end e + 4095 < 2 ^ 64 = omega (arith, ends.0) in
    let later = find_bitmap_region-PlaceSpec es limit size w.1 ends.1 lim small in
    elim (Bool-cases (has_place size e)) [
      | inl yes_room ↦ rw yes_room (inl (fits size e w.0 low small yes_room))
      | inr full ↦ rw full (
          PlaceSpec-later size e es (find_bitmap_region es size) (no_room size e w.0 low small full)
            later)
    ]
