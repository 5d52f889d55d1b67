-- ===== src/Mm/PmmInit/Marking.antt =====
-- The bits after `pmm_init` of mm/pmm.c has freed the usable entries and marked what it keeps.
use velox_os.Prelude.{
  ℕ, ◌+◌, ◌^◌, ◌<◌, ◌≡◌, Bool, true, false, not, ◌&&◌, ◌||◌, arith, ltb, ◌==◌, if◌then◌else◌, List,
  [], ◌∷◌, All, Bool-cases, inl, inr,
}
use velox_os.Prelude.Words.{u64, align_up}
use velox_os.Mm.Bitmap.{bit_test}
use velox_os.Mm.Pmm.{Pmm, total}
use velox_os.Mm.Pmm.Marks.{
  IsValid, Marked, SameFrame-trans, mark_page_used-IsValid, mark_page_used-SameFrame,
  bit_test-mark_page_used,
}
use velox_os.Mm.Pmm.Ranges.{
  free_bits, covers_page, touches_page, mark_range_free_lem, mark_range_used_lem,
}
use velox_os.Mm.PmmInit.{MemoryMapEntry, is_usable, entry_end, free_usable, mark_map}
use velox_os.Mm.PmmInit.Places.{IsEntry, AllEnds, entry_end_bounds, IsPlace}

-- A usable entry covers the whole page.
abbrev pub in_usable : List MemoryMapEntry → ℕ → Bool
in_usable [] q = false
in_usable (e ∷ es) q = (is_usable e.kind && covers_page e.base (entry_end e) q) || in_usable es q

free_usable-Marked :
    (es : List MemoryMapEntry) (limit : ℕ) {s : Pmm}
    → All IsEntry es
    → AllEnds limit es
    → limit + 4095 < 2 ^ 64
    → IsValid s
    → Marked s (free_usable es s) (free_bits s (in_usable es))
unfolding free_usable
free_usable-Marked [] limit w ends lim v = record {
  valid = v;
  frame = ground arith;
  bit = λ q. ground arith;
}
free_usable-Marked (e ∷ es) limit {s} w ends lim v = elim (Bool-cases (is_usable e.kind)) [
  | inl usable_entry ↦ rw usable_entry (
      let here = entry_end_bounds w.0 in
      let m = mark_range_free_lem e.base (entry_end e) (omega arith) (omega arith) v in
      let rest = free_usable-Marked es limit w.1 ends.1 lim m.valid in
      record {
        valid = rest.valid;
        frame = SameFrame-trans m.frame rest.frame;
        bit = λ q. ground (arith, rest.bit q, m.bit q, m.frame.total_pages);
      })
  | inr other_entry ↦ rw (other_entry, in_usable) (free_usable-Marked es limit w.1 ends.1 lim v)
]

-- A page that `pmm_init` reserves: the bitmap's, the kernel's, or page 0.
abbrev pub reserved : (base size kernel_start kernel_end : ℕ) → ℕ → Bool
reserved base size kernel_start kernel_end q =
    touches_page base (base + align_up size 4096) q
    || (touches_page kernel_start kernel_end q || (q == 0))

-- The bits of a full bitmap after `mark_map`.
abbrev pub final_bits : List MemoryMapEntry → Pmm → (kernel_start kernel_end : ℕ) → ℕ → Bool
final_bits es s kernel_start kernel_end q =
    if ltb q (total s)
    then not (
        in_usable es q
        && not (reserved s.info.bitmap_phys_base s.info.bitmap_bytes kernel_start kernel_end q))
    else bit_test s.bitmap q

module _ (kernel_start kernel_end : ℕ) (es : List MemoryMapEntry) (limit : ℕ) (s : Pmm)
    (ks : kernel_start < 2 ^ 64) (ke : kernel_end + 4095 < 2 ^ 64) (w : All IsEntry es)
    (ends : AllEnds limit es) (lim : limit + 4095 < 2 ^ 64) (v : IsValid s)
    (full : (q : ℕ) → q < total s → bit_test s.bitmap q ≡ true)
    (place : IsPlace limit s.info.bitmap_bytes s.info.bitmap_phys_base) where
  abbrev base : ℕ
  base = s.info.bitmap_phys_base

  abbrev size : ℕ
  size = s.info.bitmap_bytes

  pub mark_map-Marked :
      Marked s (mark_map kernel_start kernel_end es s) (final_bits es s kernel_start kernel_end)
  unfolding mark_map
  mark_map-Marked =
      let a = free_usable-Marked es limit w ends lim v in
      let wraps : u64 (base + align_up size 4096) ≡ base + align_up size 4096 =
        omega (arith, place.ends) in
      let b =
        mark_range_used_lem base (u64 (base + align_up size 4096)) (omega (arith, place.ends))
          (omega (arith, place.ends)) a.valid in
      let c = mark_range_used_lem kernel_start kernel_end ks ke b.valid in
      let last = mark_page_used-SameFrame _ 0 in
      record {
        valid = mark_page_used-IsValid c.valid 0;
        frame = SameFrame-trans a.frame (SameFrame-trans b.frame (SameFrame-trans c.frame last));
        bit = λ q. ground (
          arith,
          bit_test-mark_page_used c.valid 0 q,
          c.bit q,
          b.bit q,
          a.bit q,
          full q,
          wraps,
          a.frame.total_pages,
          b.frame.total_pages,
          c.frame.total_pages,
        );
      }
