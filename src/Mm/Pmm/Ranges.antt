-- ===== src/Mm/Pmm/Ranges.antt =====
-- `mark_range_free` and `mark_range_used` of mm/pmm.c: which pages a range of addresses marks.
use velox_os.Prelude.{
  ℕ, zero, suc, ◌+◌, ◌*◌, ◌/◌, ◌^◌, ◌<◌, ◌≡◌, refl, Bool, true, false, ◌&&◌, arith, ltb, leb,
  if◌then◌else◌, ◌∙◌, Bool-cases, inl, inr,
}
use velox_os.Prelude.Words.{align_up, align_down, align_up_page, align_down_page}
use velox_os.Mm.Bitmap.{bit_test}
use velox_os.Mm.Pmm.{
  Pmm, total, mark_page_used, free_loop, used_loop, mark_range_free, mark_range_used,
}
use velox_os.Mm.Pmm.Marks.{
  IsValid, SameFrame-trans, Marked, mark_page_used-IsValid, mark_page_free-IsValid,
  mark_page_used-SameFrame, mark_page_free-SameFrame, bit_test-mark_page_used,
  bit_test-mark_page_free,
}

-- The page `q` is one of `rounds` pages from `page` on.
abbrev among : ℕ → ℕ → ℕ → Bool
among page rounds q = leb page q && ltb q (page + rounds)

abbrev pub used_bits : Pmm → (ℕ → Bool) → ℕ → Bool
used_bits s chosen q = if ltb q (total s) && chosen q then true else bit_test s.bitmap q

abbrev pub free_bits : Pmm → (ℕ → Bool) → ℕ → Bool
free_bits s chosen q = if ltb q (total s) && chosen q then false else bit_test s.bitmap q

pub used_loop-Marked :
    (rounds page : ℕ) {s : Pmm}
    → IsValid s
    → Marked s (used_loop rounds page s) (used_bits s (among page rounds))
unfolding used_loop
used_loop-Marked zero page v = record { valid = v; frame = ground arith; bit = λ q. ground arith }
used_loop-Marked (suc rounds) page {s} v =
    let s' = mark_page_used page s in
    let same = mark_page_used-SameFrame s page in
    let rest = used_loop-Marked rounds (page + 1) (mark_page_used-IsValid v page) in
    record {
      valid = rest.valid;
      frame = SameFrame-trans same rest.frame;
      bit = λ q. ground (arith, rest.bit q, bit_test-mark_page_used v page q, same.total_pages);
    }

pub free_loop-Marked :
    (rounds page : ℕ) {s : Pmm}
    → IsValid s
    → Marked s (free_loop rounds page s) (free_bits s (among page rounds))
unfolding free_loop
free_loop-Marked zero page v = record { valid = v; frame = ground arith; bit = λ q. ground arith }
free_loop-Marked (suc rounds) page {s} v =
    let same = mark_page_free-SameFrame s page in
    let rest = free_loop-Marked rounds (page + 1) (mark_page_free-IsValid v page) in
    record {
      valid = rest.valid;
      frame = SameFrame-trans same rest.frame;
      bit = λ q. ground (arith, rest.bit q, bit_test-mark_page_free v page q, same.total_pages);
    }

-- The range covers the whole page, or touches it.
abbrev pub covers_page : (start end q : ℕ) → Bool
covers_page start end q = leb start (q * 4096) && leb ((q + 1) * 4096) end

abbrev pub touches_page : (start end q : ℕ) → Bool
touches_page start end q = ltb start end && (ltb start ((q + 1) * 4096) && ltb (q * 4096) end)

Marked-ext :
    {s t : Pmm} {bits bits' : ℕ → Bool}
    → Marked s t bits
    → ((q : ℕ) → bits q ≡ bits' q)
    → Marked s t bits'
Marked-ext m e = record { valid = m.valid; frame = m.frame; bit = λ q. m.bit q ∙ e q }

Marked-self : {s : Pmm} → IsValid s → Marked s s (bit_test s.bitmap)
Marked-self v = record { valid = v; frame = ground arith; bit = λ q. refl }

-- In a valid state, of a range whose start does not wrap when it is rounded up, `mark_range_free` frees exactly the
-- pages below the total that it covers, keeps the counters right, and changes no other bit.
pub mark_range_free_lem :
    (start end : ℕ) {s : Pmm}
    → start + 4095 < 2 ^ 64
    → end < 2 ^ 64
    → IsValid s
    → Marked s (mark_range_free start end s) (free_bits s (covers_page start end))
unfolding mark_range_free
mark_range_free_lem start end {s} hs he v = elim (Bool-cases (leb end start)) [
  | inl none_left ↦ rw none_left (Marked-ext (Marked-self v) (λ q. ground arith))
  | inr some_left ↦ rw some_left (
      Marked-ext (free_loop-Marked _ (align_up start 4096 / 4096) v)
        (λ q. ground (arith, align_up_page start, align_down_page end)))
]

-- In a valid state, of a range whose end does not wrap when it is rounded up, `mark_range_used` sets exactly the
-- pages below the total that it touches, keeps the counters right, and changes no other bit.
pub mark_range_used_lem :
    (start end : ℕ) {s : Pmm}
    → start < 2 ^ 64
    → end + 4095 < 2 ^ 64
    → IsValid s
    → Marked s (mark_range_used start end s) (used_bits s (touches_page start end))
unfolding mark_range_used
mark_range_used_lem start end {s} hs he v = elim (Bool-cases (leb end start)) [
  | inl none_left ↦ rw none_left (Marked-ext (Marked-self v) (λ q. ground arith))
  | inr some_left ↦ rw some_left (
      Marked-ext (used_loop-Marked _ (align_down start 4096 / 4096) v)
        (λ q. ground (arith, align_up_page end, align_down_page start)))
]
