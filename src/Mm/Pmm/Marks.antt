-- ===== src/Mm/Pmm/Marks.antt =====
-- `mark_page_used`, `mark_page_free` of mm/pmm.c: the bitmap and the counters.
use velox_os.Prelude.{
  ℕ, zero, suc, ◌+◌, ◌*◌, ◌^◌, ◌≤◌, ◌<◌, ◌≡◌, refl, Bool, true, false, ◌&&◌, arith, ltb, ◌==◌,
  if◌then◌else◌, length,
}
use velox_os.Mm.Bitmap.{
  IsBytes, bit_test, bit_set, bit_clear, bit_set-IsBytes, bit_clear-IsBytes, bit_test-bit_set,
  bit_test-bit_clear, length-bit_set, length-bit_clear,
}
use velox_os.Mm.Pmm.{Pmm, total, mark_page_used, mark_page_free}

-- The pages below a bound whose bit is clear.
unfoldable pub count_clear : (ℕ → Bool) → ℕ → ℕ
count_clear f zero = 0
count_clear f (suc n) = count_clear f n + (if f n then 0 else 1)

pub count_clear-le : (f : ℕ → Bool) (n : ℕ) → count_clear f n ≤ n
unfolding count_clear
count_clear-le f zero = omega arith
count_clear-le f (suc n) = ground (arith, count_clear-le f n)

-- `g` is `f` with the bit of `p` set.
module _ (f g : ℕ → Bool) (p : ℕ) (change : (q : ℕ) → g q ≡ (if p == q then true else f q)) where
  count_clear_above : (n : ℕ) → n ≤ p → count_clear g n ≡ count_clear f n
  unfolding count_clear
  count_clear_above zero h = refl
  count_clear_above (suc n) h = ground (arith, change n, count_clear_above n)

  count_clear_set : (n : ℕ) → p < n → f p ≡ false → count_clear g n + 1 ≡ count_clear f n
  unfolding count_clear
  count_clear_set zero h e = absurd (omega arith)
  count_clear_set (suc n) h e =
      ground (arith, change n, change p, count_clear_above n, count_clear_set n)

pub record IsValid (s : Pmm) : Type 0 where
  pub bytes : IsBytes s.bitmap
  pub covers : total s ≤ 8 * length s.bitmap
  pub small : total s ≤ 2 ^ 52
  pub free_count : s.info.free_pages ≡ count_clear (bit_test s.bitmap) (total s)
  pub all_counted : s.info.free_pages + s.info.used_pages ≡ total s

-- What marking pages leaves alone.
pub record SameFrame (s t : Pmm) : Type 0 where
  pub total_pages : total t ≡ total s
  pub bitmap_bytes : t.info.bitmap_bytes ≡ s.info.bitmap_bytes
  pub base : t.info.bitmap_phys_base ≡ s.info.bitmap_phys_base
  pub highest : t.info.highest_physical_address ≡ s.info.highest_physical_address
  pub hint : t.next_search ≡ s.next_search
  pub started : t.initialized ≡ s.initialized

-- A valid state in the same frame, whose bits are given.
pub record Marked (s t : Pmm) (bits : ℕ → Bool) : Type 0 where
  pub valid : IsValid t
  pub frame : SameFrame s t
  pub bit : (q : ℕ) → bit_test t.bitmap q ≡ bits q

pub SameFrame-trans : {s t u : Pmm} → SameFrame s t → SameFrame t u → SameFrame s u
SameFrame-trans h k = ground arith

module _ {s : Pmm} (v : IsValid s) (page : ℕ) where
  open v use {bytes, covers, small, free_count, all_counted}

  abbrev before : ℕ → Bool
  before = bit_test s.bitmap

  abbrev Inside : Type 0
  Inside = page < total s

  in_bitmap : Inside → page < 8 * length s.bitmap
  in_bitmap h = omega arith

  used_bit :
      (q : ℕ) → Inside → bit_test (bit_set s.bitmap page) q ≡ (if page == q then true else before q)
  used_bit q h = bit_test-bit_set s.bitmap page bytes (in_bitmap h) q

  free_bit :
      (q : ℕ)
      → Inside
      → bit_test (bit_clear s.bitmap page) q ≡ (if page == q then false else before q)
  free_bit q h = bit_test-bit_clear s.bitmap page bytes (in_bitmap h) q

  used_count :
      Inside
      → before page ≡ false
      → count_clear (bit_test (bit_set s.bitmap page)) (total s) + 1 ≡ count_clear before (total s)
  used_count h e =
      count_clear_set before (bit_test (bit_set s.bitmap page)) page (λ q. used_bit q h) (total s) h
        e

  -- Read backwards, clearing a bit that was set is setting it.
  free_count_bits :
      Inside
      → before page ≡ true
      → count_clear before (total s) + 1
        ≡ count_clear (bit_test (bit_clear s.bitmap page)) (total s)
  free_count_bits h e =
      count_clear_set (bit_test (bit_clear s.bitmap page)) before page
        (λ q. ground (arith, free_bit q h, e)) (total s) h (ground (arith, free_bit page h))

  pub mark_page_used-IsValid : IsValid (mark_page_used page s)
  unfolding mark_page_used
  mark_page_used-IsValid = record {
    bytes = ground (arith, bit_set-IsBytes s.bitmap page bytes);
    covers = ground (arith, length-bit_set s.bitmap page);
    small = ground arith;
    free_count = ground (arith, used_count, count_clear-le before (total s));
    all_counted = ground (arith, used_count, count_clear-le before (total s));
  }

  pub mark_page_free-IsValid : IsValid (mark_page_free page s)
  unfolding mark_page_free
  mark_page_free-IsValid = record {
    bytes = ground (arith, bit_clear-IsBytes s.bitmap page bytes);
    covers = ground (arith, length-bit_clear s.bitmap page);
    small = ground arith;
    free_count = ground (
      arith,
      free_count_bits,
      count_clear-le before (total s),
      count_clear-le (bit_test (bit_clear s.bitmap page)) (total s),
    );
    all_counted = ground (
      arith,
      free_count_bits,
      count_clear-le before (total s),
      count_clear-le (bit_test (bit_clear s.bitmap page)) (total s),
    );
  }

  pub bit_test-mark_page_used :
      (q : ℕ)
      → bit_test (mark_page_used page s).bitmap q
        ≡ (if ltb page (total s) && (page == q) then true else bit_test s.bitmap q)
  unfolding mark_page_used
  bit_test-mark_page_used q = ground (arith, used_bit q)

  pub bit_test-mark_page_free :
      (q : ℕ)
      → bit_test (mark_page_free page s).bitmap q
        ≡ (if ltb page (total s) && (page == q) then false else bit_test s.bitmap q)
  unfolding mark_page_free
  bit_test-mark_page_free q = ground (arith, free_bit q)

module _ (s : Pmm) (page : ℕ) where
  pub mark_page_used-SameFrame : SameFrame s (mark_page_used page s)
  unfolding mark_page_used
  mark_page_used-SameFrame = ground arith

  pub mark_page_free-SameFrame : SameFrame s (mark_page_free page s)
  unfolding mark_page_free
  mark_page_free-SameFrame = ground arith
