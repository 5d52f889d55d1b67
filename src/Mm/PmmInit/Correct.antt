-- ===== src/Mm/PmmInit/Correct.antt =====
-- `pmm_init` of mm/pmm.c on a memory map of words.
use velox_os.Prelude.{
  ℕ, ◌+◌, ◌/◌, ◌^◌, ◌≤◌, ◌<◌, ◌≡◌, ◌≢◌, ◌⊎◌, refl, Bool, true, false, not, ◌&&◌, arith, ◌==◌, List,
  [], ◌∷◌, All, inl, inr, none, some, Option-cases,
}
use mathlib.Core.Path.{subst}
use native.Mathlib.Decide.{ℕ_discrete}
use velox_os.Prelude.Words.{u64, align_up, align_up_page, align_up_eight}
use velox_os.Mm.Bitmap.{bit_test, bit_test-replicate}
use velox_os.Mm.Pmm.{Pmm, total}
use velox_os.Mm.Pmm.Marks.{IsValid, Marked}
use velox_os.Mm.PmmInit.{
  MemoryMapEntry, max_physical_end, find_bitmap_region, InitPanic, InitResult, ready, panic,
  invalid_memory_map, no_physical_pages, no_space_for_bitmap, accounting_mismatch, fresh, mark_map,
  check_accounting, pmm_init,
}
use velox_os.Mm.PmmInit.Places.{
  IsEntry, max_physical_end-AllEnds, max_physical_end_lt, IsPlace, find_bitmap_region-IsPlace,
  NoRoom, IsFirst, PlaceSpec, find_bitmap_region-PlaceSpec,
}
use velox_os.Mm.PmmInit.Fresh.{fresh-IsValid}
use velox_os.Mm.PmmInit.Marking.{in_usable, reserved, final_bits, mark_map-Marked}

-- A started allocator whose free pages are given.
pub record Started (pages : ℕ) (free : ℕ → Bool) (t : Pmm) : Type 0 where
  pub valid : IsValid t
  pub started : t.initialized ≡ true
  pub total_pages : total t ≡ pages
  pub hint : pages ≢ 0 → t.next_search < total t
  pub bit : (q : ℕ) → q < pages → bit_test t.bitmap q ≡ not (free q)

abbrev pub StartsOr : (Pmm → Type 0) → (InitPanic → Type 0) → InitResult → Type 0
StartsOr P Q (ready t) = P t
StartsOr P Q (panic why) = Q why

check_accounting-Started :
    {t : Pmm} (free : ℕ → Bool)
    → IsValid t
    → ((q : ℕ) → q < total t → bit_test t.bitmap q ≡ not (free q))
    → StartsOr (Started (total t) free) (λ _. ⊥) (check_accounting t)
unfolding check_accounting
check_accounting-Started {t} free v bits =
    let sums : (u64 (t.info.free_pages + t.info.used_pages) == total t) ≡ true = ground arith in
    rw sums (record {
      valid = record {
        bytes = v.bytes;
        covers = v.covers;
        small = v.small;
        free_count = v.free_count;
        all_counted = v.all_counted;
      };
      started = refl;
      total_pages = refl;
      hint = λ some_pages. ground arith;
      bit = bits;
    })

-- The pages up to the highest address, and the bytes of their bitmap.
abbrev pub page_count : List MemoryMapEntry → ℕ
page_count es = (max_physical_end es + 4095) / 4096

abbrev pub byte_count : List MemoryMapEntry → ℕ
byte_count es = (page_count es + 7) / 8

-- Why `pmm_init` panics: the counters never disagree.
abbrev pub Cause : List MemoryMapEntry → InitPanic → Type 0
Cause es invalid_memory_map = es ≡ []
Cause es no_physical_pages = (max_physical_end es ≡ 0) ⊎ (2 ^ 64 ≤ max_physical_end es + 4095)
Cause es no_space_for_bitmap = All (NoRoom (byte_count es)) es
Cause es accounting_mismatch = ⊥

abbrev pub boot_free : List MemoryMapEntry → (place kernel_start kernel_end : ℕ) → ℕ → Bool
boot_free es place kernel_start kernel_end q =
    in_usable es q && not (reserved place (byte_count es) kernel_start kernel_end q)

abbrev pub Boots : (kernel_start kernel_end : ℕ) → List MemoryMapEntry → Pmm → Type 0
Boots kernel_start kernel_end es t =
    (place : ℕ) × IsFirst (byte_count es) place es
    × Started (page_count es) (boot_free es place kernel_start kernel_end) t

StartsOr-map :
    {P : Pmm → Type 0} (P' : Pmm → Type 0) (Q : InitPanic → Type 0) (r : InitResult)
    → ((t : Pmm) → P t → P' t)
    → StartsOr P (λ _. ⊥) r
    → StartsOr P' Q r
StartsOr-map P' Q (ready t) f h = f t h
StartsOr-map P' Q (panic why) f h = absurd h

no_pages :
    (highest : ℕ)
    → highest < 2 ^ 64
    → align_up highest 4096 / 4096 ≡ 0
    → (highest ≡ 0) ⊎ (2 ^ 64 ≤ highest + 4095)
no_pages highest lt h = omega (arith, align_up_page highest)

some_pages :
    (highest : ℕ)
    → highest < 2 ^ 64
    → align_up highest 4096 / 4096 ≢ 0
    → (align_up highest 4096 / 4096 ≡ (highest + 4095) / 4096)
      × (0 < (highest + 4095) / 4096)
      × (highest + 4095 < 2 ^ 64)
some_pages highest lt h = omega (arith, align_up_page highest)

byte_count_lem : (pages : ℕ) → pages ≤ 2 ^ 52 → align_up pages 8 / 8 ≡ (pages + 7) / 8
byte_count_lem pages h = omega (arith, align_up_eight pages)

module _ (kernel_start kernel_end : ℕ) (es : List MemoryMapEntry) (old : Pmm)
    (ks : kernel_start < 2 ^ 64) (ke : kernel_end + 4095 < 2 ^ 64) (w : All IsEntry es)
    (low : max_physical_end es + 4095 < 2 ^ 64) where
  placed :
      (place : ℕ)
      → find_bitmap_region es (byte_count es) ≡ some place
      → StartsOr (Boots kernel_start kernel_end es) (Cause es) (
          check_accounting (
            mark_map kernel_start kernel_end es
              (fresh (max_physical_end es) (page_count es) (byte_count es) place old)))
  placed place found =
      StartsOr-map (Boots kernel_start kernel_end es) (Cause es) _
        (λ t h. (place, rw found at spec, rw m.frame.total_pages at h))
        (check_accounting-Started (boot_free es place kernel_start kernel_end) m.valid
          (λ q l. ground (arith, m.bit q, m.frame.total_pages)))
    where
      start : Pmm
      start = fresh (max_physical_end es) (page_count es) (byte_count es) place old

      v : IsValid start
      v =
          fresh-IsValid (max_physical_end es) (page_count es) (byte_count es) place old
            (omega arith) (omega arith)

      spec : PlaceSpec (byte_count es) es (find_bitmap_region es (byte_count es))
      spec =
          find_bitmap_region-PlaceSpec es (max_physical_end es) (byte_count es) w
            (max_physical_end-AllEnds es) low (omega arith)

      here : IsPlace (max_physical_end es) (byte_count es) place
      here =
          find_bitmap_region-IsPlace es (max_physical_end es) (byte_count es) place w
            (max_physical_end-AllEnds es) low found

      m :
          Marked start
            (mark_map kernel_start kernel_end es start)
            (final_bits es start kernel_start kernel_end)
      m =
          mark_map-Marked kernel_start kernel_end es (max_physical_end es) start ks ke w
            (max_physical_end-AllEnds es) low v
            (λ q l. bit_test-replicate (byte_count es) q (omega arith)) here

no_place :
    (es : List MemoryMapEntry) (size : ℕ)
    → find_bitmap_region es size ≡ none
    → PlaceSpec size es (find_bitmap_region es size)
    → All (NoRoom size) es
no_place es size e h = subst (PlaceSpec size es) e h

-- On a memory map of words `pmm_init` panics only for the cause that the message names: the map is
-- empty, it has no pages below 2 ^ 64, or no usable entry has room for the bitmap's whole pages; the
-- check of the counters never fails. Otherwise it ends in a started allocator whose counters are
-- right and whose free pages are exactly those that a usable entry covers, less the pages of the
-- bitmap, which lies at the first place with room, of the kernel and page 0.
pub pmm_init_lem :
    (kernel_start kernel_end : ℕ) (es : List MemoryMapEntry) (old : Pmm)
    → kernel_start < 2 ^ 64
    → kernel_end + 4095 < 2 ^ 64
    → All IsEntry es
    → StartsOr
        (Boots kernel_start kernel_end es)
        (Cause es)
        (pmm_init kernel_start kernel_end es old)
unfolding pmm_init
pmm_init_lem ks ke [] old ksl kel w = refl
pmm_init_lem ks ke (e ∷ es) old ksl kel w =
    elim (ℕ_discrete (align_up (max_physical_end (e ∷ es)) 4096 / 4096) 0) [
      | yes none_left ↦
          rw none_left
            (no_pages (max_physical_end (e ∷ es)) (max_physical_end_lt (e ∷ es) w) none_left)
      | no some_left ↦
          let (same, pos, low) =
            some_pages (max_physical_end (e ∷ es)) (max_physical_end_lt (e ∷ es) w) some_left in
          let test : (page_count (e ∷ es) == 0) ≡ false = ground arith in
          let bytes : align_up (page_count (e ∷ es)) 8 / 8 ≡ byte_count (e ∷ es) =
            byte_count_lem (page_count (e ∷ es)) (omega arith) in
          elim (Option-cases (find_bitmap_region (e ∷ es) (byte_count (e ∷ es)))) [
            | inl nowhere ↦
                let spec : PlaceSpec (byte_count (e ∷ es)) (e ∷ es)
                    (find_bitmap_region (e ∷ es) (byte_count (e ∷ es))) =
                  find_bitmap_region-PlaceSpec (e ∷ es) (max_physical_end (e ∷ es))
                    (byte_count (e ∷ es)) w (max_physical_end-AllEnds (e ∷ es)) low (omega arith) in
                rw (same, test, bytes, nowhere)
                  (no_place (e ∷ es) (byte_count (e ∷ es)) nowhere spec)
            | inr (place, found) ↦
                rw (same, test, bytes, found)
                  (rw (same, bytes) (placed ks ke (e ∷ es) old ksl kel w low place found))
          ]
    ]
