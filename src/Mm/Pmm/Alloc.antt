-- ===== src/Mm/Pmm/Alloc.antt =====
-- `pmm_try_alloc_page_phys` of mm/pmm.c: the circular scan.
use velox_os.Prelude.{
  ℕ, zero, suc, ◌+◌, ◌-◌, ◌*◌, ◌≤◌, ◌<◌, ◌≡◌, ◌⊎◌, refl, Bool, true, false, not, ◌||◌, arith, leb,
  ◌==◌, if◌then◌else◌, Bool-cases, inl, inr, Option, none, some,
}
use native.Mathlib.Decide.{dec_lt, ℕ_discrete}
use velox_os.Prelude.Words.{u64}
use velox_os.Mm.Bitmap.{bit_test}
use velox_os.Mm.Pmm.{
  Pmm, total, mark_page_used, scan_page, take_page, alloc_loop, pmm_try_alloc_page_phys,
}
use velox_os.Mm.Pmm.Marks.{
  IsValid, count_clear, count_clear-le, mark_page_used-IsValid, mark_page_used-SameFrame,
  bit_test-mark_page_used,
}

count_clear-zero : (f : ℕ → Bool) (n q : ℕ) → count_clear f n ≡ 0 → q < n → f q ≡ true
unfolding count_clear
count_clear-zero f zero q e h = absurd (omega arith)
count_clear-zero f (suc n) q e h = ground (arith, count_clear-zero f n q)

-- What an allocation that takes `page` does.
pub record Takes (s : Pmm) (page : ℕ) (t : Pmm) : Type 0 where
  pub within : page < total s
  pub was_free : bit_test s.bitmap page ≡ false
  pub valid : IsValid t
  pub total_pages : total t ≡ total s
  pub started : t.initialized ≡ s.initialized
  pub bit : (q : ℕ) → bit_test t.bitmap q ≡ (if page == q then true else bit_test s.bitmap q)
  pub one_less : t.info.free_pages + 1 ≡ s.info.free_pages

take_page-Takes :
    {s : Pmm} (page : ℕ)
    → IsValid s
    → page < total s
    → bit_test s.bitmap page ≡ false
    → Takes s page (take_page page s)
unfolding mark_page_used
take_page-Takes {s} page v h e =
    let m = mark_page_used-IsValid v page in
    record {
      within = h;
      was_free = e;
      valid = record {
        bytes = m.bytes;
        covers = m.covers;
        small = m.small;
        free_count = m.free_count;
        all_counted = m.all_counted;
      };
      total_pages = (mark_page_used-SameFrame s page).total_pages;
      started = (mark_page_used-SameFrame s page).started;
      bit = λ q. ground (arith, bit_test-mark_page_used v page q);
      one_less = ground (
        arith,
        count_clear-zero (bit_test s.bitmap) (total s) page,
        count_clear-le (bit_test s.bitmap) (total s),
        v.free_count,
        v.small,
      );
    }

module _ {s : Pmm} (v : IsValid s) (start : ℕ) (first : start < total s) where
  abbrev page_at : ℕ → ℕ
  page_at k = scan_page (total s) start k

  page_at-lt : (k : ℕ) → k < total s → page_at k < total s
  page_at-lt k h = ground (arith, v.small)

  abbrev LoopSpec : ℕ → Option ℕ × Pmm → Type 0
  LoopSpec scanned (some page, t) = Takes s page t
  LoopSpec scanned (none, t) =
      (t ≡ s) × ((k : ℕ) → scanned ≤ k → k < total s → bit_test s.bitmap (page_at k) ≡ true)

  earlier :
      (scanned : ℕ) (r : Option ℕ × Pmm)
      → bit_test s.bitmap (page_at scanned) ≡ true
      → LoopSpec (scanned + 1) r
      → LoopSpec scanned r
  earlier scanned (some page, t) taken h = h
  earlier scanned (none, t) taken h = (
    h.0,
    λ k lo hi. elim (ℕ_discrete scanned k) [
      | yes e ↦ rw (← e) taken
      | no ne ↦ h.1 k (omega arith) hi
    ],
  )

  alloc_loop-LoopSpec :
      (rounds scanned : ℕ)
      → rounds + scanned ≡ total s
      → LoopSpec scanned (alloc_loop rounds start scanned s)
  unfolding alloc_loop
  alloc_loop-LoopSpec zero scanned e = (refl, λ k lo hi. absurd (omega arith))
  alloc_loop-LoopSpec (suc rounds) scanned e =
      elim (Bool-cases (bit_test s.bitmap (page_at scanned))) [
        | inl taken ↦
            rw taken
              (earlier scanned _ taken (alloc_loop-LoopSpec rounds (scanned + 1) (omega arith)))
        | inr clear ↦
            rw clear (take_page-Takes (page_at scanned) v (page_at-lt scanned (omega arith)) clear)
      ]

-- What `pmm_try_alloc_page_phys` promises: the address of a page that was free and is now used,
-- or the old state and no free page.
abbrev pub AllocSpec : Pmm → Option ℕ × Pmm → Type 0
AllocSpec s (some phys, t) =
    (page : ℕ) × (phys ≡ page * 4096) × (s.initialized ≡ true) × Takes s page t
AllocSpec s (none, t) =
    (t ≡ s) × ((s.initialized ≡ false) ⊎ ((q : ℕ) → q < total s → bit_test s.bitmap q ≡ true))

found_phys : Option ℕ × Pmm → Option ℕ × Pmm
found_phys (found, t) = (elim found [ none ↦ none | some page ↦ some (u64 (page * 4096)) ], t)

found_phys-AllocSpec :
    {s : Pmm} (v : IsValid s) (start : ℕ) (first : start < total s) (r : Option ℕ × Pmm)
    → s.initialized ≡ true
    → LoopSpec v start first 0 r
    → AllocSpec s (found_phys r)
unfolding found_phys
found_phys-AllocSpec v start first (some page, t) on h =
    (page, omega (arith, h.within, v.small), on, h)
found_phys-AllocSpec {s} v start first (none, t) on h = (h.0, inr all_used)
  where
    all_used : (q : ℕ) → q < total s → bit_test s.bitmap q ≡ true
    all_used q hq = elim (dec_lt q start) [
      | yes lo ↦ ground (arith, h.1 (q + total s - start), v.small)
      | no hi ↦ ground (arith, h.1 (q - start), v.small)
    ]

abbrev stops : Pmm → Bool
stops s = not s.initialized || (s.info.free_pages == 0 || total s == 0)

stopped :
    {s : Pmm}
    → IsValid s
    → stops s ≡ true
    → (s.initialized ≡ false) ⊎ ((q : ℕ) → q < total s → bit_test s.bitmap q ≡ true)
stopped {s} v stop = elim (Bool-cases s.initialized) [
  | inl on ↦
      inr (λ q hq. ground (arith, count_clear-zero (bit_test s.bitmap) (total s) q, v.free_count))
  | inr off ↦ inl off
]

-- In a valid state an allocation takes the address of one free page below the total, marks that
-- page and no other, and lowers the free count by one; or it changes nothing, and then the
-- allocator is not initialized or no page below the total is free.
pub pmm_try_alloc_page_phys-AllocSpec :
    {s : Pmm} → IsValid s → AllocSpec s (pmm_try_alloc_page_phys s)
unfolding pmm_try_alloc_page_phys found_phys
pmm_try_alloc_page_phys-AllocSpec {s} v = elim (Bool-cases (stops s)) [
  | inl stop ↦ rw stop (refl, stopped v stop)
  | inr go ↦
      let start = if leb (total s) s.next_search then 0 else s.next_search in
      let first : start < total s = ground arith in
      rw go (
        found_phys-AllocSpec v start first _ (ground arith)
          (alloc_loop-LoopSpec v start first (total s) 0 (omega arith)))
]
