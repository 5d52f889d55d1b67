-- ===== src/Mm/Pmm/Free.antt =====
-- `pmm_free_page_phys` of mm/pmm.c.
use velox_os.Prelude.{
  ℕ, ◌+◌, ◌*◌, ◌/◌, ◌%◌, ◌≡◌, Bool, true, false, ◌&&◌, arith, ltb, ◌==◌, if◌then◌else◌, some,
}
use velox_os.Prelude.Bits.{bit_and-low}
use velox_os.Mm.Bitmap.{bit_test}
use velox_os.Mm.Pmm.{Pmm, total, mark_page_free, pmm_try_alloc_page_phys, pmm_free_page_phys}
use velox_os.Mm.Pmm.Marks.{
  IsValid, mark_page_free-IsValid, SameFrame, mark_page_free-SameFrame, bit_test-mark_page_free,
}
use velox_os.Mm.Pmm.Alloc.{Takes, pmm_try_alloc_page_phys-AllocSpec}

-- The address is that of a page of the map.
abbrev pub names_page : Pmm → ℕ → Bool
names_page s phys = s.initialized && (phys % 4096 == 0 && ltb (phys / 4096) (total s))

pub names_page-pmm_free_page_phys :
    (s : Pmm) (phys : ℕ) → names_page (pmm_free_page_phys phys s) phys ≡ names_page s phys
unfolding pmm_free_page_phys
names_page-pmm_free_page_phys s phys = ground (arith, same.total_pages, same.started)
  where
    same : SameFrame s (mark_page_free (phys / 4096) s)
    same = mark_page_free-SameFrame s (phys / 4096)

pub total-pmm_free_page_phys : (s : Pmm) (phys : ℕ) → total (pmm_free_page_phys phys s) ≡ total s
unfolding pmm_free_page_phys
total-pmm_free_page_phys s phys = ground (arith, same.total_pages)
  where
    same : SameFrame s (mark_page_free (phys / 4096) s)
    same = mark_page_free-SameFrame s (phys / 4096)

pub initialized-pmm_free_page_phys :
    (s : Pmm) (phys : ℕ) → (pmm_free_page_phys phys s).initialized ≡ s.initialized
unfolding pmm_free_page_phys
initialized-pmm_free_page_phys s phys = ground (arith, same.started)
  where
    same : SameFrame s (mark_page_free (phys / 4096) s)
    same = mark_page_free-SameFrame s (phys / 4096)

free_ignores :
    (t : Pmm) (phys : ℕ)
    → (names_page t phys && bit_test t.bitmap (phys / 4096)) ≡ false
    → pmm_free_page_phys phys t ≡ t
unfolding pmm_free_page_phys
free_ignores t phys h = ground (arith, bit_and-low phys 12)

module _ {s : Pmm} (v : IsValid s) (phys : ℕ) where
  -- Freeing in a valid state leaves a valid state, whatever the argument.
  pub pmm_free_page_phys-IsValid : IsValid (pmm_free_page_phys phys s)
  unfolding pmm_free_page_phys
  pmm_free_page_phys-IsValid =
      let m = mark_page_free-IsValid v (phys / 4096) in
      record {
        bytes = ground arith;
        covers = ground arith;
        small = ground arith;
        free_count = ground arith;
        all_counted = ground arith;
      }

  -- Freeing in a valid state clears the bit of the page that the address names, if it names one, and no other.
  pub bit_test-pmm_free_page_phys :
      (q : ℕ)
      → bit_test (pmm_free_page_phys phys s).bitmap q
        ≡ (if names_page s phys && (phys / 4096 == q) then false else bit_test s.bitmap q)
  unfolding pmm_free_page_phys
  bit_test-pmm_free_page_phys q =
      ground (arith, bit_test-mark_page_free v (phys / 4096) q, bit_and-low phys 12)

  -- Freeing in a valid state raises the free count by one when the address names a used page, and
  -- keeps it otherwise.
  pub free_pages-pmm_free_page_phys : (pmm_free_page_phys phys s).info.free_pages ≡ (
      if names_page s phys && bit_test s.bitmap (phys / 4096)
      then s.info.free_pages + 1
      else s.info.free_pages)
  unfolding pmm_free_page_phys mark_page_free
  free_pages-pmm_free_page_phys = ground (arith, bit_and-low phys 12, v.small, v.all_counted)

  -- In a valid state a second free of the same address changes nothing.
  pub pmm_free_page_phys_twice :
      pmm_free_page_phys phys (pmm_free_page_phys phys s) ≡ pmm_free_page_phys phys s
  pmm_free_page_phys_twice = free_ignores (pmm_free_page_phys phys s) phys (
      ground
        (arith, names_page-pmm_free_page_phys s phys, bit_test-pmm_free_page_phys (phys / 4096)))

abbrev Restores : Pmm → Pmm → Type 0
Restores s t =
    ((q : ℕ) → bit_test t.bitmap q ≡ bit_test s.bitmap q)
    × (t.info.free_pages ≡ s.info.free_pages)
    × (t.info.used_pages ≡ s.info.used_pages)

module _ {s t : Pmm} {page : ℕ} (v : IsValid s) (on : s.initialized ≡ true)
    (h : Takes s page t) where
  free-Takes : Restores s (pmm_free_page_phys (page * 4096) t)
  free-Takes = (bits, frees, uses)
    where
      quotient : page * 4096 / 4096 ≡ page
      quotient = omega arith

      bits : (q : ℕ) → bit_test (pmm_free_page_phys (page * 4096) t).bitmap q ≡ bit_test s.bitmap q
      bits q =
          ground (arith, bit_test-pmm_free_page_phys h.valid (page * 4096) q, h.bit q, h.was_free)

      frees : (pmm_free_page_phys (page * 4096) t).info.free_pages ≡ s.info.free_pages
      frees =
          ground (arith, quotient, free_pages-pmm_free_page_phys h.valid (page * 4096), h.bit page)

      uses : (pmm_free_page_phys (page * 4096) t).info.used_pages ≡ s.info.used_pages
      uses = omega (
        arith,
        frees,
        (pmm_free_page_phys-IsValid h.valid (page * 4096)).all_counted,
        total-pmm_free_page_phys t (page * 4096),
      )

-- Freeing what an allocation in a valid state returned gives back every bit and both counters.
pub free-pmm_try_alloc :
    {s t : Pmm} {phys : ℕ}
    → IsValid s
    → pmm_try_alloc_page_phys s ≡ (some phys, t)
    → ((q : ℕ) → bit_test (pmm_free_page_phys phys t).bitmap q ≡ bit_test s.bitmap q)
      × ((pmm_free_page_phys phys t).info.free_pages ≡ s.info.free_pages)
      × ((pmm_free_page_phys phys t).info.used_pages ≡ s.info.used_pages)
free-pmm_try_alloc {s} v e =
    let (page, addr, on, h) = rw e at (pmm_try_alloc_page_phys-AllocSpec v) in
    rw addr (free-Takes v on h)
