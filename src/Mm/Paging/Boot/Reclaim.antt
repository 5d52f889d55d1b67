-- ===== src/Mm/Paging/Boot/Reclaim.antt =====
-- What `reclaim_bootloader_reclaimable` of mm/paging.c gives back.
use velox_os.Prelude.{
  ℕ, zero, suc, ◌+◌, ◌*◌, ◌/◌, ◌^◌, ◌<◌, ◌≡◌, refl, ◌∙◌, Bool, true, false, not, ◌&&◌, ◌||◌, arith,
  ltb, leb, if◌then◌else◌, List, [], ◌∷◌, Bool-cases, inl, inr, All,
}
use velox_os.Prelude.Words.{align_up, align_down, align_up_page, align_down_page}
use velox_os.Mm.Bitmap.{bit_test}
use velox_os.Mm.Pmm.{Pmm, total, pmm_free_page_phys}
use velox_os.Mm.Pmm.Marks.{IsValid}
use velox_os.Mm.Pmm.Free.{
  pmm_free_page_phys-IsValid, bit_test-pmm_free_page_phys, total-pmm_free_page_phys,
  initialized-pmm_free_page_phys,
}
use velox_os.Mm.PmmInit.{
  MemoryMapType, MemoryMapEntry, entry_end, usable, reserved, acpi_reclaimable, acpi_nvs,
  bad_memory, bootloader_reclaimable, kernel_and_modules, framebuffer,
}
use velox_os.Mm.Paging.Boot.{rounds_to}
use velox_os.Mm.Paging.Boot.Start.{
  reclaim_entry, reclaim_loop, reclaim_bootloader_reclaimable, is_reclaimable,
}

-- The page is given back by the loop: it is one of the `rounds` pages from `first` on, and not in
-- the window.
abbrev pub takes_back : (first rounds skip_start skip_end q : ℕ) → Bool
takes_back first rounds lo hi q =
    (leb first q && ltb q (first + rounds)) && not (leb lo (q * 4096) && ltb (q * 4096) hi)

-- A state that differs from `s` in pages given back.
pub record IsReclaimed (s : Pmm) (back : ℕ → Bool) (t : Pmm) : Type 0 where
  pub valid : IsValid t
  pub started : t.initialized ≡ s.initialized
  pub total_pages : total t ≡ total s
  pub bits : (q : ℕ) → q < total s → bit_test t.bitmap q ≡ (bit_test s.bitmap q && not (back q))

IsReclaimed-trans :
    {s t u : Pmm} {f g h : ℕ → Bool}
    → ((q : ℕ) → h q ≡ (f q || g q))
    → IsReclaimed s f t
    → IsReclaimed t g u
    → IsReclaimed s h u
IsReclaimed-trans both a b = record {
  valid = b.valid;
  started = b.started ∙ a.started;
  total_pages = b.total_pages ∙ a.total_pages;
  bits = λ q lt. ground (arith, both q, a.bits q lt, b.bits q (omega (arith, a.total_pages)));
}

nothing_back : {s : Pmm} {f : ℕ → Bool} → IsValid s → ((q : ℕ) → f q ≡ false) → IsReclaimed s f s
nothing_back v h = record {
  valid = v;
  started = refl;
  total_pages = refl;
  bits = λ q lt. ground (arith, h q);
}

-- Memory that the boot loader leaves behind is this one kind.
abbrev pub left_behind : MemoryMapType → Bool
left_behind usable = false
left_behind reserved = false
left_behind acpi_reclaimable = false
left_behind acpi_nvs = false
left_behind bad_memory = false
left_behind bootloader_reclaimable = true
left_behind kernel_and_modules = false
left_behind framebuffer = false

is_reclaimable_lem : (k : MemoryMapType) → is_reclaimable k ≡ left_behind k
is_reclaimable_lem usable = refl
is_reclaimable_lem reserved = refl
is_reclaimable_lem acpi_reclaimable = refl
is_reclaimable_lem acpi_nvs = refl
is_reclaimable_lem bad_memory = refl
is_reclaimable_lem bootloader_reclaimable = refl
is_reclaimable_lem kernel_and_modules = refl
is_reclaimable_lem framebuffer = refl

-- A page of the memory map inside an entry that the boot loader leaves, and outside the window.
abbrev pub reclaims : (skip_start skip_end : ℕ) → MemoryMapEntry → ℕ → Bool
reclaims lo hi e q =
    left_behind e.kind
    && ((leb e.base (q * 4096) && leb ((q + 1) * 4096) (entry_end e))
        && not (leb lo (q * 4096) && ltb (q * 4096) hi))

unfoldable pub any_reclaims : (skip_start skip_end : ℕ) → List MemoryMapEntry → ℕ → Bool
any_reclaims lo hi [] q = false
any_reclaims lo hi (e ∷ es) q = reclaims lo hi e q || any_reclaims lo hi es q

-- The start of an entry can be rounded up to a page.
abbrev pub HasRoom : MemoryMapEntry → Type 0
HasRoom e = (e.base + 4095 < 2 ^ 64) × (entry_end e < 2 ^ 64)

module _ (lo hi : ℕ) where
  one_page :
      (first phys : ℕ) (s : Pmm)
      → phys ≡ first * 4096
      → IsValid s
      → s.initialized ≡ true
      → IsReclaimed s
          (takes_back first 1 lo hi)
          (if leb lo phys && ltb phys hi then s else pmm_free_page_phys phys s)
  one_page first phys s at_page v on = elim (Bool-cases (leb lo phys && ltb phys hi)) [
    | inl skip ↦ rw skip (nothing_back v (λ q. ground arith))
    | inr go ↦ rw go (record {
      valid = pmm_free_page_phys-IsValid v phys;
      started = initialized-pmm_free_page_phys s phys;
      total_pages = total-pmm_free_page_phys s phys;
      bits = λ q lt. ground (arith, bit_test-pmm_free_page_phys v phys q);
    })
  ]

  reclaim_loop_lem :
      (rounds first phys n : ℕ) (s : Pmm)
      → phys ≡ first * 4096
      → IsValid s
      → s.initialized ≡ true
      → IsReclaimed s (takes_back first rounds lo hi) ((reclaim_loop rounds phys lo hi n s).1)
  unfolding reclaim_loop
  reclaim_loop_lem zero first phys n s at_page v on = nothing_back v (λ q. ground arith)
  reclaim_loop_lem (suc rounds) first phys n s at_page v on =
      let one = one_page first phys s at_page v on in
      IsReclaimed-trans (λ q. ground arith) one
        (reclaim_loop_lem rounds (first + 1) (phys + 4096) _ _ (omega arith) one.valid
          (one.started ∙ on))

  IsReclaimed-same :
      {s t : Pmm} {f g : ℕ → Bool} → ((q : ℕ) → g q ≡ f q) → IsReclaimed s f t → IsReclaimed s g t
  IsReclaimed-same same a = record {
    valid = a.valid;
    started = a.started;
    total_pages = a.total_pages;
    bits = λ q lt. ground (arith, same q, a.bits q lt);
  }

  reclaim_entry_lem :
      (e : MemoryMapEntry) (n : ℕ) (s : Pmm)
      → HasRoom e
      → IsValid s
      → s.initialized ≡ true
      → IsReclaimed s (reclaims lo hi e) ((reclaim_entry e lo hi n s).1)
  unfolding reclaim_entry
  reclaim_entry_lem e n s (room, end_lt) v on = elim (Bool-cases (left_behind e.kind)) [
    | inr kept ↦
        let test : is_reclaimable e.kind ≡ false = is_reclaimable_lem e.kind ∙ kept in
        rw test (nothing_back v (λ q. rw kept refl))
    | inl kind ↦
        let first = (e.base + 4095) / 4096 in
        let start : align_up e.base 4096 ≡ first * 4096 =
          omega (arith, align_up_page e.base (omega arith)) in
        let end : align_down (entry_end e) 4096 ≡ entry_end e / 4096 * 4096 =
          align_down_page (entry_end e) end_lt in
        let rounds = rounds_to (align_up e.base 4096) (align_down (entry_end e) 4096) 4096 in
        let same : (q : ℕ) → reclaims lo hi e q ≡ takes_back first rounds lo hi q =
          λ q. rw (kind, start, end) (ground arith) in
        let test : is_reclaimable e.kind ≡ true = is_reclaimable_lem e.kind ∙ kind in
        rw test (IsReclaimed-same same (reclaim_loop_lem rounds first _ n s start v on))
  ]

  reclaim_entries :
      (es : List MemoryMapEntry) (n : ℕ) (s : Pmm)
      → All HasRoom es
      → IsValid s
      → s.initialized ≡ true
      → IsReclaimed s (any_reclaims lo hi es) ((reclaim_bootloader_reclaimable es lo hi n s).1)
  unfolding reclaim_bootloader_reclaimable any_reclaims
  reclaim_entries [] n s room v on = nothing_back v (λ q. refl)
  reclaim_entries (e ∷ es) n s (room, rest) v on =
      let first = reclaim_entry_lem e n s room v on in
      IsReclaimed-trans (λ q. refl) first
        (reclaim_entries es _ _ rest first.valid (first.started ∙ on))

-- In a valid initialized state, with a memory map whose entries' starts can be rounded up,
-- reclaiming leaves a valid state with the same total in which a page below the total is in use if
-- and only if it was before and it does not lie inside an entry of the kind
-- BOOTLOADER_RECLAIMABLE, or its start is in the window that is skipped.
pub reclaim_bootloader_reclaimable-IsReclaimed :
    (skip_start skip_end n : ℕ) (entries : List MemoryMapEntry) {s : Pmm}
    → All HasRoom entries
    → IsValid s
    → s.initialized ≡ true
    → IsReclaimed s
        (any_reclaims skip_start skip_end entries)
        ((reclaim_bootloader_reclaimable entries skip_start skip_end n s).1)
reclaim_bootloader_reclaimable-IsReclaimed lo hi n es {s} room v on =
    reclaim_entries lo hi es n s room v on
