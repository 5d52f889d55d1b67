-- ===== src/Mm/Vmalloc/Success.antt =====
-- `vmalloc` of mm/vmalloc.c when memory does not run out.
use mathlib.Core.Path.{subst}
use velox_os.Prelude.{
  ℕ, zero, suc, sym, ap, ◌∙◌, All, ◌+◌, ◌*◌, ◌/◌, ◌%◌, ◌^◌, ◌<◌, ◌≡◌, ◌≢◌, refl, Bool, true, false,
  ◌||◌, List, [], ◌∷◌, arith, leb, ◌==◌, inl, inr, some, Option-cases,
}
use velox_os.Prelude.Words.{u64, align_up, align_up_page}
use velox_os.Mm.Ranges.{VmallocRange, carve}
use velox_os.Mm.Ranges.Order.{in_span, holds}
use velox_os.Mm.Ranges.Carve.{CarveSpec, carve-CarveSpec}
use velox_os.Mm.Vmalloc.{
  Pages, Vmalloc, Layout, page_mapped, map_loop, after_mapping, back_with_pages, search, vmalloc,
}
use velox_os.Mm.Vmalloc.Alloc.{IsValid, Allocates, took, already}

-- Some range is large enough.
abbrev pub has_room : (n : ℕ) → List VmallocRange → Bool
has_room n [] = false
has_room n (x ∷ xs) = leb n x.size || has_room n xs

no_room : (n : ℕ) (l : List VmallocRange) → All (λ x. x.size < n) l → has_room n l ≡ false
no_room n [] h = refl
no_room n (x ∷ xs) h = ground (arith, h.0, no_room n xs h.1)

module _ {K : Type 0} (pages : Pages K) (lay : Layout) where
  mapped_page :
      (rounds mapped root addr flags phys : ℕ) (k k' : K)
      → addr + mapped * 4096 < 2 ^ 64
      → (pages.try_alloc_page k).0 ≡ some phys
      → pages.map_page root (addr + mapped * 4096) phys flags (pages.try_alloc_page k).1
        ≡ some (true, k')
      → map_loop pages lay (suc rounds) mapped root addr flags k
        ≡ map_loop pages lay rounds (mapped + 1) root addr flags k'
  unfolding map_loop page_mapped
  mapped_page rounds mapped root addr flags phys k k' l frame page =
      let at : u64 (addr + mapped * 4096) ≡ addr + mapped * 4096 = omega arith in
      rw (map_loop, frame, at, page) refl

  -- `ready n virt k`: in the state `k` there are frames for `n` pages, which can be mapped one
  -- after the other from the address `virt` on, below `root` and with `flags`.
  pub record Supplies (root flags : ℕ) (ready : ℕ → ℕ → K → Type 0) : Type 0 where
    pub next :
        (n virt : ℕ) (k : K)
        → ready (suc n) virt k
        → (phys : ℕ) × (k' : K) × ((pages.try_alloc_page k).0 ≡ some phys)
          × (pages.map_page root virt phys flags (pages.try_alloc_page k).1 ≡ some (true, k'))
          × ready n (virt + 4096) k'

  module _ (root flags : ℕ) (ready : ℕ → ℕ → K → Type 0) (s : Supplies root flags ready) where
    map_loop-Supplies :
        (rounds mapped addr : ℕ) (k : K)
        → addr + (mapped + rounds) * 4096 < 2 ^ 64
        → ready rounds (addr + mapped * 4096) k
        → (k' : K) × (map_loop pages lay rounds mapped root addr flags k
            ≡ some (mapped + rounds, k'))
    unfolding map_loop
    map_loop-Supplies zero mapped addr k l h = (k, ap (λ m. some (m, k)) (omega arith))
    map_loop-Supplies (suc rounds) mapped addr k l h =
        let (phys, k', frame, page, rest) = s.next rounds (addr + mapped * 4096) k h in
        let onward : addr + mapped * 4096 + 4096 ≡ addr + (mapped + 1) * 4096 = omega arith in
        let (last, e) =
          map_loop-Supplies rounds (mapped + 1) addr k' (omega arith)
            (subst (λ a. ready rounds a k') onward rest) in
        let count : mapped + 1 + rounds ≡ mapped + suc rounds = omega arith in
        (
          last,
          mapped_page rounds mapped root addr flags phys k k' (omega arith) frame page
              ∙ e
              ∙ ap (λ m. some (m, last)) count,
        )

    backed :
        (v : Vmalloc) (addr n : ℕ) (k : K)
        → pages.root_pml4_phys k ≡ root
        → root ≢ 0
        → n % 4096 ≡ 0
        → addr + n < 2 ^ 64
        → ready (n / 4096) addr k
        → (k' : K) × (back_with_pages pages lay addr n flags v k ≡ some (addr, v, k'))
    unfolding back_with_pages after_mapping
    backed v addr n k here root_set al l h =
        let whole : (0 + n / 4096) * 4096 ≡ n = omega arith in
        let first : addr ≡ addr + 0 * 4096 = omega arith in
        let set : (root == 0) ≡ false = ground arith in
        let (k', e) =
          map_loop-Supplies (n / 4096) 0 addr k (omega (arith, whole))
            (subst (λ a. ready (n / 4096) a k) first h) in
        let done : ((0 + n / 4096) * 4096 == n) ≡ true = ground (arith, whole) in
        (k', rw (here, set, e, done) refl)

  searched :
      (v : Vmalloc) (size flags : ℕ) (k : K)
      → size ≢ 0
      → size + 4095 < 2 ^ 64
      → v.initialized ≡ true
      → vmalloc pages lay size flags v k ≡ search pages lay ((size + 4095) / 4096 * 4096) flags v k
  unfolding vmalloc
  searched v size flags k sz fits on =
      let n : align_up size 4096 ≡ (size + 4095) / 4096 * 4096 =
        ground (arith, align_up_page size) in
      ground (arith, n, already pages lay v k on)

  -- In a valid allocator with a free range that is large enough, when for every free range of
  -- whole pages there are frames that can be mapped to its pages one after the other below the root
  -- of the page tables, `vmalloc` returns a block, inside the region, that was free.
  pub vmalloc-Supplies :
      (size flags root : ℕ) (v : Vmalloc) (k : K) (ready : ℕ → ℕ → K → Type 0)
      → size ≢ 0
      → size + 4095 < 2 ^ 64
      → IsValid v
      → Supplies root flags ready
      → ((addr : ℕ)
          → addr % 4096 ≡ 0
          → ((a : ℕ) → in_span addr ((size + 4095) / 4096 * 4096) a ≡ true → holds v.free a ≡ true)
          → ready ((size + 4095) / 4096) addr k)
      → pages.root_pml4_phys k ≡ root
      → root ≢ 0
      → has_room ((size + 4095) / 4096 * 4096) v.free ≡ true
      → (addr : ℕ) × (v' : Vmalloc) × (k' : K) × (vmalloc pages lay size flags v k
          ≡ some (addr, v', k'))
        × Allocates v ((size + 4095) / 4096 * 4096) addr v'
  unfolding search
  vmalloc-Supplies size flags root v k ready sz fits ok s prepared here root_set room =
      elim (Option-cases (carve n v.free)) [
        | inl nowhere ↦ absurd (ground (arith, no_room n v.free (rw nowhere at spec), room))
        | inr ((addr, l'), found) ↦
            let taken : Allocates v n addr (record v { free = l' }) =
              took pages lay v n addr l' ok (rw found at spec) in
            let count : n / 4096 ≡ (size + 4095) / 4096 = omega arith in
            let (k', backs) =
              backed root flags ready s (record v { free = l' }) addr n k here root_set
                (omega arith) (omega (arith, taken.below, ok.top))
                (subst (λ m. ready m addr k) (sym count)
                  (prepared addr taken.aligned taken.was_free)) in
            (
              addr,
              record v { free = l' },
              k',
              searched v size flags k sz fits ok.started ∙ rw (search, found) backs,
              taken,
            )
      ]
    where
      n : ℕ
      n = (size + 4095) / 4096 * 4096

      spec : CarveSpec v.base v.end n v.free (carve n v.free)
      spec = carve-CarveSpec v.end n ok.top (omega arith) (omega arith) v.base v.free ok.gapped
