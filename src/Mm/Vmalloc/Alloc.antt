-- ===== src/Mm/Vmalloc/Alloc.antt =====
-- `vmalloc` of mm/vmalloc.c and the free addresses.
use velox_os.Prelude.{
  ℕ, zero, suc, ◌+◌, ◌*◌, ◌/◌, ◌%◌, ◌^◌, ◌≤◌, ◌<◌, ◌≡◌, ◌⊎◌, refl, true, not, ◌&&◌, ◌||◌, List,
  arith, ltb, Bool-cases, Option-cases, Bool, true, false, inl, inr, length, Option, some, none,
  ◌==◌,
}
use velox_os.Prelude.Words.{u64, align_up, align_up_page}
use velox_os.Mm.Ranges.{VmallocRange, vmalloc_free_range, vmalloc_max_ranges}
use velox_os.Mm.Ranges.Order.{in_span, holds, Gapped}
use velox_os.Mm.Ranges.Coalesce.{vmalloc_free_range_lem}
use velox_os.Mm.Ranges.Carve.{Carves, CarveSpec, carve-CarveSpec}
use velox_os.Mm.Vmalloc.{
  Pages, Vmalloc, Layout, vmalloc_init_once_locked, page_mapped, map_loop, after_mapping,
  back_with_pages, search, vmalloc,
}

-- An initialized allocator whose free list has room for one more range.
pub record IsValid (v : Vmalloc) : Type 0 where
  pub started : v.initialized ≡ true
  pub top : v.end < 2 ^ 64
  pub gapped : Gapped v.base v.end v.free
  pub room : length v.free < vmalloc_max_ranges

-- The same region, with these addresses free.
pub record Frees (v v' : Vmalloc) (free : ℕ → Bool) : Type 0 where
  pub same_base : v'.base ≡ v.base
  pub same_end : v'.end ≡ v.end
  pub started : v'.initialized ≡ true
  pub gapped : Gapped v.base v.end v'.free
  pub held : (a : ℕ) → holds v'.free a ≡ free a

-- `n` bytes at `addr` were free, inside the region and on whole pages, and are free no more.
pub record Allocates (v : Vmalloc) (n addr : ℕ) (v' : Vmalloc) : Type 0 where
  pub above : v.base ≤ addr
  pub below : addr + n ≤ v.end
  pub aligned : addr % 4096 ≡ 0
  pub no_longer : length v'.free ≤ length v.free
  pub was_free : (a : ℕ) → in_span addr n a ≡ true → holds v.free a ≡ true
  pub now : Frees v v' (λ a. holds v.free a && not (in_span addr n a))

same : (v : Vmalloc) → IsValid v → Frees v v (holds v.free)
same v ok = record {
  same_base = refl;
  same_end = refl;
  started = ok.started;
  gapped = ok.gapped;
  held = λ a. refl;
}

module _ {K : Type 0} where
  -- From the state on, after some frames taken and pages mapped, a map of a page panics.
  pub data MapPanics (pages : Pages K) : K → Type 0 where
    stops :
        {root virt phys flags : ℕ} {k : K}
        → pages.map_page root virt phys flags k ≡ none
        → MapPanics pages k
    after_frame : {k : K} → MapPanics pages ((pages.try_alloc_page k).1) → MapPanics pages k
    after_page :
        {root virt phys flags : ℕ} {k k' : K} {b : Bool}
        → pages.map_page root virt phys flags k ≡ some (b, k')
        → MapPanics pages k'
        → MapPanics pages k

  abbrev pub VmallocSpec : Pages K → K → Vmalloc → ℕ → Option (ℕ × Vmalloc × K) → Type 0
  VmallocSpec pages k v n none = MapPanics pages k
  VmallocSpec pages k v n (some (addr, v', k')) =
      ((addr ≡ 0) × Frees v v' (holds v.free)) ⊎ Allocates v n addr v'

  module _ (pages : Pages K) (lay : Layout) where
    give_back_lem :
        (v : Vmalloc) (n addr : ℕ) (l : List VmallocRange) (k0 k : K)
        → IsValid v
        → Carves v.base v.end n v.free addr l
        → VmallocSpec pages k0 v n (elim (vmalloc_free_range addr n l) [
          | none ↦ none
          | some free ↦ some (0, record v { free = free }, k)
        ])
    give_back_lem v n addr l k0 k ok c =
        let (l', e, g, h) =
          vmalloc_free_range_lem v.end ok.top v.base addr n l c.above c.taken c.gapped
            (omega (arith, c.no_longer, ok.room)) in
        rw e (
          inl (
            refl,
            record {
              same_base = refl;
              same_end = refl;
              started = ok.started;
              gapped = g;
              held = λ a. ground (arith, h a, c.left a, c.had a);
            },
          ))

    pub took :
        (v : Vmalloc) (n addr : ℕ) (l : List VmallocRange)
        → IsValid v
        → Carves v.base v.end n v.free addr l
        → Allocates v n addr (record v { free = l })
    took v n addr l ok c = record {
      above = c.above;
      below = c.taken.ends;
      aligned = c.taken.start_aligned;
      no_longer = c.no_longer;
      was_free = c.had;
      now = record {
        same_base = refl;
        same_end = refl;
        started = ok.started;
        gapped = c.gapped;
        held = c.left;
      };
    }

    -- The loop ends, or a map has panicked.
    abbrev LoopEnds : K → Option (ℕ × K) → Type 0
    LoopEnds k none = MapPanics pages k
    LoopEnds k (some r) = Unit

    after_frame-Ends :
        (k : K) (r : Option (ℕ × K)) → LoopEnds (pages.try_alloc_page k).1 r → LoopEnds k r
    after_frame-Ends k none h = after_frame h
    after_frame-Ends k (some r) h = tt

    after_page-Ends :
        (root virt phys flags : ℕ) (k k' : K) (b : Bool) (r : Option (ℕ × K))
        → pages.map_page root virt phys flags k ≡ some (b, k')
        → LoopEnds k' r
        → LoopEnds k r
    after_page-Ends root virt phys flags k k' b none e h =
        after_page {root = root} {virt = virt} {phys = phys} {flags = flags} e h
    after_page-Ends root virt phys flags k k' b (some r) e h = tt

    page_mapped-Ends :
        (root virt phys flags mapped : ℕ) (k : K) (later : K → Option (ℕ × K))
        (r : Option (Bool × K))
        → pages.map_page root virt phys flags k ≡ r
        → ((k' : K) → LoopEnds k' (later k'))
        → LoopEnds k (page_mapped pages lay phys mapped later r)
    unfolding page_mapped
    page_mapped-Ends root virt phys flags mapped k later none e h =
        stops {root = root} {virt = virt} {phys = phys} {flags = flags} e
    page_mapped-Ends root virt phys flags mapped k later (some (true, k')) e h =
        after_page-Ends root virt phys flags k k' true (later k') e (h k')
    page_mapped-Ends root virt phys flags mapped k later (some (false, k')) e h = tt

    map_loop-Ends :
        (rounds mapped root addr flags : ℕ) (k : K)
        → LoopEnds k (map_loop pages lay rounds mapped root addr flags k)
    unfolding map_loop
    map_loop-Ends zero mapped root addr flags k = tt
    map_loop-Ends (suc rounds) mapped root addr flags k =
        let virt = u64 (addr + mapped * 4096) in
        let k1 = (pages.try_alloc_page k).1 in
        let later = map_loop pages lay rounds (mapped + 1) root addr flags in
        elim (Option-cases (pages.try_alloc_page k).0) [
          | inl e ↦ rw (map_loop, e) tt
          | inr (phys, e) ↦
              rw (map_loop, e)
                (after_frame-Ends k
                  (page_mapped pages lay phys mapped later (pages.map_page root virt phys flags k1))
                  (page_mapped-Ends root virt phys flags mapped k1 later _ refl
                    (λ k'. map_loop-Ends rounds (mapped + 1) root addr flags k')))
        ]

    after_mapping_lem :
        (v : Vmalloc) (n addr root : ℕ) (l : List VmallocRange) (k0 : K) (r : Option (ℕ × K))
        → IsValid v
        → Carves v.base v.end n v.free addr l
        → LoopEnds k0 r
        → VmallocSpec pages k0 v n (after_mapping pages lay root addr n (record v { free = l }) r)
    unfolding after_mapping
    after_mapping_lem v n addr root l k0 none ok c h = h
    after_mapping_lem v n addr root l k0 (some (mapped, k)) ok c h =
        elim (Bool-cases (mapped * 4096 == n)) [
          | inl all_mapped ↦ rw all_mapped (inr (took v n addr l ok c))
          | inr short ↦ rw short (give_back_lem v n addr l k0 _ ok c)
        ]

    back_with_pages_lem :
        (v : Vmalloc) (n addr flags : ℕ) (l : List VmallocRange) (k : K)
        → IsValid v
        → Carves v.base v.end n v.free addr l
        → VmallocSpec pages k v n (back_with_pages pages lay addr n flags (record v { free = l }) k)
    unfolding back_with_pages
    back_with_pages_lem v n addr flags l k ok c =
        let root = pages.root_pml4_phys k in
        elim (Bool-cases (root == 0)) [
          | inl no_root ↦ rw no_root (give_back_lem v n addr l k k ok c)
          | inr has_root ↦ rw has_root (
              after_mapping_lem v n addr root l k
                (map_loop pages lay (n / 4096) 0 root addr flags k) ok c
                (map_loop-Ends (n / 4096) 0 root addr flags k))
        ]

    carved :
        (v : Vmalloc) (n flags : ℕ) (k : K) (r : Option (ℕ × List VmallocRange))
        → IsValid v
        → CarveSpec v.base v.end n v.free r
        → VmallocSpec pages k v n (elim r [
          | none ↦ some (0, v, k)
          | some (addr, free) ↦ back_with_pages pages lay addr n flags (record v { free = free }) k
        ])
    carved v n flags k none ok c = inl (refl, same v ok)
    carved v n flags k (some (addr, l)) ok c = back_with_pages_lem v n addr flags l k ok c

    search_lem :
        (v : Vmalloc) (n flags : ℕ) (k : K)
        → IsValid v
        → 0 < n
        → n % 4096 ≡ 0
        → VmallocSpec pages k v n (search pages lay n flags v k)
    unfolding search
    search_lem v n flags k ok pos al =
        carved v n flags k _ ok (carve-CarveSpec v.end n ok.top pos al v.base v.free ok.gapped)

    pub already :
        (v : Vmalloc) (k : K)
        → v.initialized ≡ true
        → vmalloc_init_once_locked pages lay k v ≡ (true, v)
    unfolding vmalloc_init_once_locked
    already v k on = ground arith

    -- In a valid allocator `vmalloc` panics only where, after the frames it took and the pages it
    -- mapped, a map of a page panics. Otherwise it returns NULL and leaves the free addresses as they were, or it returns whole pages inside the
    -- region that were all free, as many as hold `size` bytes, and takes exactly those. This holds
    -- for every behaviour of the page allocator and the page tables, their failure at any page
    -- included.
    pub vmalloc_lem :
        (size flags : ℕ) (v : Vmalloc) (k : K)
        → size < 2 ^ 64
        → IsValid v
        → VmallocSpec pages k v ((size + 4095) / 4096 * 4096) (vmalloc pages lay size flags v k)
    unfolding vmalloc
    vmalloc_lem size flags v k fits ok =
        elim (Bool-cases (size == 0 || ltb (align_up size 4096) size)) [
          | inl refused ↦ rw refused (inl (refl, same v ok))
          | inr taken ↦
              let n : align_up size 4096 ≡ (size + 4095) / 4096 * 4096 =
                ground (arith, align_up_page size) in
              rw (taken, already v k ok.started, n)
                (search_lem v _ flags k ok (ground (arith, align_up_page size)) (omega arith))
        ]
