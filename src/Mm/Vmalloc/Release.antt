-- ===== src/Mm/Vmalloc/Release.antt =====
-- `vfree` of mm/vmalloc.c and the free addresses.
use velox_os.Prelude.{
  ℕ, ◌+◌, ◌*◌, ◌/◌, ◌%◌, ◌^◌, ◌≤◌, ◌<◌, ◌≡◌, ◌∙◌, ◌≢◌, refl, true, ◌||◌, arith, inl, inr, Option,
  some, none,
}
use mathlib.Core.Path.{subst₂}
use velox_os.Prelude.Bits.{bit_and-low}
use velox_os.Prelude.Words.{align_up, align_up_page}
use velox_os.Mm.Ranges.Order.{in_span, holds, IsPages, Gapped}
use velox_os.Mm.Ranges.Coalesce.{vmalloc_free_range_lem}
use velox_os.Mm.Vmalloc.{Pages, Vmalloc, Layout, unmap_loop, vmalloc, release, vfree}
use velox_os.Mm.Vmalloc.Alloc.{IsValid, Frees, Allocates, VmallocSpec, vmalloc_lem}

-- The pages that hold `size` bytes.
abbrev pub whole_pages : ℕ → ℕ
whole_pages size = (size + 4095) / 4096 * 4096

-- An address and a size that `vfree` takes.
pub record IsAccepted (v : Vmalloc) (addr size : ℕ) : Type 0 where
  pub not_null : addr ≢ 0
  pub some_size : size ≢ 0
  pub no_wrap : size + 4095 < 2 ^ 64
  pub aligned : addr % 4096 ≡ 0
  pub above : v.base ≤ addr
  pub below : addr + whole_pages size ≤ v.end

module _ {K : Type 0} where
  abbrev pub VfreeSpec : Vmalloc → (addr n : ℕ) → Option (Vmalloc × K) → Type 0
  VfreeSpec v addr n none = ⊥
  VfreeSpec v addr n (some (v', k)) = Frees v v' (λ a. holds v.free a || in_span addr n a)

  VfreeSpec-some :
      (v : Vmalloc) (addr n : ℕ) (r : Option (Vmalloc × K))
      → VfreeSpec v addr n r
      → (v' : Vmalloc) × (k : K) × (r ≡ some (v', k))
        × Frees v v' (λ a. holds v.free a || in_span addr n a)
  VfreeSpec-some v addr n none h = absurd h
  VfreeSpec-some v addr n (some (v', k)) h = (v', k, refl, h)

  module _ (pages : Pages K) (lay : Layout) where
    release_lem :
        (addr n : ℕ) (v : Vmalloc) (k : K)
        → IsValid v
        → v.base ≤ addr
        → IsPages v.end (record { start = addr; size = n })
        → VfreeSpec v addr n (release pages lay addr n v k)
    unfolding release
    release_lem addr n v k ok h p =
        let (l', e, g, held) =
          vmalloc_free_range_lem v.end ok.top v.base addr n v.free h p ok.gapped ok.room in
        rw (e, release)
          (record {
            same_base = refl;
            same_end = refl;
            started = ok.started;
            gapped = g;
            held = held;
          })

    unmapped : (addr n : ℕ) → K → K
    unmapped addr n k = unmap_loop pages lay (n / 4096) 0 (pages.root_pml4_phys k) addr k

    vfree_accepted :
        (addr size : ℕ) (v : Vmalloc) (k : K)
        → v.initialized ≡ true
        → v.end < 2 ^ 64
        → IsAccepted v addr size
        → pages.root_pml4_phys k ≢ 0
        → vfree pages lay addr size v k
          ≡ release pages lay addr (whole_pages size) v (unmapped addr (whole_pages size) k)
    unfolding vfree unmapped
    vfree_accepted addr size v k on top a root =
        let n : align_up size 4096 ≡ whole_pages size = ground (arith, align_up_page size) in
        ground (arith, n, bit_and-low addr 12)

    -- With a root of the page tables, `vfree` of some whole pages inside the region of a valid allocator makes exactly their
    -- addresses free again, whatever was free before, and does not panic.
    pub vfree_lem :
        (addr size : ℕ) (v : Vmalloc) (k : K)
        → IsValid v
        → IsAccepted v addr size
        → pages.root_pml4_phys k ≢ 0
        → VfreeSpec v addr (whole_pages size) (vfree pages lay addr size v k)
    vfree_lem addr size v k ok a root =
        rw (vfree_accepted addr size v k ok.started ok.top a root)
          (release_lem addr (whole_pages size) v _ ok a.above (omega arith))

    gives_back :
        (size : ℕ) (v v' : Vmalloc) (addr : ℕ) (j : K)
        → size ≢ 0
        → size + 4095 < 2 ^ 64
        → IsValid v
        → addr ≢ 0
        → pages.root_pml4_phys j ≢ 0
        → Allocates v (whole_pages size) addr v'
        → (v'' : Vmalloc) × (j' : K) × (vfree pages lay addr size v' j ≡ some (v'', j'))
          × Frees v v'' (holds v.free)
    gives_back size v v' addr j pos fits ok not_null root al =
        let now = al.now in
        let valid : IsValid v' = record {
          started = now.started;
          top = ground (arith, ok.top);
          gapped = rw (now.same_base, now.same_end) now.gapped;
          room = omega (arith, al.no_longer, ok.room);
        } in
        let accepted : IsAccepted v' addr size = record {
          not_null = not_null;
          some_size = pos;
          no_wrap = fits;
          aligned = al.aligned;
          above = rw now.same_base al.above;
          below = rw now.same_end al.below;
        } in
        let (v'', j', e, f) =
          VfreeSpec-some v' addr (whole_pages size) _
            (vfree_lem addr size v' j valid accepted root) in
        (
          v'',
          j',
          e,
          record {
            same_base = f.same_base ∙ now.same_base;
            same_end = f.same_end ∙ now.same_end;
            started = f.started;
            gapped = subst₂ (λ b e. Gapped b e v''.free) now.same_base now.same_end f.gapped;
            held = λ a. ground (arith, f.held a, now.held a, al.was_free a);
          },
        )

    -- What `vmalloc` returned in a valid allocator, not NULL, `vfree` with the same size gives back, as
    -- long as the page tables have a root: the same addresses are free
    -- as before the allocation, whatever happened to the page tables in between.
    pub vfree-vmalloc :
        (size flags : ℕ) (v v' : Vmalloc) (addr : ℕ) (k k' j : K)
        → size ≢ 0
        → size + 4095 < 2 ^ 64
        → IsValid v
        → vmalloc pages lay size flags v k ≡ some (addr, v', k')
        → addr ≢ 0
        → pages.root_pml4_phys j ≢ 0
        → (v'' : Vmalloc) × (j' : K) × (vfree pages lay addr size v' j ≡ some (v'', j'))
          × Frees v v'' (holds v.free)
    vfree-vmalloc size flags v v' addr k k' j pos fits ok e not_null root =
        let taken : VmallocSpec pages k v (whole_pages size) (some (addr, v', k')) =
          rw e at (vmalloc_lem pages lay size flags v k (omega arith) ok) in
        elim taken [
          | inl null ↦ absurd (not_null null.0)
          | inr al ↦ gives_back size v v' addr j pos fits ok not_null root al
        ]
