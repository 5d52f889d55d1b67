-- ===== src/Mm/Kmalloc/Alloc.antt =====
-- `kmalloc` of mm/kmalloc.c on an initialized heap.
use velox_os.Prelude.{
  ℕ, zero, suc, ◌+◌, ◌*◌, ◌/◌, ◌^◌, ◌≤◌, ◌<◌, ◌≡◌, ◌⊎◌, inl, inr, refl, ap, sym, ◌∙◌, true, false,
  Option, none, some, ◌==◌, if◌then◌else◌, List, [], ◌∷◌, ◌++◌, All, length, arith, Bool-cases, ltb,
}
use mathlib.Core.Path.{subst}
use velox_os.Prelude.Bits.{bit_and-high}
use velox_os.Prelude.Words.{u64, sub_u64, align_up}
use velox_os.Mm.Kmalloc.{
  Heap, update, first_block, free_list_insert, expand_pool, serve_or, second_attempt,
  kmalloc_init_locked, first_attempt, kmalloc, kmalloc_magic_used,
}
use velox_os.Mm.Kmalloc.FreeList.{Lacks, IsFreeList}
use velox_os.Mm.Kmalloc.Handed.{
  IsFreeList-update, free_list_insert-IsFreeList, Leaves, hand_out-Leaves,
}
use velox_os.Mm.Kmalloc.Fit.{
  FitSpec, first_block-FitSpec, IsCut, hand_out-IsCut, free_list_insert-IsSameShape,
}

-- The bytes that a request takes: a multiple of 16.
abbrev pub rounded : ℕ → ℕ
rounded size = (size + 15) / 16 * 16

-- The block `b` of `h` serves a request of `size` bytes.
abbrev pub Serves : (h : Heap) (b size p : ℕ) (h' : Heap) → Type 0
Serves h b size p h' =
    (p ≡ b + 48)
    × ((h'.blocks b).magic ≡ kmalloc_magic_used)
    × ((h'.blocks b).free ≡ 0)
    × IsCut h h' b size

align_up_sixteen : (v : ℕ) → v + 15 < 2 ^ 64 → align_up v 16 ≡ rounded v
unfolding align_up
align_up_sixteen v h = omega (arith, bit_and-high (sub_u64 (u64 (v + 16)) 1) 60 4)

All-middle : (P : ℕ → Type 0) (xs : List ℕ) (b : ℕ) (ys : List ℕ) → All P (xs ++ b ∷ ys) → P b
All-middle P [] b ys (h, _) = h
All-middle P (x ∷ xs) b ys (_, h) = All-middle P xs b ys h

-- A heap with a new pool in front of its free list.
abbrev pub with_pool : (pool : ℕ) → Heap → Heap
with_pool pool h =
    free_list_insert pool (update pool (λ x. record x { size = 4194256; next_phys = 0 }) h)

-- No block of the list begins inside one of them, nor inside a new pool.
abbrev pub Apart : Heap → List ℕ → Type 0
Apart h l = All (λ a. All (λ x. (x ≤ a) ⊎ (a + 48 + (h.blocks a).size ≤ x)) l) l

abbrev pub PoolApart : (pool : ℕ) → List ℕ → Type 0
PoolApart pool l = (pool ≡ 0) ⊎ All (λ x. (x < pool) ⊎ (pool + 4194304 ≤ x)) l

-- What a request promises that fits into a pool, with the address `pool` that vmalloc would give.
abbrev pub KmallocSpec :
    {K : Type 0} → (h : Heap) (l : List ℕ) (size pool : ℕ) → ℕ × Heap × K → Type 0
KmallocSpec h l size pool (p, h', k') =
    ((xs : List ℕ) × (b : ℕ) × (ys : List ℕ) × (l ≡ xs ++ b ∷ ys)
      × All (λ a. (h.blocks a).size < rounded size) xs
      × (rounded size ≤ (h.blocks b).size)
      × Serves h b (rounded size) p h'
      × Leaves h h' b (rounded size) (xs ++ ys))
    ⊎ (All (λ a. (h.blocks a).size < rounded size) l
        × (((pool ≡ 0) × (p ≡ 0) × IsFreeList h' l)
            ⊎ ((1 ≤ pool)
                × Serves (with_pool pool h) pool (rounded size) p h'
                × Leaves (with_pool pool h) h' pool (rounded size) l)))

Lacks-pool :
    (c pool : ℕ) (l : List ℕ)
    → pool ≤ c
    → c < pool + 4194304
    → All (λ x. (x < pool) ⊎ (pool + 4194304 ≤ x)) l
    → Lacks c l
Lacks-pool c pool [] h k far = tt
Lacks-pool c pool (x ∷ l) h k (e, far) = (ground (arith, e), Lacks-pool c pool l h k far)

Lacks-inside :
    (c a n : ℕ) (l : List ℕ)
    → a < c
    → c < a + 48 + n
    → All (λ x. (x ≤ a) ⊎ (a + 48 + n ≤ x)) l
    → Lacks c l
Lacks-inside c a n [] h k apart = tt
Lacks-inside c a n (x ∷ l) h k (e, apart) = (ground (arith, e), Lacks-inside c a n l h k apart)

module _ {K : Type 0} (vmalloc : K → ℕ × K) (h : Heap) (k : K) (l : List ℕ) (fuel size : ℕ)
    (free : IsFreeList h l) (enough : length l < fuel)
    (space : All (λ a. a + 48 + (h.blocks a).size < 2 ^ 64) l) (apart : Apart h l)
    (pool_apart : PoolApart ((vmalloc k).0) l) (pool_space : (vmalloc k).0 + 4194304 < 2 ^ 64)
    (small : size ≤ 4194256) where
  abbrev pool : ℕ
  pool = (vmalloc k).0

  abbrev with_header : Heap
  with_header = update pool (λ x. record x { size = 4194256; next_phys = 0 }) h

  abbrev expanded : Heap
  expanded = with_pool pool h

  pool_size : (expanded.blocks pool).size ≡ 4194256
  unfolding update
  pool_size = (free_list_insert-IsSameShape pool with_header pool).0 ∙ ground arith

  pool_first :
      (pool == 0) ≡ false
      → (n : ℕ) → 1 ≤ n
      → first_block n (rounded size) pool expanded.blocks ≡ some pool
  unfolding first_block
  pool_first real zero le = absurd (omega arith)
  pool_first real (suc n) le =
      let fits : ltb ((expanded.blocks pool).size) (rounded size) ≡ false =
        ground (arith, pool_size) in
      rw (real, fits) refl

  far : 1 ≤ pool → All (λ x. (x < pool) ⊎ (pool + 4194304 ≤ x)) l
  far positive = elim pool_apart [ inl null ↦ absurd (omega (arith, null)) | inr apart_l ↦ apart_l ]

  pool_lacked : 1 ≤ pool → Lacks pool l
  pool_lacked positive = Lacks-pool pool pool l (omega arith) (omega arith) (far positive)

  pool_listed : 1 ≤ pool → IsFreeList expanded (pool ∷ l)
  pool_listed positive =
      free_list_insert-IsFreeList pool with_header l
        (IsFreeList-update pool (λ x. record x { size = 4194256; next_phys = 0 }) h l
          (λ x. (refl, refl)) free)
        positive (pool_lacked positive)

  rest_fresh :
      (positive : 1 ≤ pool)
      → rounded size + 64 ≤ (expanded.blocks pool).size
      → Lacks (pool + 48 + rounded size) (pool ∷ l)
  rest_fresh positive room = (
    ground arith,
    Lacks-pool (pool + 48 + rounded size) pool l (omega arith) (omega (arith, pool_size))
        (far positive),
  )

  abbrev failed : ℕ × Heap × K
  failed =
      let (ok, h', k') = expand_pool vmalloc h k in
      if ok then second_attempt vmalloc fuel (rounded size) h' k' else (0, h', k')

  after_failure : All (λ a. (h.blocks a).size < rounded size) l → KmallocSpec h l size pool failed
  unfolding expand_pool second_attempt
  after_failure none_fits = elim (Bool-cases (pool == 0)) [
    | inl no_pool ↦ rw no_pool (inr (none_fits, inl (ground arith, refl, free)))
    | inr real ↦
        let positive : 1 ≤ pool = ground arith in
        rw (real, pool_first real fuel (omega arith))
          (inr (
            none_fits,
            inr (
              positive,
              hand_out-IsCut pool (rounded size) expanded (omega (arith, pool_size))
                  (omega (arith, pool_size)),
              hand_out-Leaves pool (rounded size) expanded [] l (omega (arith, pool_size))
                  (omega (arith, pool_size)) (pool_listed positive)
                  (λ room. rest_fresh positive room),
            ),
          ))
  ]

  served :
      (o : Option ℕ)
      → FitSpec h.blocks (rounded size) l o
      → KmallocSpec h l size pool (serve_or vmalloc o (rounded size) failed h k)
  unfolding serve_or
  served none none_fits = after_failure none_fits
  served (some b) (xs, ys, e, small_before, room) =
      let listed : IsFreeList h (xs ++ b ∷ ys) = rw e at free in
      let in_space : b + 48 + (h.blocks b).size < 2 ^ 64 = All-middle _ xs b ys (rw e at space) in
      let around = All-middle _ xs b ys (rw e at apart) in
      inl (
        xs,
        b,
        ys,
        e,
        small_before,
        room,
        hand_out-IsCut b (rounded size) h room in_space,
        hand_out-Leaves b (rounded size) h xs ys room in_space listed (λ wide.
            Lacks-inside (b + 48 + rounded size) b ((h.blocks b).size) (xs ++ b ∷ ys) (omega arith)
              (omega arith) around),
      )

  -- The call is the first attempt, at the size rounded up.
  attempts :
      h.initialized ≡ true
      → 1 ≤ size
      → kmalloc vmalloc fuel size h k ≡ first_attempt vmalloc fuel (align_up size 16) h k
  unfolding kmalloc kmalloc_init_locked
  attempts on some_bytes =
      let not_zero : (size == 0) ≡ false = ground arith in rw (not_zero, on) refl

  first_served : KmallocSpec h l size pool (first_attempt vmalloc fuel (rounded size) h k)
  unfolding first_attempt
  first_served =
      served (first_block fuel (rounded size) h.free_list h.blocks)
        (first_block-FitSpec h.blocks (rounded size) fuel 0 h.free_list l free.0 (omega arith))

  served_all :
      h.initialized ≡ true → 1 ≤ size → KmallocSpec h l size pool (kmalloc vmalloc fuel size h k)
  served_all on some_bytes =
      subst (KmallocSpec h l size pool)
        (sym (
          attempts on some_bytes
          ∙ ap (λ n. first_attempt vmalloc fuel n h k) (align_up_sixteen size (omega arith))))
        first_served

-- On an initialized heap whose free list is linked and whose free blocks end inside the address
-- space and do not meet, with more fuel than free blocks, a request of some bytes that fits into a
-- pool returns the address behind the header of the first free block with room for it, rounded up
-- to 16; if no block has room, that of the new pool that vmalloc gives, which meets no free block,
-- or NULL if vmalloc gives none. The block is marked used and cut to the request, its rest kept up
-- to its old end. The free list is then that of the other blocks in their order, with the rest in
-- front where it is worth a header.
pub kmalloc-KmallocSpec :
    {K : Type 0} (vmalloc : K → ℕ × K) (h : Heap) (k : K) (l : List ℕ) (fuel size : ℕ)
    → h.initialized ≡ true
    → IsFreeList h l
    → length l < fuel
    → All (λ a. a + 48 + (h.blocks a).size < 2 ^ 64) l
    → Apart h l
    → PoolApart ((vmalloc k).0) l
    → (vmalloc k).0 + 4194304 < 2 ^ 64
    → 1 ≤ size
    → size ≤ 4194256
    → KmallocSpec h l size ((vmalloc k).0) (kmalloc vmalloc fuel size h k)
kmalloc-KmallocSpec vmalloc h k l fuel size on free enough space apart pool_apart pool_space
      some_bytes small =
    served_all vmalloc h k l fuel size free enough space apart pool_apart pool_space small on
      some_bytes
