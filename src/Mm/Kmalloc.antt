-- ===== src/Mm/Kmalloc.antt =====
-- mm/kmalloc.c: the kernel heap. The headers are a store from addresses to records; NULL is 0. What
-- `vmalloc` gives for a pool is an argument, over a state `K` of its own. Each function that holds
-- `g_kmalloc_lock` is one step. The walks along the links are recursion on fuel.
pub mod Alloc
pub mod Fit
pub mod FreeList
pub mod Handed
use velox_os.Prelude.{
  ℕ, zero, suc, ◌+◌, ◌-◌, ◌*◌, ◌^◌, Bool, true, false, not, ◌&&◌, Option, none, some, ltb, leb,
  ◌==◌, if◌then◌else◌, bit_and,
}
use velox_os.Prelude.Words.{u64, sub_u64, align_up}

abbrev pub kmalloc_pool_size : ℕ
kmalloc_pool_size = 4194304

abbrev pub kmalloc_align : ℕ
kmalloc_align = 16

-- `sizeof(kmalloc_block_t)`
abbrev pub block_bytes : ℕ
block_bytes = 48

abbrev pub kmalloc_min_split : ℕ
kmalloc_min_split = block_bytes + kmalloc_align

abbrev pub kmalloc_magic_free : ℕ
kmalloc_magic_free = 4276875005

abbrev pub kmalloc_magic_used : ℕ
kmalloc_magic_used = 3735928559

-- `kmalloc_block_t`
pub record KmallocBlock : Type 0 where
  pub magic : ℕ
  pub free : ℕ
  pub size : ℕ
  pub next_phys : ℕ
  pub next_free : ℕ
  pub prev_free : ℕ

abbrev pub Blocks : Type 0
Blocks = ℕ → KmallocBlock

-- The headers in memory and the static variables.
pub record Heap : Type 0 where
  pub blocks : Blocks
  pub free_list : ℕ
  pub initialized : Bool

-- An assignment to fields of the header at an address.
unfoldable pub update : ℕ → (KmallocBlock → KmallocBlock) → Heap → Heap
update a f h = record h { blocks = λ p. if p == a then f (h.blocks p) else h.blocks p }

unfoldable pub free_list_insert : ℕ → Heap → Heap
unfolding update
free_list_insert b h =
    let marked =
      update b
        (λ x. record x {
          free = 1;
          magic = kmalloc_magic_free;
          next_free = h.free_list;
          prev_free = 0;
        })
        h in
    let linked =
      if h.free_list == 0
      then marked
      else update h.free_list (λ x. record x { prev_free = b }) marked in
    record linked { free_list = b }

unfoldable pub free_list_remove : ℕ → Heap → Heap
unfolding update
free_list_remove b h =
    let x = h.blocks b in
    let passed =
      if x.prev_free == 0
      then record h { free_list = x.next_free }
      else update x.prev_free (λ y. record y { next_free = x.next_free }) h in
    let x' = passed.blocks b in
    let linked =
      if x'.next_free == 0
      then passed
      else update x'.next_free (λ y. record y { prev_free = x'.prev_free }) passed in
    update b (λ y. record y { next_free = 0; prev_free = 0 }) linked

-- The walk along the free list to the first block that fits; `none` is its end.
unfoldable pub first_block : (fuel size b : ℕ) → Blocks → Option ℕ
first_block zero size b f = none
first_block (suc fuel) size b f =
    let rest = first_block fuel size ((f b).next_free) f in
    if b == 0 then none else if ltb ((f b).size) size then rest else some b

-- The block is cut after `size` bytes if the rest is worth a header.
unfoldable pub split_block : (b size : ℕ) → Heap → Heap
unfolding update free_list_insert
split_block b size h =
    let leftover = sub_u64 ((h.blocks b).size) size in
    let split = u64 (b + block_bytes + size) in
    let carved =
      update b (λ x. record x { next_phys = split; size = size })
        (update split
          (λ x. record x {
            size = sub_u64 leftover block_bytes;
            next_phys = (h.blocks b).next_phys;
          })
          h) in
    if leb kmalloc_min_split leftover then free_list_insert split carved else h

-- The block leaves the free list; the result is the address behind its header.
unfoldable pub hand_out : (b size : ℕ) → Heap → ℕ × Heap
unfolding split_block free_list_remove update
hand_out b size h = (
  u64 (b + block_bytes),
  update b (λ x. record x { free = 0; magic = kmalloc_magic_used })
      (free_list_remove b (split_block b size h)),
)

module _ {K : Type 0} (vmalloc : K → ℕ × K) where
  unfoldable pub expand_pool : Heap → K → Bool × Heap × K
  unfolding update free_list_insert
  expand_pool h k =
      let (pool, k') = vmalloc k in
      let made =
        update pool (λ x. record x { size = kmalloc_pool_size - block_bytes; next_phys = 0 }) h in
      if pool == 0 then (false, h, k') else (true, free_list_insert pool made, k')

  unfoldable pub kmalloc_init_locked : Heap → K → Bool × Heap × K
  unfolding expand_pool
  kmalloc_init_locked h k =
      let (ok, h', k') = expand_pool h k in
      if h.initialized
      then (true, h, k)
      else if ok
      then (true, record h' { initialized = true }, k')
      else (false, h', k')

  unfoldable pub kmalloc_init : Heap → K → Heap × K
  unfolding kmalloc_init_locked
  kmalloc_init h k = let (ok, h', k') = kmalloc_init_locked h k in (h', k')

  -- The block that was found is handed out; without one the attempt has failed.
  unfoldable pub serve_or :
      Option ℕ → (size : ℕ) → (failed : ℕ × Heap × K) → Heap → K → ℕ × Heap × K
  unfolding hand_out
  serve_or (some b) size failed h k = let (p, h') = hand_out b size h in (p, h', k)
  serve_or none size failed h k = failed

  -- The two attempts: the second after a new pool.
  unfoldable pub second_attempt : (fuel size : ℕ) → Heap → K → ℕ × Heap × K
  unfolding first_block serve_or
  second_attempt fuel size h k =
      serve_or (first_block fuel size h.free_list h.blocks) size (0, h, k) h k

  unfoldable pub first_attempt : (fuel size : ℕ) → Heap → K → ℕ × Heap × K
  unfolding first_block serve_or expand_pool second_attempt
  first_attempt fuel size h k =
      let (ok, h', k') = expand_pool h k in
      serve_or (first_block fuel size h.free_list h.blocks) size
        (if ok then second_attempt fuel size h' k' else (0, h', k')) h k

  unfoldable pub kmalloc : (fuel size : ℕ) → Heap → K → ℕ × Heap × K
  unfolding kmalloc_init_locked first_attempt
  kmalloc fuel size h k =
      let (ok, h', k') = kmalloc_init_locked h k in
      if size == 0
      then (0, h, k)
      else if ok
      then first_attempt fuel (align_up size kmalloc_align) h' k'
      else (0, h', k')

-- One round of the loop of `kfree`: the next block in memory is absorbed.
unfoldable pub absorb : (block next : ℕ) → Heap → Heap
unfolding update free_list_remove
absorb block next h =
    let removed = free_list_remove next h in
    let y = removed.blocks next in
    update next (λ x. record x { magic = 0 })
      (update block
        (λ x. record x { size = u64 (x.size + (block_bytes + y.size)); next_phys = y.next_phys })
        removed)

unfoldable pub absorb_loop : (fuel block : ℕ) → Heap → Heap
unfolding absorb
absorb_loop zero block h = h
absorb_loop (suc fuel) block h =
    let next = (h.blocks block).next_phys in
    let rest = absorb_loop fuel block (absorb block next h) in
    if next == 0 then h else if (h.blocks next).free == 0 then h else rest

unfoldable pub kfree : (fuel ptr : ℕ) → Heap → Heap
unfolding free_list_insert absorb_loop
kfree fuel ptr h =
    let block = sub_u64 ptr block_bytes in
    let x = h.blocks block in
    if ptr == 0
    then h
    else if x.magic == kmalloc_magic_free
    then h
    else if not (x.magic == kmalloc_magic_used)
    then h
    else if not (x.free == 0)
    then h
    else absorb_loop fuel block (free_list_insert block h)
