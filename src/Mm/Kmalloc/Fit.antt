-- ===== src/Mm/Kmalloc/Fit.antt =====
-- The block that mm/kmalloc.c hands out: how it is found, and how it is cut.
use velox_os.Prelude.{
  ℕ, zero, suc, ◌+◌, ◌-◌, ◌^◌, ◌≤◌, ◌<◌, ◌≡◌, ◌⊎◌, inl, inr, refl, ap, ◌∙◌, true, false, Option,
  none, some, ltb, leb, ◌==◌, List, [], ◌∷◌, ◌++◌, All, length, arith, Bool-cases,
}
use velox_os.Prelude.Words.{u64, sub_u64}
use velox_os.Mm.Kmalloc.{
  Blocks, Heap, KmallocBlock, update, first_block, free_list_insert, free_list_remove, split_block,
  hand_out, kmalloc_magic_used,
}

-- The blocks of `l` are linked from `p` on, both ways, `prev` before the first.
abbrev pub Links : Blocks → (prev p : ℕ) → List ℕ → Type 0
Links f prev p [] = p ≡ 0
Links f prev p (a ∷ l) =
    (p ≡ a) × (1 ≤ a) × ((f a).prev_free ≡ prev) × Links f a ((f a).next_free) l

-- The first block of the list that has room.
abbrev pub FitSpec : Blocks → (size : ℕ) → List ℕ → Option ℕ → Type 0
FitSpec f size l none = All (λ a. (f a).size < size) l
FitSpec f size l (some b) =
    (xs : List ℕ) × (ys : List ℕ) × (l ≡ xs ++ b ∷ ys)
    × All (λ a. (f a).size < size) xs
    × (size ≤ (f b).size)

FitSpec-later :
    (f : Blocks) (size a : ℕ) (l : List ℕ) (o : Option ℕ)
    → (f a).size < size
    → FitSpec f size l o
    → FitSpec f size (a ∷ l) o
FitSpec-later f size a l none small h = (small, h)
FitSpec-later f size a l (some b) small (xs, ys, e, all_small, fits) =
    (a ∷ xs, ys, ap (λ m. a ∷ m) e, (small, all_small), fits)

-- On a linked list and with fuel for each of its blocks, the walk ends at the first block that has
-- room, or finds none when no block has.
pub first_block-FitSpec :
    (f : Blocks) (size fuel prev p : ℕ) (l : List ℕ)
    → Links f prev p l
    → length l ≤ fuel
    → FitSpec f size l (first_block fuel size p f)
unfolding first_block
first_block-FitSpec f size zero prev p [] h le = tt
first_block-FitSpec f size zero prev p (a ∷ l) h le = absurd (omega arith)
first_block-FitSpec f size (suc fuel) prev p [] h le = rw h tt
first_block-FitSpec f size (suc fuel) prev p (a ∷ l) (at_a, real, back, rest) le =
    let not_null : (a == 0) ≡ false = ground arith in
    rw (at_a, not_null)
      (elim (Bool-cases (ltb ((f a).size) size)) [
        | inl small ↦ rw small (
            FitSpec-later f size a l _ (ground arith)
              (first_block-FitSpec f size fuel a ((f a).next_free) l rest (omega arith)))
        | inr fits ↦ rw fits ([], l, refl, tt, ground arith)
      ])

-- Headers keep their sizes and their neighbours in memory.
abbrev pub IsSameShape : Heap → Heap → Type 0
IsSameShape h h' =
    (p : ℕ)
    → ((h'.blocks p).size ≡ (h.blocks p).size) × ((h'.blocks p).next_phys ≡ (h.blocks p).next_phys)

update-IsSameShape :
    (a : ℕ) (g : KmallocBlock → KmallocBlock) (h : Heap)
    → ((x : KmallocBlock) → ((g x).size ≡ x.size) × ((g x).next_phys ≡ x.next_phys))
    → IsSameShape h (update a g h)
unfolding update
update-IsSameShape a g h kept p = elim (Bool-cases (p == a)) [
  | inl on ↦ rw on (kept (h.blocks p))
  | inr off ↦ rw off (refl, refl)
]

IsSameShape-trans : (h h' h'' : Heap) → IsSameShape h h' → IsSameShape h' h'' → IsSameShape h h''
IsSameShape-trans h h' h'' a b p = ((b p).0 ∙ (a p).0, (b p).1 ∙ (a p).1)

pub free_list_insert-IsSameShape : (b : ℕ) (h : Heap) → IsSameShape h (free_list_insert b h)
unfolding free_list_insert update
free_list_insert-IsSameShape b h p = (ground arith, ground arith)

free_list_remove-IsSameShape : (b : ℕ) (h : Heap) → IsSameShape h (free_list_remove b h)
unfolding free_list_remove update
free_list_remove-IsSameShape b h p = (ground arith, ground arith)

-- How the block `b` is cut: it keeps its end, or a free block takes the rest up to that end.
pub record IsCut (old new : Heap) (b size : ℕ) : Type 0 where
  pub room : size ≤ (new.blocks b).size
  pub tight : (new.blocks b).size < size + 64
  pub rest :
      (((new.blocks b).size ≡ (old.blocks b).size)
        × ((new.blocks b).next_phys ≡ (old.blocks b).next_phys))
      ⊎ ((c : ℕ) × ((new.blocks b).next_phys ≡ c)
          × (c ≡ b + 48 + (new.blocks b).size)
          × (c + 48 + (new.blocks c).size ≡ b + 48 + (old.blocks b).size)
          × ((new.blocks c).next_phys ≡ (old.blocks b).next_phys))

IsCut-same :
    (old h h' : Heap) (b size : ℕ) → IsSameShape h h' → IsCut old h b size → IsCut old h' b size
IsCut-same old h h' b size same cut =
    let (size_b, next_b) = same b in
    record {
      room = omega (arith, cut.room, size_b);
      tight = omega (arith, cut.tight, size_b);
      rest = elim cut.rest [
        | inl (s, n) ↦ inl (size_b ∙ s, next_b ∙ n)
        | inr (c, n, at_end, keeps, follows) ↦
            let (size_c, next_c) = same c in
            inr (
              c,
              next_b ∙ n,
              omega (arith, at_end, size_b),
              omega (arith, keeps, size_c),
              next_c ∙ follows,
            )
      ];
    }

module _ (b size : ℕ) (h : Heap) (fits : size ≤ (h.blocks b).size)
    (in_space : b + 48 + (h.blocks b).size < 2 ^ 64) where
  abbrev c : ℕ
  c = b + 48 + size

  abbrev carved : Heap
  carved =
      update b (λ x. record x { next_phys = c; size = size })
        (update c
          (λ x. record x {
            size = (h.blocks b).size - size - 48;
            next_phys = (h.blocks b).next_phys;
          })
          h)

  carved-IsCut : size + 64 ≤ (h.blocks b).size → IsCut h carved b size
  unfolding update
  carved-IsCut wide =
      let at_b : (b == c) ≡ false = ground arith in
      record {
        room = ground arith;
        tight = ground arith;
        rest = inr (c, ground arith, ground arith, ground arith, ground arith);
      }

  split_block-IsCut : IsCut h (split_block b size h) b size
  unfolding split_block
  split_block-IsCut = elim (Bool-cases (leb 64 (sub_u64 ((h.blocks b).size) size))) [
    | inl wide ↦
        rw (wide, left, split_at, rest_size wide)
          (IsCut-same h carved (free_list_insert c carved) b size
            (free_list_insert-IsSameShape c carved) (carved-IsCut (ground (arith, left))))
    | inr narrow ↦
        rw narrow (record { room = fits; tight = ground (arith, left); rest = inl (refl, refl) })
  ]
    where
      left : sub_u64 ((h.blocks b).size) size ≡ (h.blocks b).size - size
      left = omega arith

      split_at : u64 (b + 48 + size) ≡ b + 48 + size
      split_at = omega arith

      rest_size :
          leb 64 (sub_u64 ((h.blocks b).size) size) ≡ true
          → sub_u64 ((h.blocks b).size - size) 48 ≡ (h.blocks b).size - size - 48
      rest_size wide = ground (arith, left)

  abbrev removed : Heap
  removed = free_list_remove b (split_block b size h)

  abbrev marked_used : Heap
  marked_used = update b (λ x. record x { free = 0; magic = kmalloc_magic_used }) removed

  marked : ((marked_used.blocks b).magic ≡ kmalloc_magic_used) × ((marked_used.blocks b).free ≡ 0)
  unfolding update
  marked = (ground arith, ground arith)

  marked_used-IsSameShape : IsSameShape (split_block b size h) marked_used
  marked_used-IsSameShape =
      IsSameShape-trans (split_block b size h) removed marked_used
        (free_list_remove-IsSameShape b (split_block b size h))
        (update-IsSameShape b (λ x. record x { free = 0; magic = kmalloc_magic_used }) removed
          (λ x. (refl, refl)))

  -- A block with room that ends inside the address space is handed out as the address behind its
  -- header. It is marked used, keeps at least the bytes asked for and less than 64 more, and ends
  -- where it ended before; or a new block begins at its end and ends where it ended, with the
  -- block that followed it as the next in memory.
  pub hand_out-IsCut :
      ((hand_out b size h).0 ≡ b + 48)
      × (((hand_out b size h).1.blocks b).magic ≡ kmalloc_magic_used)
      × (((hand_out b size h).1.blocks b).free ≡ 0)
      × IsCut h ((hand_out b size h).1) b size
  unfolding hand_out
  hand_out-IsCut = (
    omega arith,
    marked.0,
    marked.1,
    IsCut-same h (split_block b size h) marked_used b size marked_used-IsSameShape
        split_block-IsCut,
  )
