-- ===== src/Mm/Kmalloc/Handed.antt =====
-- The free list of mm/kmalloc.c when a block is put on it, and when one is handed out.
use mathlib.Core.Path.{subst}
use velox_os.Prelude.{
  ℕ, ◌+◌, ◌-◌, ◌^◌, ◌≤◌, ◌<◌, ◌≡◌, inl, inr, refl, sym, ap, ◌∙◌, true, false, leb, List, [], ◌∷◌,
  ◌++◌, All, arith, ◌==◌, if◌then◌else◌, Bool-cases,
}
use velox_os.Prelude.Words.{u64, sub_u64}
use velox_os.Mm.Kmalloc.{
  Heap, KmallocBlock, update, free_list_insert, free_list_remove, split_block, hand_out,
  kmalloc_magic_used,
}
use velox_os.Mm.Kmalloc.Fit.{Links}
use velox_os.Mm.Kmalloc.FreeList.{
  Lacks, Distinct, SameLinks, Links-same, IsFreeList, free_list_remove-Links,
}

All-of : {P : ℕ → Type 0} → ((a : ℕ) → P a) → (l : List ℕ) → All P l
All-of h [] = tt
All-of h (a ∷ l) = (h a, All-of h l)

-- An assignment that keeps a header's links keeps the free list.
pub IsFreeList-update :
    (a : ℕ) (g : KmallocBlock → KmallocBlock) (h : Heap) (l : List ℕ)
    → ((x : KmallocBlock) → ((g x).prev_free ≡ x.prev_free) × ((g x).next_free ≡ x.next_free))
    → IsFreeList h l
    → IsFreeList (update a g h) l
unfolding update
IsFreeList-update a g h l kept (links, distinct, real) = (
  Links-same h.blocks (λ p. if p == a then g (h.blocks p) else h.blocks p) 0 h.free_list l
      (All-of
        (λ p. elim (Bool-cases (p == a)) [
          | inl on ↦ rw on (kept (h.blocks p))
          | inr off ↦ rw off (refl, refl)
        ])
        l)
      links,
  distinct,
  real,
)

module _ (c : ℕ) (h : Heap) where
  abbrev inserted : Heap
  inserted = free_list_insert c h

  inserted_other :
      (a : ℕ)
      → (a == c) ≡ false
      → (a == h.free_list) ≡ false
      → ((inserted.blocks a).prev_free ≡ (h.blocks a).prev_free)
        × ((inserted.blocks a).next_free ≡ (h.blocks a).next_free)
  unfolding free_list_insert update
  inserted_other a e k = (ground arith, ground arith)

  inserted_first :
      (a : ℕ)
      → (a == c) ≡ false
      → h.free_list ≡ a
      → 1 ≤ a
      → ((inserted.blocks a).prev_free ≡ c)
        × ((inserted.blocks a).next_free ≡ (h.blocks a).next_free)
  unfolding free_list_insert update
  inserted_first a e k real = (ground arith, ground arith)

  inserted_own :
      (h.free_list == c) ≡ false
      → ((inserted.blocks c).prev_free ≡ 0)
        × ((inserted.blocks c).next_free ≡ h.free_list)
        × (inserted.free_list ≡ c)
  unfolding free_list_insert update
  inserted_own e = (ground arith, ground arith, ground arith)

  others_same :
      (first : ℕ) (l : List ℕ)
      → h.free_list ≡ first
      → Lacks c l
      → Lacks first l
      → SameLinks h.blocks inserted.blocks l
  others_same first [] e hc hf = tt
  others_same first (a ∷ l) e (a_c, hc) (a_f, hf) =
      (inserted_other a a_c (rw e a_f), others_same first l e hc hf)

  rest_linked :
      (l : List ℕ)
      → Links h.blocks 0 h.free_list l
      → Distinct l
      → Lacks c l
      → Links inserted.blocks c h.free_list l
  rest_linked [] links d fresh = links
  rest_linked (y ∷ ys) (at_y, real, back, rest) (fresh_y, d) (y_c, fresh) =
      let (prev, next) = inserted_first y y_c at_y real in
      (
        at_y,
        real,
        prev,
        rw next (
            Links-same h.blocks inserted.blocks y ((h.blocks y).next_free) ys
              (others_same y ys at_y fresh fresh_y) rest),
      )

  head_other :
      (l : List ℕ) → Links h.blocks 0 h.free_list l → Lacks c l → 1 ≤ c → (h.free_list == c) ≡ false
  head_other [] links fresh real = ground arith
  head_other (y ∷ ys) (at_y, _, _, _) (y_c, _) real = rw at_y y_c

  -- A new block comes first, before the others in their order.
  pub free_list_insert-IsFreeList :
      (l : List ℕ) → IsFreeList h l → 1 ≤ c → Lacks c l → IsFreeList (free_list_insert c h) (c ∷ l)
  free_list_insert-IsFreeList l (links, distinct, real) positive fresh =
      let (prev, next, head) = inserted_own (head_other l links fresh positive) in
      (
        (head, positive, prev, rw next (rest_linked l links distinct fresh)),
        (fresh, distinct),
        (ground arith, real),
      )

All-without :
    (P : ℕ → Type 0) (xs : List ℕ) (b : ℕ) (ys : List ℕ) → All P (xs ++ b ∷ ys) → All P (xs ++ ys)
All-without P [] b ys (h, hs) = hs
All-without P (x ∷ xs) b ys (h, hs) = (h, All-without P xs b ys hs)

Distinct-without :
    (xs : List ℕ) (b : ℕ) (ys : List ℕ) → Distinct (xs ++ b ∷ ys) → Distinct (xs ++ ys)
Distinct-without [] b ys (fresh, d) = d
Distinct-without (x ∷ xs) b ys (fresh, d) =
    (All-without (λ a. (a == x) ≡ false) xs b ys fresh, Distinct-without xs b ys d)

free_list_remove-IsFreeList :
    (h : Heap) (xs : List ℕ) (b : ℕ) (ys : List ℕ)
    → IsFreeList h (xs ++ b ∷ ys)
    → IsFreeList (free_list_remove b h) (xs ++ ys)
free_list_remove-IsFreeList h xs b ys free = (
  free_list_remove-Links h xs b ys free,
  Distinct-without xs b ys free.1,
  All-without (λ a. (a == 0) ≡ false) xs b ys free.2,
)

-- What is on the free list once the block `b` is handed out with `size` bytes asked for: the other
-- blocks in their order, and before them the rest of `b` where it is worth a header.
pub data Leaves (old new : Heap) (b size : ℕ) (others : List ℕ) : Type 0 where
  no_rest : (old.blocks b).size < size + 64 → IsFreeList new others → Leaves old new b size others
  with_rest :
      size + 64 ≤ (old.blocks b).size
      → IsFreeList new ((b + 48 + size) ∷ others)
      → Leaves old new b size others

module _ (b size : ℕ) (h : Heap) (xs ys : List ℕ) (fits : size ≤ (h.blocks b).size)
    (in_space : b + 48 + (h.blocks b).size < 2 ^ 64) (free : IsFreeList h (xs ++ b ∷ ys)) where
  taken_out :
      (k : Heap) (zs : List ℕ)
      → IsFreeList k (zs ++ b ∷ ys)
      → IsFreeList
          (update b (λ x. record x { free = 0; magic = kmalloc_magic_used }) (free_list_remove b k))
          (zs ++ ys)
  taken_out k zs listed =
      IsFreeList-update b (λ x. record x { free = 0; magic = kmalloc_magic_used })
        (free_list_remove b k) (zs ++ ys) (λ x. (refl, refl))
        (free_list_remove-IsFreeList k zs b ys listed)

  abbrev rest_at : ℕ
  rest_at = b + 48 + size

  abbrev cut : Heap
  cut =
      update b (λ x. record x { next_phys = rest_at; size = size })
        (update rest_at
          (λ x. record x {
            size = sub_u64 (sub_u64 ((h.blocks b).size) size) 48;
            next_phys = (h.blocks b).next_phys;
          })
          h)

  cut-IsFreeList : IsFreeList cut (xs ++ b ∷ ys)
  cut-IsFreeList =
      IsFreeList-update b (λ x. record x { next_phys = rest_at; size = size }) _ (xs ++ b ∷ ys)
        (λ x. (refl, refl))
        (IsFreeList-update rest_at
          (λ x. record x {
            size = sub_u64 (sub_u64 ((h.blocks b).size) size) 48;
            next_phys = (h.blocks b).next_phys;
          })
          h (xs ++ b ∷ ys) (λ x. (refl, refl)) free)

  abbrev handed : Heap → Heap
  handed k =
      update b (λ x. record x { free = 0; magic = kmalloc_magic_used }) (free_list_remove b k)

  split_wide : size + 64 ≤ (h.blocks b).size → split_block b size h ≡ free_list_insert rest_at cut
  unfolding split_block
  split_wide room =
      let left : sub_u64 ((h.blocks b).size) size ≡ (h.blocks b).size - size = omega arith in
      let wide : leb 64 (sub_u64 ((h.blocks b).size) size) ≡ true = ground (arith, left) in
      let at : u64 (b + 48 + size) ≡ b + 48 + size = omega arith in rw (wide, at) refl

  split_narrow : (h.blocks b).size < size + 64 → split_block b size h ≡ h
  unfolding split_block
  split_narrow full =
      let left : sub_u64 ((h.blocks b).size) size ≡ (h.blocks b).size - size = omega arith in
      let narrow : leb 64 (sub_u64 ((h.blocks b).size) size) ≡ false = ground (arith, left) in
      rw narrow refl

  hand_out-handed : (hand_out b size h).1 ≡ handed (split_block b size h)
  unfolding hand_out
  hand_out-handed = refl

  pub hand_out-Leaves :
      (size + 64 ≤ (h.blocks b).size → Lacks (b + 48 + size) (xs ++ b ∷ ys))
      → Leaves h ((hand_out b size h).1) b size (xs ++ ys)
  hand_out-Leaves fresh = elim (Bool-cases (leb (size + 64) ((h.blocks b).size))) [
    | inl wide ↦
        let room : size + 64 ≤ (h.blocks b).size = ground arith in
        with_rest room (
          subst (λ k. IsFreeList k (rest_at ∷ (xs ++ ys)))
            (sym (hand_out-handed ∙ ap handed (split_wide room)))
            (taken_out (free_list_insert rest_at cut) (rest_at ∷ xs) (
              free_list_insert-IsFreeList rest_at cut (xs ++ b ∷ ys) cut-IsFreeList (omega arith)
                (fresh room))))
    | inr narrow ↦
        let full : (h.blocks b).size < size + 64 = ground arith in
        no_rest full (
          subst (λ k. IsFreeList k (xs ++ ys))
            (sym (hand_out-handed ∙ ap handed (split_narrow full))) (taken_out h xs free))
  ]
