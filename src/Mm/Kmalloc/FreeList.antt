-- ===== src/Mm/Kmalloc/FreeList.antt =====
-- `free_list_remove` of mm/kmalloc.c on the free list as a list of addresses.
use velox_os.Prelude.{
  ℕ, ◌≤◌, ◌≡◌, ◌⊎◌, inl, inr, ◌∙◌, false, not, ◌&&◌, List, [], ◌∷◌, ◌++◌, All, arith, ◌==◌,
  if◌then◌else◌,
}
use velox_os.Mm.Kmalloc.{Blocks, Heap, update, free_list_remove}
use velox_os.Mm.Kmalloc.Fit.{Links}

-- The address is none of the list.
abbrev pub Lacks : ℕ → List ℕ → Type 0
Lacks a l = All (λ x. (x == a) ≡ false) l

abbrev pub Distinct : List ℕ → Type 0
Distinct [] = Unit {0}
Distinct (a ∷ l) = Lacks a l × Distinct l

-- The links of `l` are the same in both stores.
abbrev pub SameLinks : Blocks → Blocks → List ℕ → Type 0
SameLinks f f' l =
    All (λ a. ((f' a).prev_free ≡ (f a).prev_free) × ((f' a).next_free ≡ (f a).next_free)) l

pub Links-same :
    (f f' : Blocks) (prev p : ℕ) (l : List ℕ)
    → SameLinks f f' l
    → Links f prev p l
    → Links f' prev p l
Links-same f f' prev p [] same h = h
Links-same f f' prev p (a ∷ l) ((same_prev, same_next), same) (at_a, real, back, rest) =
    (at_a, real, same_prev ∙ back, rw same_next (Links-same f f' a ((f a).next_free) l same rest))

pub All-parts :
    (P : ℕ → Type 0) (xs : List ℕ) (b : ℕ) (ys : List ℕ)
    → All P (xs ++ b ∷ ys)
    → All P xs × P b × All P ys
All-parts P [] b ys (h, hs) = (tt, h, hs)
All-parts P (x ∷ xs) b ys (h, hs) =
    let (left, middle, right) = All-parts P xs b ys hs in ((h, left), middle, right)

Distinct-Lacks :
    (xs : List ℕ) (b : ℕ) (ys : List ℕ) → Distinct (xs ++ b ∷ ys) → Lacks b xs × Lacks b ys
Distinct-Lacks [] b ys (fresh, d) = (tt, fresh)
Distinct-Lacks (x ∷ xs) b ys (fresh, d) =
    let (left, right) = Distinct-Lacks xs b ys d in
    let (_, other, _) = All-parts (λ y. (y == x) ≡ false) xs b ys fresh in
    ((ground arith, left), right)

-- The successor of `b` is NULL or is like the addresses behind.
next_like :
    (f : Blocks) (Q : ℕ → Type 0) (prev p : ℕ) (xs : List ℕ) (b : ℕ) (ys : List ℕ)
    → Links f prev p (xs ++ b ∷ ys)
    → All Q ys
    → ((f b).next_free ≡ 0) ⊎ Q ((f b).next_free)
next_like f Q prev p [] b [] (_, _, _, rest) q = inl rest
next_like f Q prev p [] b (y ∷ ys) (_, _, _, (at_y, _, _, _)) (q, _) = inr (rw at_y q)
next_like f Q prev p (x ∷ xs) b ys (_, _, _, rest) q =
    next_like f Q x ((f x).next_free) xs b ys rest q

-- The predecessor of `b` is that before the list, or is like the addresses in front.
prev_like :
    (f : Blocks) (Q : ℕ → Type 0) (prev p : ℕ) (xs : List ℕ) (b : ℕ) (ys : List ℕ)
    → Links f prev p (xs ++ b ∷ ys)
    → Q prev
    → All Q xs
    → Q ((f b).prev_free)
prev_like f Q prev p [] b ys (_, _, back, _) q_prev q = rw back q_prev
prev_like f Q prev p (x ∷ xs) b ys (_, _, _, rest) q_prev (q_x, q) =
    prev_like f Q x ((f x).next_free) xs b ys rest q_x q

abbrev head_or : ℕ → ℕ → List ℕ → ℕ
head_or n p [] = n
head_or n p (x ∷ xs) = p

-- What taking `b` out does to the links of the other blocks.
module _ (f f' : Blocks) (b : ℕ)
    (nexts : (a : ℕ)
      → (a == b) ≡ false
      → (f' a).next_free ≡ (
          if (a == (f b).prev_free) && not ((f b).prev_free == 0)
          then (f b).next_free
          else (f a).next_free))
    (prevs : (a : ℕ)
      → (a == b) ≡ false
      → (f' a).prev_free ≡ (
          if (a == (f b).next_free) && not ((f b).next_free == 0)
          then (f b).prev_free
          else (f a).prev_free)) where
  others :
      (l : List ℕ)
      → Lacks b l
      → Lacks ((f b).prev_free) l
      → Lacks ((f b).next_free) l
      → SameLinks f f' l
  others [] hb hp hn = tt
  others (a ∷ l) (hb, hbs) (hp, hps) (hn, hns) =
      ((ground (arith, prevs a hb), ground (arith, nexts a hb)), others l hbs hps hns)

  -- The list after `b`.
  after_b :
      (ys : List ℕ)
      → Links f b ((f b).next_free) ys
      → Lacks b ys
      → Lacks ((f b).prev_free) ys
      → Distinct ys
      → Links f' ((f b).prev_free) ((f b).next_free) ys
  after_b [] h hb hp d = h
  after_b (y ∷ ys) (at_y, real, back, rest) (y_b, hb) (y_p, hp) (fresh, d) =
      let same_next : (f' y).next_free ≡ (f y).next_free = ground (arith, nexts y y_b) in
      let lacks_next : Lacks ((f b).next_free) ys = rw at_y fresh in
      (
        at_y,
        real,
        ground (arith, prevs y y_b),
        rw same_next (Links-same f f' y ((f y).next_free) ys (others ys hb hp lacks_next) rest),
      )

  -- The block in front of `b`, or one further in front.
  relinked :
      (x : ℕ) (xs ys : List ℕ)
      → 1 ≤ x
      → (x == b) ≡ false
      → Links f x ((f x).next_free) (xs ++ b ∷ ys)
      → Lacks x xs
      → (f' x).next_free ≡ head_or ((f b).next_free) ((f x).next_free) xs
  relinked x [] ys real x_b (_, _, back, _) fresh = ground (arith, nexts x x_b)
  relinked x (z ∷ zs) ys real x_b (_, _, _, rest) (z_x, fresh) =
      let other = prev_like f (λ a. (a == x) ≡ false) z ((f z).next_free) zs b ys rest z_x fresh in
      ground (arith, nexts x x_b, other)

  unlinked :
      (prev p : ℕ) (xs ys : List ℕ)
      → Links f prev p (xs ++ b ∷ ys)
      → Distinct (xs ++ b ∷ ys)
      → Lacks prev (xs ++ b ∷ ys)
      → Links f' prev (head_or ((f b).next_free) p xs) (xs ++ ys)
  unlinked prev p [] ys (at_b, real, back, rest) (fresh, d) (_, lacks) =
      rw back at (after_b ys rest fresh (rw back lacks) d)
  unlinked prev p (x ∷ xs) ys (at_x, real, back, rest) (fresh, d) (_, lacks) =
      let (fresh_xs, b_x, fresh_ys) = All-parts (λ a. (a == x) ≡ false) xs b ys fresh in
      let x_b : (x == b) ≡ false = ground arith in
      let after = next_like f (λ a. (a == x) ≡ false) x ((f x).next_free) xs b ys rest fresh_ys in
      let same_prev : (f' x).prev_free ≡ (f x).prev_free = ground (arith, prevs x x_b, after) in
      (
        at_x,
        real,
        same_prev ∙ back,
        rw (relinked x xs ys real x_b rest fresh_xs)
            (unlinked x ((f x).next_free) xs ys rest d fresh),
      )

-- The free list of the heap is `l`.
abbrev pub IsFreeList : Heap → List ℕ → Type 0
IsFreeList h l = Links h.blocks 0 h.free_list l × Distinct l × Lacks 0 l

module _ (h : Heap) (b : ℕ) (prev_other : ((h.blocks b).prev_free == b) ≡ false)
    (next_other : ((h.blocks b).next_free == b) ≡ false) where
  abbrev removed : Heap
  removed = free_list_remove b h

  removed_next :
      (a : ℕ)
      → (a == b) ≡ false
      → (removed.blocks a).next_free ≡ (
          if (a == (h.blocks b).prev_free) && not ((h.blocks b).prev_free == 0)
          then (h.blocks b).next_free
          else (h.blocks a).next_free)
  unfolding free_list_remove update
  removed_next a e = ground arith

  removed_prev :
      (a : ℕ)
      → (a == b) ≡ false
      → (removed.blocks a).prev_free ≡ (
          if (a == (h.blocks b).next_free) && not ((h.blocks b).next_free == 0)
          then (h.blocks b).prev_free
          else (h.blocks a).prev_free)
  unfolding free_list_remove update
  removed_prev a e = ground arith

  removed_head :
      removed.free_list
      ≡ (if (h.blocks b).prev_free == 0 then (h.blocks b).next_free else h.free_list)
  unfolding free_list_remove update
  removed_head = ground arith

  head_after :
      (xs ys : List ℕ)
      → Links h.blocks 0 h.free_list (xs ++ b ∷ ys)
      → Lacks 0 xs
      → removed.free_list ≡ head_or ((h.blocks b).next_free) h.free_list xs
  head_after [] ys (_, _, back, _) real = ground (arith, removed_head)
  head_after (x ∷ xs) ys (_, _, _, rest) (x_real, real) =
      let other =
        prev_like h.blocks (λ a. (a == 0) ≡ false) x ((h.blocks x).next_free) xs b ys rest x_real
          real in
      ground (arith, removed_head, other)

-- A block taken out of a free list of distinct blocks, wherever it stands, leaves the list of the
-- other blocks in their order, linked both ways.
pub free_list_remove-Links :
    (h : Heap) (xs : List ℕ) (b : ℕ) (ys : List ℕ)
    → IsFreeList h (xs ++ b ∷ ys)
    → Links ((free_list_remove b h).blocks) 0 ((free_list_remove b h).free_list) (xs ++ ys)
free_list_remove-Links h xs b ys (links, distinct, real) =
    let (lacks_xs, lacks_ys) = Distinct-Lacks xs b ys distinct in
    let (real_xs, b_real, _) = All-parts (λ a. (a == 0) ≡ false) xs b ys real in
    let zero_b : (0 == b) ≡ false = ground arith in
    let prev_other : ((h.blocks b).prev_free == b) ≡ false =
      prev_like h.blocks (λ a. (a == b) ≡ false) 0 h.free_list xs b ys links zero_b lacks_xs in
    let after = next_like h.blocks (λ a. (a == b) ≡ false) 0 h.free_list xs b ys links lacks_ys in
    let next_other : ((h.blocks b).next_free == b) ≡ false = ground (arith, after) in
    rw (head_after h b prev_other next_other xs ys links real_xs) (
      unlinked h.blocks ((free_list_remove b h).blocks) b (removed_next h b prev_other next_other)
        (removed_prev h b prev_other next_other) 0 h.free_list xs ys links distinct real)
