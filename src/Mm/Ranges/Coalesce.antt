-- ===== src/Mm/Ranges/Coalesce.antt =====
-- `vmalloc_free_range` of mm/vmalloc.c: the insertion and the merging of neighbours.
use velox_os.Prelude.{
  ℕ, ◌+◌, ◌^◌, ◌≤◌, ◌<◌, ◌≡◌, refl, ◌∙◌, ◌||◌, List, [], ◌∷◌, arith, ltb, leb, Bool-cases, inl, inr,
  length, some,
}
use velox_os.Mm.Ranges.{
  VmallocRange, range_end, insert_range, join, coalesce_from, coalesce, vmalloc_free_range,
  vmalloc_max_ranges,
}
use velox_os.Mm.Ranges.Order.{in_span, holds, IsPages, Sorted, Gapped, Gapped-Sorted}

module _ (hi : ℕ) (top : hi < 2 ^ 64) where
  range_end_lem : (x : VmallocRange) → IsPages hi x → range_end x.start x.size ≡ x.start + x.size
  unfolding range_end
  range_end_lem x p = ground arith

  insert_range-Sorted :
      (lo : ℕ) (r : VmallocRange) (l : List VmallocRange)
      → lo ≤ r.start
      → IsPages hi r
      → Sorted lo hi l
      → Sorted lo hi (insert_range r l)
  unfolding insert_range
  insert_range-Sorted lo r [] h p s = (h, p, tt)
  insert_range-Sorted lo r (x ∷ xs) h p s = elim (Bool-cases (ltb x.start r.start)) [
    | inl below ↦ rw below (s.0, s.1, insert_range-Sorted x.start r xs (ground arith) p s.2)
    | inr here ↦ rw here (h, p, (ground arith, s.1, s.2))
  ]

  holds-insert_range :
      (r : VmallocRange) (l : List VmallocRange) (a : ℕ)
      → holds (insert_range r l) a ≡ (holds l a || in_span r.start r.size a)
  unfolding insert_range
  holds-insert_range r [] a = ground arith
  holds-insert_range r (x ∷ xs) a = ground (arith, holds-insert_range r xs a)

  Sorted-lower : (lo lo' : ℕ) (l : List VmallocRange) → lo' ≤ lo → Sorted lo hi l → Sorted lo' hi l
  Sorted-lower lo lo' [] h s = tt
  Sorted-lower lo lo' (x ∷ xs) h s = (omega arith, s.1, s.2)

  join_lem :
      (a b : VmallocRange)
      → IsPages hi a
      → IsPages hi b
      → a.start ≤ b.start
      → b.start ≤ a.start + a.size
      → IsPages hi (join a b)
        × ((c : ℕ)
            → in_span (join a b).start (join a b).size c
              ≡ (in_span a.start a.size c || in_span b.start b.size c))
        × (a.start + a.size ≤ (join a b).start + (join a b).size)
        × (b.start + b.size ≤ (join a b).start + (join a b).size)
  unfolding join
  join_lem a b p q h k = (
    ground (arith, range_end_lem a p, range_end_lem b q),
    λ c. ground (arith, range_end_lem a p, range_end_lem b q),
    ground (arith, range_end_lem a p, range_end_lem b q),
    ground (arith, range_end_lem a p, range_end_lem b q),
  )

  coalesce_from-Gapped :
      (lo : ℕ) (a : VmallocRange) (l : List VmallocRange)
      → lo ≤ a.start
      → IsPages hi a
      → Sorted a.start hi l
      → Gapped lo hi (coalesce_from a l)
  unfolding coalesce_from
  coalesce_from-Gapped lo a [] h p s = (h, p, tt)
  coalesce_from-Gapped lo a (b ∷ rest) h p s =
      elim (Bool-cases (leb b.start (range_end a.start a.size))) [
        | inl meet ↦
            let j = join_lem a b p s.1 s.0 (ground (arith, range_end_lem a p)) in
            rw (meet, coalesce_from)
              (coalesce_from-Gapped lo (join a b) rest h j.0
                (Sorted-lower b.start a.start rest s.0 s.2))
        | inr apart ↦
            rw (apart, coalesce_from)
              (
                h,
                p,
                coalesce_from-Gapped (a.start + a.size + 1) b rest
                    (ground (arith, range_end_lem a p)) s.1 s.2,
              )
      ]

  holds-coalesce_from :
      (a : VmallocRange) (l : List VmallocRange) (c : ℕ)
      → IsPages hi a
      → Sorted a.start hi l
      → holds (coalesce_from a l) c ≡ (in_span a.start a.size c || holds l c)
  unfolding coalesce_from
  holds-coalesce_from a [] c p s = refl
  holds-coalesce_from a (b ∷ rest) c p s =
      elim (Bool-cases (leb b.start (range_end a.start a.size))) [
        | inl meet ↦
            let j = join_lem a b p s.1 s.0 (ground (arith, range_end_lem a p)) in
            rw (meet, coalesce_from)
              (ground (
                arith,
                holds-coalesce_from (join a b) rest c j.0
                    (Sorted-lower b.start a.start rest s.0 s.2),
                j.1 c,
              ))
        | inr apart ↦
            rw (apart, coalesce_from) (ground (arith, holds-coalesce_from b rest c s.1 s.2))
      ]

  coalesce-Gapped : (lo : ℕ) (l : List VmallocRange) → Sorted lo hi l → Gapped lo hi (coalesce l)
  unfolding coalesce
  coalesce-Gapped lo [] s = tt
  coalesce-Gapped lo (a ∷ rest) s = coalesce_from-Gapped lo a rest s.0 s.1 s.2

  holds-coalesce :
      (lo : ℕ) (l : List VmallocRange) (c : ℕ) → Sorted lo hi l → holds (coalesce l) c ≡ holds l c
  unfolding coalesce
  holds-coalesce lo [] c s = refl
  holds-coalesce lo (a ∷ rest) c s = holds-coalesce_from a rest c s.1 s.2

  -- A gapped list with room for one more range takes some whole pages: the new list is gapped
  -- again, holds what the old one held and the pages, and nothing else. The pages may meet or
  -- overlap what the list holds.
  pub vmalloc_free_range_lem :
      (lo start size : ℕ) (l : List VmallocRange)
      → lo ≤ start
      → IsPages hi (record { start = start; size = size })
      → Gapped lo hi l
      → length l < vmalloc_max_ranges
      → (l' : List VmallocRange) × (vmalloc_free_range start size l ≡ some l')
        × Gapped lo hi l'
        × ((a : ℕ) → holds l' a ≡ (holds l a || in_span start size a))
  unfolding vmalloc_free_range
  vmalloc_free_range_lem lo start size l h p g room =
      let r : VmallocRange = record { start = start; size = size } in
      let s = insert_range-Sorted lo r l h p (Gapped-Sorted lo hi l g) in
      (
        coalesce (insert_range r l),
        ground arith,
        coalesce-Gapped lo _ s,
        λ a. holds-coalesce lo _ a s ∙ holds-insert_range r l a,
      )
