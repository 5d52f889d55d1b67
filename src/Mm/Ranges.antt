-- ===== src/Mm/Ranges.antt =====
-- The free list of mm/vmalloc.c: `g_vmalloc_free[0 .. g_vmalloc_free_count)` is a list.
pub mod Order
pub mod Coalesce
pub mod Carve
use velox_os.Prelude.{
  ℕ, ◌+◌, ◌-◌, Bool, true, false, ◌&&◌, ◌||◌, Option, none, some, List, [], ◌∷◌, ltb, leb, ◌==◌,
  if◌then◌else◌, length,
}
use velox_os.Prelude.Words.{u64, sub_u64, u64_max}

abbrev pub vmalloc_max_ranges : ℕ
vmalloc_max_ranges = 128

-- `vmalloc_range_t`
pub record VmallocRange : Type 0 where
  pub start : ℕ
  pub size : ℕ

unfoldable pub range_end : ℕ → ℕ → ℕ
range_end start size = let end = u64 (start + size) in if ltb end start then u64_max else end

-- The first two loops of `vmalloc_free_range`: the new range goes before the first that does not
-- start below it, and the ranges behind it move up.
unfoldable pub insert_range : VmallocRange → List VmallocRange → List VmallocRange
insert_range r [] = r ∷ []
insert_range r (x ∷ xs) = if ltb x.start r.start then x ∷ insert_range r xs else r ∷ x ∷ xs

-- Two neighbours that meet or overlap, as one.
unfoldable pub join : VmallocRange → VmallocRange → VmallocRange
join a b =
    let a_end = range_end a.start a.size in
    let b_end = range_end b.start b.size in
    record a { size = sub_u64 (if ltb b_end a_end then a_end else b_end) a.start }

-- The last loop of `vmalloc_free_range`, with `a` at index `i` and the list behind it.
unfoldable pub coalesce_from : VmallocRange → List VmallocRange → List VmallocRange
unfolding join range_end
coalesce_from a [] = a ∷ []
coalesce_from a (b ∷ rest) = elim (leb b.start (range_end a.start a.size)) [
  | true ↦ coalesce_from (join a b) rest
  | false ↦ a ∷ coalesce_from b rest
]

unfoldable pub coalesce : List VmallocRange → List VmallocRange
unfolding coalesce_from
coalesce [] = []
coalesce (a ∷ rest) = coalesce_from a rest

-- `none` is the panic "free list overflow".
unfoldable pub vmalloc_free_range : ℕ → ℕ → List VmallocRange → Option (List VmallocRange)
vmalloc_free_range start size l =
    if size == 0
    then some l
    else if leb vmalloc_max_ranges (length l)
    then none
    else some (coalesce (insert_range (record { start = start; size = size }) l))

-- The search of `vmalloc`: the first range that is large enough gives up its first bytes, and goes
-- when nothing is left of it. `none`: there is no such range.
unfoldable pub carve : ℕ → List VmallocRange → Option (ℕ × List VmallocRange)
carve aligned [] = none
carve aligned (x ∷ xs) =
    let later = carve aligned xs in
    if ltb x.size aligned
    then elim later [ none ↦ none | some (addr, xs') ↦ some (addr, x ∷ xs') ]
    else some (
      x.start,
      if sub_u64 x.size aligned == 0
          then xs
          else record { start = u64 (x.start + aligned); size = sub_u64 x.size aligned } ∷ xs,
    )
