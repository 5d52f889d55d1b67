-- ===== src/Mm/Ranges/Carve.antt =====
-- The search of `vmalloc` in mm/vmalloc.c: first fit.
use velox_os.Prelude.{
  ℕ, ◌+◌, ◌%◌, ◌^◌, ◌≤◌, ◌<◌, ◌≡◌, true, false, not, ◌&&◌, List, [], ◌∷◌, arith, ltb, Bool-cases,
  inl, inr, length, Option, some, none, if◌then◌else◌, ◌==◌, All,
}
use velox_os.Prelude.Words.{u64, sub_u64}
use velox_os.Mm.Ranges.{VmallocRange, carve}
use velox_os.Mm.Ranges.Order.{
  in_span, holds, IsPages, Gapped, Gapped-lower, Gapped-Sorted, holds_below,
}

-- What it is to take `n` bytes out of a list of ranges.
pub record Carves (lo hi n : ℕ) (l : List VmallocRange) (addr : ℕ) (l' : List VmallocRange)
    : Type 0 where
  pub above : lo ≤ addr
  pub taken : IsPages hi (record { start = addr; size = n })
  pub gapped : Gapped lo hi l'
  pub no_longer : length l' ≤ length l
  pub had : (a : ℕ) → in_span addr n a ≡ true → holds l a ≡ true
  pub left : (a : ℕ) → holds l' a ≡ (holds l a && not (in_span addr n a))

abbrev pub CarveSpec : (lo hi n : ℕ) → List VmallocRange → Option (ℕ × List VmallocRange) → Type 0
CarveSpec lo hi n l none = All (λ x. x.size < n) l
CarveSpec lo hi n l (some (addr, l')) = Carves lo hi n l addr l'

module _ (hi n : ℕ) (top : hi < 2 ^ 64) (pos : 0 < n) (pages : n % 4096 ≡ 0) where
  carve_here :
      (lo : ℕ) (x : VmallocRange) (xs : List VmallocRange)
      → Gapped lo hi (x ∷ xs)
      → n ≤ x.size
      → Carves lo hi n (x ∷ xs) x.start (
          if sub_u64 x.size n == 0
          then xs
          else record { start = u64 (x.start + n); size = sub_u64 x.size n } ∷ xs)
  carve_here lo x xs g fits = elim (Bool-cases (sub_u64 x.size n == 0)) [
    | inl whole ↦ rw whole (record {
      above = g.0;
      taken = ground (arith, g.1);
      gapped = Gapped-lower (x.start + x.size + 1) lo hi xs (omega arith) g.2;
      no_longer = omega arith;
      had = λ a h. ground (arith, g.1);
      left = λ a. ground (arith, g.1, nothing_below a);
    })
    | inr partly ↦ rw partly (record {
      above = g.0;
      taken = ground (arith, g.1);
      gapped = (ground (arith, g.1), ground (arith, g.1), rw rest_end g.2);
      no_longer = omega arith;
      had = λ a h. ground (arith, g.1);
      left = λ a. ground (arith, g.1, nothing_below a);
    })
  ]
    where
      rest_end : u64 (x.start + n) + sub_u64 x.size n + 1 ≡ x.start + x.size + 1
      rest_end = ground (arith, g.1)

      nothing_below : (a : ℕ) → a < x.start + x.size + 1 → holds xs a ≡ false
      nothing_below a =
          holds_below (x.start + x.size + 1) hi a xs
            (Gapped-Sorted (x.start + x.size + 1) hi xs g.2)

  carve_later :
      (lo : ℕ) (x : VmallocRange) (xs : List VmallocRange) (r : Option (ℕ × List VmallocRange))
      → Gapped lo hi (x ∷ xs)
      → x.size < n
      → CarveSpec (x.start + x.size + 1) hi n xs r
      → CarveSpec lo hi n
          (x ∷ xs)
          (elim r [ none ↦ none | some (addr, xs') ↦ some (addr, x ∷ xs') ])
  carve_later lo x xs none g small h = (small, h)
  carve_later lo x xs (some (addr, xs')) g small h = record {
    above = omega (arith, h.above, g.0);
    taken = h.taken;
    gapped = (g.0, g.1, h.gapped);
    no_longer = omega (arith, h.no_longer);
    had = λ a i. ground (arith, h.had a);
    left = λ a. ground (arith, h.left a, h.above);
  }

  -- From a gapped list, first fit takes `n` bytes, some whole pages, that were free, leaves a gapped list of everything else, and makes
  -- the list no longer; it finds nothing only if every range is too small.
  pub carve-CarveSpec :
      (lo : ℕ) (l : List VmallocRange) → Gapped lo hi l → CarveSpec lo hi n l (carve n l)
  unfolding carve
  carve-CarveSpec lo [] g = tt
  carve-CarveSpec lo (x ∷ xs) g = elim (Bool-cases (ltb x.size n)) [
    | inl small ↦ rw small (
        carve_later lo x xs (carve n xs) g (ground arith)
          (carve-CarveSpec (x.start + x.size + 1) xs g.2))
    | inr fits ↦ rw fits (carve_here lo x xs g (ground arith))
  ]
