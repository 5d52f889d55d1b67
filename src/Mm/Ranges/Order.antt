-- ===== src/Mm/Ranges/Order.antt =====
-- What a free list stands for, and the two orders in which its ranges can stand.
use velox_os.Prelude.{
  ℕ, ◌+◌, ◌%◌, ◌≤◌, ◌<◌, ◌≡◌, refl, Bool, false, ◌&&◌, ◌||◌, List, [], ◌∷◌, arith, ltb, leb,
}
use velox_os.Mm.Ranges.{VmallocRange}

-- The address lies in one range, or in some range of a list.
abbrev pub in_span : (start size a : ℕ) → Bool
in_span start size a = leb start a && ltb a (start + size)

abbrev pub holds : List VmallocRange → ℕ → Bool
holds [] a = false
holds (x ∷ xs) a = in_span x.start x.size a || holds xs a

-- Some whole pages below `hi`.
pub record IsPages (hi : ℕ) (x : VmallocRange) : Type 0 where
  pub some_size : 0 < x.size
  pub ends : x.start + x.size ≤ hi
  pub start_aligned : x.start % 4096 ≡ 0
  pub size_aligned : x.size % 4096 ≡ 0

-- Ranges in the order of their starts; they may meet or overlap.
abbrev pub Sorted : (lo hi : ℕ) → List VmallocRange → Type 0
Sorted lo hi [] = Unit {0}
Sorted lo hi (x ∷ xs) = (lo ≤ x.start) × IsPages hi x × Sorted x.start hi xs

-- Ranges with a gap between any two.
abbrev pub Gapped : (lo hi : ℕ) → List VmallocRange → Type 0
Gapped lo hi [] = Unit {0}
Gapped lo hi (x ∷ xs) = (lo ≤ x.start) × IsPages hi x × Gapped (x.start + x.size + 1) hi xs

pub Gapped-lower :
    (lo lo' hi : ℕ) (l : List VmallocRange) → lo' ≤ lo → Gapped lo hi l → Gapped lo' hi l
Gapped-lower lo lo' hi [] h g = tt
Gapped-lower lo lo' hi (x ∷ xs) h g = (omega arith, g.1, g.2)

pub Gapped-Sorted : (lo hi : ℕ) (l : List VmallocRange) → Gapped lo hi l → Sorted lo hi l
Gapped-Sorted lo hi [] g = tt
Gapped-Sorted lo hi (x ∷ xs) g =
    (g.0, g.1, Gapped-Sorted x.start hi xs (Gapped-lower _ x.start hi xs (omega arith) g.2))

-- Nothing below the first range is held.
pub holds_below :
    (lo hi a : ℕ) (l : List VmallocRange) → Sorted lo hi l → a < lo → holds l a ≡ false
holds_below lo hi a [] s h = refl
holds_below lo hi a (x ∷ xs) s h = ground (arith, holds_below x.start hi a xs s.2)
