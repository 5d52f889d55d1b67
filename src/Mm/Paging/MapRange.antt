-- ===== src/Mm/Paging/MapRange.antt =====
-- `paging_map_range` of mm/paging.c.
use velox_os.Prelude.{
  ℕ, zero, suc, ◌+◌, ◌*◌, ◌/◌, ◌%◌, ◌^◌, ◌≤◌, ◌<◌, ◌≡◌, refl, sym, ap, ◌∙◌, Bool, true, false, ◌||◌,
  Option, none, some, arith, if◌then◌else◌, ◌==◌, ltb,
}
use velox_os.Prelude.Words.{u64, sub_u64, u64_max, align_up, align_up_page}
use velox_os.Mm.Paging.{Paging, ◌>>=◌}
use velox_os.Mm.Paging.Pages.{
  paging_translate, paging_map_page, if_mapped, map_range_loop, paging_map_range,
}
use velox_os.Mm.Paging.Steps.{IsTree}
use velox_os.Mm.Paging.Steps.Leaf.{page_number}
use velox_os.Mm.Paging.Map.{IsPage, MapSpec, paging_map_page-MapSpec, mapped}

-- Translations after the first `n` pages from `virt_addr` on are given the frames from
-- `phys_addr` on.
unfoldable pub range_mapped : (n : ℕ) (s : Paging) (root virt_addr phys_addr w : ℕ) → Option ℕ
range_mapped zero s root v p w = paging_translate root w s
range_mapped (suc n) s root v p w =
    if page_number w == page_number (v + n * 4096)
    then some (p + n * 4096 + w % 4096)
    else range_mapped n s root v p w

range_mapped-suc :
    (n : ℕ) (s : Paging) (root v p w : ℕ)
    → range_mapped (n + 1) s root v p w ≡ (
        if page_number w == page_number (v + n * 4096)
        then some (p + n * 4096 + w % 4096)
        else range_mapped n s root v p w)
unfolding range_mapped
range_mapped-suc n s root v p w =
    let next : n + 1 ≡ suc n = omega arith in ap (λ k. range_mapped k s root v p w) next

-- What mapping `pages` pages promises: the first `n` of them are mapped, all if the result is true.
abbrev pub RangeSpec :
    (s : Paging) (root virt_addr phys_addr pages : ℕ) → Option (Bool × Paging) → Type 0
RangeSpec s root v p pages none = s.pmm.info.free_pages < 3 * pages
RangeSpec s root v p pages (some (ok, s')) =
    (n : ℕ) × (n ≤ pages)
    × (ok ≡ (n == pages))
    × IsTree s' root
    × ((w : ℕ) → paging_translate root w s' ≡ range_mapped n s root v p w)

module _ (s : Paging) (root v p flags pages : ℕ) (masked : IsPage root)
    (v_room : v + pages * 4096 < 2 ^ 64 + 4096) (p_room : p + pages * 4096 ≤ 2 ^ 52) where
  -- After `n` pages.
  abbrev IsSoFar : ℕ → Paging → Type 0
  IsSoFar n s' =
      IsTree s' root
      × (s.pmm.info.free_pages ≤ s'.pmm.info.free_pages + 3 * n)
      × ((w : ℕ) → paging_translate root w s' ≡ range_mapped n s root v p w)

  loop_lem :
      (rounds n : ℕ) (s' : Paging)
      → rounds + n ≡ pages
      → IsSoFar n s'
      → RangeSpec s root v p pages (map_range_loop rounds (n * 4096) root v p flags s')
  unfolding map_range_loop
  loop_lem zero n s' e (tree, cost, maps) = (n, omega arith, ground arith, tree, maps)
  loop_lem (suc rounds) n s' e (tree, cost, maps) =
      rw (at_virt, at_phys, ◌>>=◌)
        (after (loop_lem rounds (n + 1))
          (paging_map_page root (v + n * 4096) (p + n * 4096) flags s')
          (paging_map_page-MapSpec tree masked (v + n * 4096) (p + n * 4096) flags (omega arith)))
    where
      at_virt : u64 (v + n * 4096) ≡ v + n * 4096
      at_virt = omega arith

      at_phys : u64 (p + n * 4096) ≡ p + n * 4096
      at_phys = omega arith

      next : n * 4096 + 4096 ≡ (n + 1) * 4096
      next = omega arith

      mapped_next :
          (s'' : Paging)
          → ((w : ℕ) → paging_translate root w s'' ≡ mapped s' root (v + n * 4096) (p + n * 4096) w)
          → (w : ℕ) → paging_translate root w s'' ≡ range_mapped (n + 1) s root v p w
      mapped_next s'' h w = h w ∙ sym (range_mapped-suc n s root v p w ∙ rw (maps w) refl)

      after :
          ((s'' : Paging)
            → rounds + (n + 1) ≡ pages
            → IsSoFar (n + 1) s''
            → RangeSpec s root v p pages
                (map_range_loop rounds ((n + 1) * 4096) root v p flags s''))
          → (r : Option (Bool × Paging)) → MapSpec s' root (v + n * 4096) (p + n * 4096) flags r
          → RangeSpec s root v p pages (elim r [
            | none ↦ none
            | some (ok, s'') ↦
                if_mapped (map_range_loop rounds (n * 4096 + 4096) root v p flags) ok s''
          ])
      after go_on none h = omega (arith, cost)
      after go_on (some (true, s'')) (tree'', _, _, cost'', _, maps'') =
          rw next
            (go_on s'' (omega arith) (tree'', omega (arith, cost, cost''), mapped_next s'' maps''))
      after go_on (some (false, s'')) (same, _) = rw same (n, omega arith, ground arith, tree, maps)

-- With a tree of tables, mapping a range of some bytes that fits into the address spaces panics only
-- if fewer than three pages for each of its pages are free. Otherwise the tables are a tree again
-- and the first `n` pages are mapped in order, each to its frame, with every other translation as
-- before; the result is true if and only if they are all mapped.
pub paging_map_range-RangeSpec :
    {s : Paging} {root : ℕ}
    → IsTree s root
    → IsPage root
    → (virt_addr phys_addr size flags : ℕ) → 1 ≤ size
    → virt_addr + size < 2 ^ 64
    → phys_addr + size + 4095 ≤ 2 ^ 52
    → RangeSpec s root virt_addr phys_addr
        ((size + 4095) / 4096)
        (paging_map_range root virt_addr phys_addr size flags s)
unfolding paging_map_range range_mapped paging_translate
paging_map_range-RangeSpec {s} {root} good masked v p size flags some_bytes v_room p_room =
    rw (go, aligned, pages)
      (loop_lem s root v p flags ((size + 4095) / 4096) masked (omega arith) (omega arith)
        ((size + 4095) / 4096) 0 s (omega arith) (good, omega arith, λ w. refl))
  where
    aligned : align_up size 4096 ≡ (size + 4095) / 4096 * 4096
    aligned = omega (arith, align_up_page size (omega arith))

    pages : (size + 4095) / 4096 * 4096 / 4096 ≡ (size + 4095) / 4096
    pages = omega arith

    go :
        (size == 0
          || (ltb (sub_u64 u64_max size) v || ltb (sub_u64 u64_max size) p)
          || ltb (align_up size 4096) size)
        ≡ false
    go = ground (arith, aligned)
