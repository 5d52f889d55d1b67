-- ===== src/Mm/Paging/Steps/Find.antt =====
-- `walk_to_pte` of mm/paging.c without `create`: it changes nothing.
use velox_os.Prelude.{
  ℕ, ◌≡◌, refl, sym, ap, ◌∙◌, Bool-cases, inl, inr, true, false, Option, none, some, arith, bit_and,
}
use velox_os.Mm.Paging.{
  Paging, ◌>>=◌, has, page_present, page_ps, pd_index, pdpt_index, pml4_index, pt_index, walk_pd,
  walk_pdpt, walk_to_pte, entry_addr_mask_4k,
}
use velox_os.Mm.Paging.Pages.{ends}
use velox_os.Mm.Paging.Tree.{child, below, table_at, table_at-place, index, place}
use velox_os.Mm.Paging.Tree.Same.{IsTop}

-- The entry for `v` in a page table, if there is one.
unfoldable pub leaf_entry : (v : ℕ) → Option ℕ → Option (ℕ × ℕ)
leaf_entry v none = none
leaf_entry v (some pt) = some (pt, pt_index v)

-- How an entry goes on: it ends the walk, or it leads to a table.
pub data Leads (e : ℕ) : Type 0 where
  huge : has e page_ps ≡ true → child e ≡ none → Leads e
  absent : has e page_ps ≡ false → has e page_present ≡ false → child e ≡ none → Leads e
  table :
      has e page_ps ≡ false
      → has e page_present ≡ true
      → child e ≡ some (bit_and e entry_addr_mask_4k)
      → Leads e

leads : (e : ℕ) → Leads e
unfolding child ends
leads e = elim (Bool-cases (has e page_ps)) [
  | inl h ↦ huge h (ground arith)
  | inr h ↦ elim (Bool-cases (has e page_present)) [
    | inl on ↦ table h on (ground arith)
    | inr off ↦ absent h off (ground arith)
  ]
]

module _ (s : Paging) (v : ℕ) where
  find_pd :
      (pd : ℕ)
      → walk_pd pd v false false s ≡ some (leaf_entry v (below s.tables (pd_index v) (some pd)), s)
  unfolding walk_pd leaf_entry below
  find_pd pd = elim (leads (s.tables pd (pd_index v))) [
    | huge h none_here ↦ rw (h, none_here) refl
    | absent h off none_here ↦ rw (h, off, none_here) refl
    | table h on leads_to ↦ rw (h, on, leads_to, ◌>>=◌) refl
  ]

  find_pdpt :
      (pdpt : ℕ)
      → walk_pdpt pdpt v false false s
        ≡ some (
          leaf_entry v (below s.tables (pd_index v) (below s.tables (pdpt_index v) (some pdpt))),
          s,
        )
  unfolding walk_pdpt leaf_entry below
  find_pdpt pdpt = elim (leads (s.tables pdpt (pdpt_index v))) [
    | huge h none_here ↦ rw (h, none_here) refl
    | absent h off none_here ↦ rw (h, off, none_here) refl
    | table h on leads_to ↦
        rw (h, on, leads_to, ◌>>=◌)
          (find_pd (bit_and (s.tables pdpt (pdpt_index v)) entry_addr_mask_4k))
  ]

  find_root :
      (root : ℕ)
      → IsTop s.tables root
      → bit_and root entry_addr_mask_4k ≡ root
      → walk_to_pte root v false false s
        ≡ some (
          leaf_entry v (
              below s.tables
                (pd_index v)
                (below s.tables (pdpt_index v) (below s.tables (pml4_index v) (some root)))),
          s,
        )
  unfolding walk_to_pte leaf_entry below
  find_root root top masked = elim (leads (s.tables root (pml4_index v))) [
    | huge h none_here ↦
        let off : has (s.tables root (pml4_index v)) page_present ≡ false =
          ground (arith, top (pml4_index v)) in
        rw (masked, off, none_here) refl
    | absent h off none_here ↦ rw (masked, off, none_here) refl
    | table h on leads_to ↦
        rw (masked, on, leads_to, ◌>>=◌, h)
          (find_pdpt (bit_and (s.tables root (pml4_index v)) entry_addr_mask_4k))
  ]

  steps :
      (root : ℕ)
      → table_at s.tables root 3 (place 3 v)
        ≡ below s.tables
            (pd_index v)
            (below s.tables (pdpt_index v) (below s.tables (pml4_index v) (some root)))
  unfolding index table_at place
  steps root =
      table_at-place s.tables root 2 v
      ∙ ap (below s.tables (pd_index v)) (
          table_at-place s.tables root 1 v
          ∙ ap (below s.tables (pdpt_index v)) (table_at-place s.tables root 0 v))

  -- The walk finds the entry in the page table at the place of the address.
  pub walk_to_pte-found :
      (root : ℕ)
      → IsTop s.tables root
      → bit_and root entry_addr_mask_4k ≡ root
      → walk_to_pte root v false false s
        ≡ some (leaf_entry v (table_at s.tables root 3 (place 3 v)), s)
  walk_to_pte-found root top masked =
      find_root root top masked ∙ sym (ap (λ o. some (leaf_entry v o, s)) (steps root))
