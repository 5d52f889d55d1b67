-- ===== src/Mm/Paging/Unmap.antt =====
-- `paging_unmap_page` and `paging_protect_page` of mm/paging.c.
use velox_os.Prelude.{
  ℕ, ◌*◌, ◌^◌, ◌≤◌, ◌<◌, ◌≡◌, refl, sym, ap, ◌∙◌, Bool-cases, inl, inr, Bool, true, false, Option,
  none, some, arith, if◌then◌else◌, ◌==◌,
}
use velox_os.Mm.Paging.{Paging, has, page_present, write, pt_index, ◌>>=◌}
use velox_os.Mm.Paging.Entry.{frame, frame-lt, address}
use velox_os.Mm.Paging.Pages.{
  paging_translate, page_entry, clear_page, change_page, free_empty_tables, paging_map_page,
  paging_unmap_page, paging_protect_page,
}
use velox_os.Mm.Paging.Tree.{table_at, index, place, present_zero}
use velox_os.Mm.Paging.Steps.{IsTree}
use velox_os.Mm.Paging.Steps.Find.{leaf_entry, walk_to_pte-found}
use velox_os.Mm.Paging.Steps.Leaf.{
  page_number, leaf-IsTree, leaf_translation, remapped, small_at, small_page, leaf_place, stored,
  leaf_before,
}
use velox_os.Mm.Paging.Steps.SamePage.{same_page-none}
use velox_os.Mm.Paging.Steps.FreeEmpty.{free_empty_tables-IsFreed}
use velox_os.Mm.Paging.Map.{
  IsPage, translate_lem, entry_frame, entry_present, paging_map_page-MapSpec, mapped,
}

-- Translations after the 4 KiB page of `virt_addr`, with its frame if there is one, is gone.
abbrev pub unmapped : Option ℕ → (s : Paging) (root virt_addr w : ℕ) → Option ℕ
unmapped none s root v w = paging_translate root w s
unmapped (some f) s root v w =
    if page_number w == page_number v then none else paging_translate root w s

abbrev pub UnmapSpec :
    Option ℕ → (s : Paging) (root virt_addr : ℕ) → Option (Option ℕ × Paging) → Type 0
UnmapSpec small s root v r =
    (s' : Paging) × (r ≡ some (small, s'))
    × IsTree s' root
    × (s.pmm.info.free_pages ≤ s'.pmm.info.free_pages)
    × ((w : ℕ) → paging_translate root w s' ≡ unmapped small s root v w)

zero_unmapped :
    (s : Paging) (root v w : ℕ)
    → IsPage root
    → remapped s root v 0 w
      ≡ (if page_number w == page_number v then none else paging_translate root w s)
zero_unmapped s root v w masked = rw (remapped, present_zero, translate_lem s root w masked) refl

module _ (s : Paging) (root v : ℕ) (good : IsTree s root) (masked : IsPage root) where
  clear_found :
      (o : Option ℕ)
      → table_at s.tables root 3 (place 3 v) ≡ o
      → UnmapSpec (small_at s.tables v o) s root v (clear_page root v (leaf_entry v o) s)
  unfolding clear_page leaf_entry small_at index
  clear_found none e = (s, refl, good, omega arith, λ w. refl)
  clear_found (some pt) e = elim (Bool-cases (has (s.tables pt (pt_index v)) page_present)) [
    | inr off ↦ rw off (s, refl, good, omega arith, λ w. refl)
    | inl on ↦
        let cleared : Paging = write pt (index 3 v) 0 s in
        let freed =
          free_empty_tables-IsFreed root v cleared (leaf-IsTree s root v pt 0 good e) masked in
        rw on (
          free_empty_tables root v cleared,
          rw (address (s.tables pt (pt_index v))) refl,
          freed.tree,
          freed.gives,
          λ w.
              translate_lem _ root w masked
              ∙ freed.same w
              ∙ leaf_translation s root v pt 0 good e w
              ∙ zero_unmapped s root v w masked,
        )
  ]

  unmap : UnmapSpec (small_page s root v) s root v (paging_unmap_page root v s)
  unfolding paging_unmap_page
  unmap =
      rw (◌>>=◌, walk_to_pte-found s v root good.top masked)
        (clear_found (table_at s.tables root 3 (place 3 v)) refl)

-- With a tree of tables, an unmap does not panic: it returns the frame of the 4 KiB page at the
-- address, or none if there is no such page. The tables are a tree again, no fewer pages are
-- free, the addresses of that page have no translation, and all others translate as before.
pub paging_unmap_page-UnmapSpec :
    {s : Paging} {root : ℕ}
    → IsTree s root
    → IsPage root
    → (virt_addr : ℕ)
    → UnmapSpec (small_page s root virt_addr) s root virt_addr (paging_unmap_page root virt_addr s)
paging_unmap_page-UnmapSpec {s} {root} good masked v = unmap s root v good masked

abbrev pub is_small : Option ℕ → Bool
is_small none = false
is_small (some f) = true

-- What a protect promises, with the flags that the entry of the 4 KiB page has then.
abbrev pub ProtectSpec :
    Option ℕ → (s : Paging) (root virt_addr flags : ℕ) → Option (Bool × Paging) → Type 0
ProtectSpec small s root v flags r =
    (s' : Paging) × (r ≡ some (is_small small, s'))
    × IsTree s' root
    × (s'.pmm ≡ s.pmm)
    × ((w : ℕ) → paging_translate root w s' ≡ paging_translate root w s)
    × ((f : ℕ)
        → small ≡ some f
        → (pt : ℕ) × (table_at s'.tables root 3 (place 3 v) ≡ some pt)
          × (s'.tables pt (index 3 v) ≡ page_entry s.nx_enabled f flags))

module _ (s : Paging) (root v flags : ℕ) (good : IsTree s root) (masked : IsPage root) where
  protected_same :
      (pt : ℕ)
      → table_at s.tables root 3 (place 3 v) ≡ some pt
      → has (s.tables pt (index 3 v)) page_present ≡ true
      → (w : ℕ)
      → paging_translate root w (
          write pt
            (index 3 v)
            (page_entry s.nx_enabled (frame (s.tables pt (index 3 v)) * 4096) flags)
            s)
        ≡ paging_translate root w s
  protected_same pt e on w =
      let f = frame (s.tables pt (index 3 v)) in
      let f_lt = frame-lt (s.tables pt (index 3 v)) in
      let entry = page_entry s.nx_enabled (f * 4096) flags in
      translate_lem _ root w masked
      ∙ leaf_translation s root v pt entry good e w
      ∙ elim (Bool-cases (page_number w == page_number v)) [
        | inr off ↦ rw (remapped, off) (sym (translate_lem s root w masked))
        | inl same ↦
            rw
              (
                remapped,
                same,
                entry_present s.nx_enabled f flags f_lt,
                entry_frame s.nx_enabled f flags f_lt,
              )
              (sym (
                translate_lem s root w masked
                ∙ leaf_before s root v pt entry good e w same
                ∙ rw on refl))
      ]

  change_found :
      (o : Option ℕ)
      → table_at s.tables root 3 (place 3 v) ≡ o
      → ProtectSpec (small_at s.tables v o) s root v flags (change_page flags (leaf_entry v o) s)
  unfolding change_page leaf_entry small_at index
  change_found none e = (s, refl, good, refl, λ w. refl, λ f h. ground arith)
  change_found (some pt) e = elim (Bool-cases (has (s.tables pt (pt_index v)) page_present)) [
    | inr off ↦ rw off (s, refl, good, refl, λ w. refl, λ f h. ground arith)
    | inl on ↦
        let f = frame (s.tables pt (pt_index v)) in
        let entry = page_entry s.nx_enabled (f * 4096) flags in
        rw on (
          write pt (index 3 v) entry s,
          rw (address (s.tables pt (pt_index v))) refl,
          leaf-IsTree s root v pt entry good e,
          refl,
          protected_same pt e on,
          λ g h.
              let same : f * 4096 ≡ g = ground arith in
              (
                pt,
                leaf_place s root v pt entry good e 3 (place 3 v) (omega arith) ∙ e,
                stored s root v pt entry good e v refl
                    ∙ ap (λ x. page_entry s.nx_enabled x flags) same,
              ),
        )
  ]

  protect : ProtectSpec (small_page s root v) s root v flags (paging_protect_page root v flags s)
  unfolding paging_protect_page
  protect =
      rw (◌>>=◌, walk_to_pte-found s v root good.top masked)
        (change_found (table_at s.tables root 3 (place 3 v)) refl)

-- With a tree of tables, a protect does not panic: it returns whether there is a 4 KiB page at the
-- address. The tables are a tree again, the page allocator is as before, and so is every
-- translation; the entry of such a page has its frame and the new flags.
pub paging_protect_page-ProtectSpec :
    {s : Paging} {root : ℕ}
    → IsTree s root
    → IsPage root
    → (virt_addr flags : ℕ)
    → ProtectSpec
        (small_page s root virt_addr)
        s
        root
        virt_addr
        flags
        (paging_protect_page root virt_addr flags s)
paging_protect_page-ProtectSpec {s} {root} good masked v flags = protect s root v flags good masked

same_page_unmapped :
    (s : Paging) (root v w : ℕ)
    → page_number w ≡ page_number v
    → paging_translate root v s ≡ none
    → paging_translate root w s ≡ none
unfolding paging_translate
same_page_unmapped s root v w same e = same_page-none s.tables v w same root e

-- With a tree of tables, an unmap after a map that succeeded returns the frame that was mapped,
-- and every address translates as before the map.
pub unmap-map :
    {s s' : Paging} {root : ℕ}
    → IsTree s root
    → IsPage root
    → (virt_addr phys_addr flags : ℕ) → phys_addr < 2 ^ 52
    → paging_map_page root virt_addr phys_addr flags s ≡ some (true, s')
    → (s'' : Paging) × (paging_unmap_page root virt_addr s' ≡ some (some phys_addr, s''))
      × ((w : ℕ) → paging_translate root w s'' ≡ paging_translate root w s)
unmap-map {s} {s'} {root} good masked v p flags p_lt e =
    let (tree, _, was_unmapped, _, small, maps) =
      rw e at (paging_map_page-MapSpec good masked v p flags p_lt) in
    let (s'', result, _, _, gone) = rw small at (paging_unmap_page-UnmapSpec tree masked v) in
    (
      s'',
      result,
      λ w. gone w ∙ elim (Bool-cases (page_number w == page_number v)) [
        | inr off ↦ rw (off, maps w, mapped, off) refl
        | inl same ↦ rw same (sym (same_page_unmapped s root v w (ground arith) was_unmapped))
      ],
    )
