-- ===== src/Mm/Paging/Map.antt =====
-- `paging_map_page` of mm/paging.c.
use velox_os.Prelude.{
  ℕ, ◌+◌, ◌*◌, ◌/◌, ◌%◌, ◌^◌, ◌≤◌, ◌<◌, ◌≡◌, refl, sym, ◌∙◌, Bool-cases, inl, inr, Bool, true,
  false, not, ◌&&◌, ◌||◌, Option, none, some, arith, if◌then◌else◌, ◌==◌, bit_and, bit_or,
}
use velox_os.Prelude.Bits.{bit_and-low, bit_or-aligned}
use velox_os.Mm.Paging.{
  Paging, has, page_present, entry_addr_mask_4k, translate_with_cr3, walk_to_pte, write,
}
use velox_os.Mm.Paging.Entry.{frame, page_entry_lem, address, is_present}
use velox_os.Mm.Paging.Pages.{paging_translate, page_entry, set_page, map_unmapped, paging_map_page}
use velox_os.Mm.Paging.Tree.{table_at, index, place, translate_at}
use velox_os.Mm.Paging.Steps.{IsTree, IsQuiet}
use velox_os.Mm.Paging.Steps.Get.{MayMake}
use velox_os.Mm.Paging.Steps.Walk.{Found, walk_to_pte_lem}
use velox_os.Mm.Paging.Steps.Leaf.{
  page_number, leaf-IsTree, leaf_translation, small_page, leaf-small_page,
}

-- The address of a page below 2^52, which a root is.
abbrev pub IsPage : ℕ → Type 0
IsPage root = bit_and root entry_addr_mask_4k ≡ root

pub translate_lem :
    (s : Paging) (root v : ℕ)
    → IsPage root
    → paging_translate root v s ≡ translate_at 0 s.tables root v
unfolding paging_translate translate_with_cr3 translate_at
translate_lem s root v masked = rw masked refl

-- The request is one that the operation takes.
abbrev pub accepts : (virt_addr phys_addr flags : ℕ) → Bool
accepts v p flags =
    (v % 4096 == 0) && (p % 4096 == 0) && not (has flags (2 ^ 3) && has flags (2 ^ 1))

-- Translations after `virt_addr` is given the page `phys_addr`.
abbrev pub mapped : (s : Paging) (root virt_addr phys_addr w : ℕ) → Option ℕ
mapped s root v p w =
    if page_number w == page_number v then some (p + w % 4096) else paging_translate root w s

-- What a map promises. A panic comes only without three free pages.
abbrev pub MapSpec :
    (s : Paging) (root virt_addr phys_addr flags : ℕ) → Option (Bool × Paging) → Type 0
MapSpec s root v p flags none = s.pmm.info.free_pages < 3
MapSpec s root v p flags (some (true, s')) =
    IsTree s' root
    × (accepts v p flags ≡ true)
    × (paging_translate root v s ≡ none)
    × (s.pmm.info.free_pages ≤ s'.pmm.info.free_pages + 3)
    × (small_page s' root v ≡ some p)
    × ((w : ℕ) → paging_translate root w s' ≡ mapped s root v p w)
MapSpec s root v p flags (some (false, s')) =
    (s' ≡ s) × ((accepts v p flags ≡ true) → (a : ℕ) × (paging_translate root v s ≡ some a))

-- The test of the code.
rejected :
    (v p flags : ℕ)
    → (not (bit_and (bit_or v p) 4095 == 0) || has flags (2 ^ 3) && has flags (2 ^ 1))
      ≡ not (accepts v p flags)
rejected v p flags = ground (arith, bit_and-low (bit_or v p) 12, bit_or-aligned v p 12)

pub frame_lem : (f : ℕ) → f < 2 ^ 40 → frame (f * 4096) ≡ f
unfolding frame
frame_lem f h = omega arith

pub entry_frame :
    (nx : Bool) (f flags : ℕ) → f < 2 ^ 40 → frame (page_entry nx (f * 4096) flags) ≡ f
unfolding frame
entry_frame nx f flags h = ground (arith, page_entry_lem nx f flags h)

pub entry_present :
    (nx : Bool) (f flags : ℕ)
    → f < 2 ^ 40
    → has (page_entry nx (f * 4096) flags) page_present ≡ true
entry_present nx f flags h =
    ground (arith, is_present (page_entry nx (f * 4096) flags), page_entry_lem nx f flags h)

module _ (s : Paging) (root v f flags : ℕ) (good : IsTree s root) (masked : IsPage root)
    (f_lt : f < 2 ^ 40) where
  set_entry :
      (s1 : Paging)
      → IsQuiet s s1 root 3
      → (pt : ℕ) → table_at s1.tables root 3 (place 3 v) ≡ some pt
      → accepts v (f * 4096) flags ≡ true
      → paging_translate root v s ≡ none
      → MapSpec s root v (f * 4096) flags (set_page (f * 4096) flags (some (pt, index 3 v)) s1)
  unfolding set_page
  set_entry s1 quiet pt at_pt ok unmapped =
      rw (address (f * 4096), own_frame)
        (leaf-IsTree s1 root v pt entry quiet.tree at_pt, ok, unmapped, quiet.cost, small, after)
    where
      entry : ℕ
      entry = page_entry s1.nx_enabled (f * 4096) flags

      own_frame : frame (f * 4096) ≡ f
      own_frame = frame_lem f f_lt

      small : small_page (write pt (index 3 v) entry s1) root v ≡ some (f * 4096)
      small =
          leaf-small_page s1 root v pt entry quiet.tree at_pt
          ∙ rw (entry_present s1.nx_enabled f flags f_lt, entry_frame s1.nx_enabled f flags f_lt)
              refl

      after :
          (w : ℕ)
          → paging_translate root w (write pt (index 3 v) entry s1) ≡ mapped s root v (f * 4096) w
      after w =
          translate_lem _ root w masked
          ∙ leaf_translation s1 root v pt entry quiet.tree at_pt w
          ∙ rw
              (
                entry_present s1.nx_enabled f flags f_lt,
                entry_frame s1.nx_enabled f flags f_lt,
                quiet.same w,
                sym (translate_lem s root w masked),
              )
              refl

  set_walked :
      (r : Option (Option (ℕ × ℕ) × Paging))
      → MayMake s root 3 (Found root v) r
      → accepts v (f * 4096) flags ≡ true
      → paging_translate root v s ≡ none
      → MapSpec s root v
          (f * 4096)
          flags
          (elim r [ none ↦ none | some (o, s1) ↦ set_page (f * 4096) flags o s1 ])
  set_walked none h ok unmapped = h
  set_walked (some (none, s1)) (quiet, (a, mapped_at)) ok unmapped =
      let found : paging_translate root v s ≡ some a =
        translate_lem s root v masked ∙ sym (quiet.same v) ∙ mapped_at in
      ground arith
  set_walked (some (some (pt, i), s1)) (quiet, (at_pt, at_index)) ok unmapped =
      rw at_index (set_entry s1 quiet pt at_pt ok unmapped)

  map_ok :
      accepts v (f * 4096) flags ≡ true
      → (o : Option ℕ) → paging_translate root v s ≡ o
      → MapSpec s root v (f * 4096) flags (map_unmapped o root v (f * 4096) flags s)
  unfolding map_unmapped paging_translate
  map_ok ok none e =
      set_walked (walk_to_pte root v true (has flags 2) s)
        (walk_to_pte_lem root v (has flags 2) s good masked) ok e
  map_ok ok (some a) e = (refl, λ _. (a, e))

  map_aligned :
      accepts v (f * 4096) flags ≡ true
      → MapSpec s root v (f * 4096) flags (paging_map_page root v (f * 4096) flags s)
  unfolding paging_map_page paging_translate
  map_aligned ok =
      rw (rejected v (f * 4096) flags, ok) (map_ok ok (translate_with_cr3 s.tables root v) refl)

map_refused :
    (s : Paging) (root v p flags : ℕ)
    → accepts v p flags ≡ false
    → MapSpec s root v p flags (paging_map_page root v p flags s)
unfolding paging_map_page
map_refused s root v p flags refused = rw (rejected v p flags, refused) (refl, λ ok. ground arith)

-- With a tree of tables in pages in use, a map panics only if fewer than three pages are free.
-- Otherwise the result is true if and only if the request is accepted (both addresses aligned,
-- GLOBAL and USER not both set) and the address had no translation. After true the tables are a
-- tree again, at most three pages fewer are free, the page is one of 4 KiB with the new frame, its
-- addresses translate to that frame, and all others as before; after false nothing has changed.
pub paging_map_page-MapSpec :
    {s : Paging} {root : ℕ}
    → IsTree s root
    → IsPage root
    → (virt_addr phys_addr flags : ℕ) → phys_addr < 2 ^ 52
    → MapSpec s root virt_addr phys_addr flags (paging_map_page root virt_addr phys_addr flags s)
paging_map_page-MapSpec {s} {root} good masked v p flags p_lt =
    elim (Bool-cases (accepts v p flags)) [
      | inr refused ↦ map_refused s root v p flags refused
      | inl ok ↦
          let whole_page : p / 4096 * 4096 ≡ p = ground arith in
          rw (← whole_page)
            (map_aligned s root v (p / 4096) flags good masked (omega arith) (rw whole_page ok))
    ]
