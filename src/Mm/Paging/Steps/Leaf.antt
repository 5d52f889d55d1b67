-- ===== src/Mm/Paging/Steps/Leaf.antt =====
-- A write to an entry of a page table of mm/paging.c.
use velox_os.Prelude.{
  ℕ, ◌+◌, ◌*◌, ◌/◌, ◌%◌, ◌^◌, ◌≤◌, ◌≡◌, refl, sym, ◌∙◌, Bool-cases, inl, inr, true, false, Option,
  none, some, arith, if◌then◌else◌, ◌==◌, bit_and, bit_or,
}
use velox_os.Prelude.Bits.{bit_and-low, bit_or-low, bit_or-zero}
use velox_os.Mm.Paging.{Tables, Paging, has, page_present, write, store}
use velox_os.Mm.Paging.Entry.{frame}
use velox_os.Mm.Paging.Tree.{
  table_at, index, index-lt, place, translate_at, translate_at-leaf, reach,
}
use velox_os.Mm.Paging.Tree.Writes.{table_at-store}
use velox_os.Mm.Paging.Tree.Effects.{other_translation}
use velox_os.Mm.Paging.Steps.{IsTree}

-- The number of the page of an address, of 36 bits.
unfoldable pub page_number : (virt_addr : ℕ) → ℕ
page_number virt_addr = virt_addr / 4096 % 2 ^ 36

pub place-page_number : (v : ℕ) → place 4 v ≡ page_number v
unfolding page_number place index
place-page_number v = omega (
  arith,
  bit_and-low (v / 2 ^ 39) 9,
  bit_and-low (v / 2 ^ 30) 9,
  bit_and-low (v / 2 ^ 21) 9,
  bit_and-low (v / 2 ^ 12) 9,
)

-- The address in a page.
pub in_page : (f w : ℕ) → bit_or (f * 4096) (bit_and w 4095) ≡ f * 4096 + w % 4096
in_page f w = rw (bit_and-low w 12, bit_or-low f (w % 4096) 12, high) (omega (arith, bit_or-zero f))
  where
    high : w % 4096 / 2 ^ 12 ≡ 0
    high = omega arith

-- The frame that a page table gives to `v`: that of a 4 KiB page.
unfoldable pub small_at : Tables → (v : ℕ) → Option ℕ → Option ℕ
small_at t v none = none
small_at t v (some pt) =
    if has (t pt (index 3 v)) page_present then some (frame (t pt (index 3 v)) * 4096) else none

abbrev pub small_page : Paging → (root v : ℕ) → Option ℕ
small_page s root v = small_at s.tables v (table_at s.tables root 3 (place 3 v))

-- Translations after page `page_number v` is given the entry.
abbrev pub remapped : (s : Paging) (root v entry w : ℕ) → Option ℕ
remapped s root v entry w =
    if page_number w == page_number v
    then if has entry page_present then some (frame entry * 4096 + w % 4096) else none
    else translate_at 0 s.tables root w

module _ (s : Paging) (root v pt entry : ℕ) (good : IsTree s root)
    (here : table_at s.tables root 3 (place 3 v) ≡ some pt) where
  abbrev s' : Paging
  s' = write pt (index 3 v) entry s

  pub leaf_place : (k x : ℕ) → k ≤ 3 → table_at s'.tables root k x ≡ table_at s.tables root k x
  leaf_place k x le =
      table_at-store s.tables root 3 (place 3 v) pt (index 3 v) entry here (omega arith)
        (index-lt 3 v) good.apart (λ lt. absurd (omega arith)) (λ lt. absurd (omega arith))
        (λ lt. absurd (omega arith)) k x le
      ∙ ground arith

  upper_other :
      (k x p j : ℕ) → k ≤ 2 → table_at s.tables root k x ≡ some p → s'.tables p j ≡ s.tables p j
  unfolding store
  upper_other k x p j le e = elim (Bool-cases (p == pt)) [
    | inr other ↦ ground arith
    | inl same ↦
        let is_pt : p ≡ pt = ground arith in
        let depth =
          (good.apart k 3 x (place 3 v) pt (omega arith) (omega arith) (rw (← is_pt) e) here).0 in
        absurd (omega arith)
  ]

  root_same : (j : ℕ) → s'.tables root j ≡ s.tables root j
  unfolding table_at
  root_same j = upper_other 0 0 root j (omega arith) refl

  pub leaf-IsTree : IsTree (write pt (index 3 v) entry s) root
  leaf-IsTree = record {
    valid = good.valid;
    started = good.started;
    room = good.room;
    apart = λ d e q r p d_le e_le a b.
        good.apart d e q r p d_le e_le (sym (leaf_place d q d_le) ∙ a)
          (sym (leaf_place e r e_le) ∙ b);
    top = λ i. rw (root_same i) (good.top i);
    whole = λ k x p j le e lt.
        let old = sym (leaf_place k x (omega arith)) ∙ e in
        rw (upper_other k x p j le old) (good.whole k x p j le old lt);
    used = λ k x p le e. good.used k x p le (sym (leaf_place k x le) ∙ e);
  }

  pub stored : (w : ℕ) → index 3 w ≡ index 3 v → s'.tables pt (index 3 w) ≡ entry
  unfolding store
  stored w e = ground arith

  pub leaf_translation : (w : ℕ) → translate_at 0 s'.tables root w ≡ remapped s root v entry w
  unfolding place
  leaf_translation w = elim (Bool-cases (page_number w == page_number v)) [
    | inr off ↦
        let apart_place : (place 4 w == place 3 v * 512 + index 3 v) ≡ false =
          ground (arith, place-page_number w, place-page_number v) in
        rw off (
          other_translation s.tables root 3 (place 3 v) pt (index 3 v) entry here (omega arith)
            (index-lt 3 v) good.apart good.top w apart_place)
    | inl on ↦
        let same_place : place 4 w ≡ place 3 v * 512 + index 3 v =
          ground (arith, place-page_number w, place-page_number v) in
        let same_index : index 3 w ≡ index 3 v = omega (arith, index-lt 3 v, index-lt 3 w) in
        let same_table : place 3 w ≡ place 3 v = omega (arith, index-lt 3 v, index-lt 3 w) in
        rw on (
          reach s'.tables root 3 w (omega arith)
            (rw same_table (leaf_place 3 (place 3 v) (omega arith) ∙ here))
          ∙ translate_at-leaf s'.tables pt w
          ∙ rw (stored w same_index, in_page (frame entry) w) refl)
  ]

  pub leaf-small_page :
      small_page (write pt (index 3 v) entry s) root v
      ≡ (if has entry page_present then some (frame entry * 4096) else none)
  unfolding small_at
  leaf-small_page = rw (leaf_place 3 (place 3 v) (omega arith), here, stored v refl) refl

  -- Translations in the page itself.
  pub leaf_before :
      (w : ℕ)
      → (page_number w == page_number v) ≡ true
      → translate_at 0 s.tables root w ≡ (
          if has (s.tables pt (index 3 v)) page_present
          then some (frame (s.tables pt (index 3 v)) * 4096 + w % 4096)
          else none)
  unfolding place
  leaf_before w on =
      let same_place : place 4 w ≡ place 3 v * 512 + index 3 v =
        ground (arith, place-page_number w, place-page_number v) in
      let same_index : index 3 w ≡ index 3 v = omega (arith, index-lt 3 v, index-lt 3 w) in
      let same_table : place 3 w ≡ place 3 v = omega (arith, index-lt 3 v, index-lt 3 w) in
      reach s.tables root 3 w (omega arith) (rw same_table here)
      ∙ translate_at-leaf s.tables pt w
      ∙ rw (same_index, in_page (frame (s.tables pt (index 3 v))) w) refl
