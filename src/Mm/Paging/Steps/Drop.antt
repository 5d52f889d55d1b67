-- ===== src/Mm/Paging/Steps/Drop.antt =====
-- One table that `free_empty_tables` of mm/paging.c gives back.
use velox_os.Prelude.{
  ℕ, zero, suc, ◌+◌, ◌*◌, ◌/◌, ◌≤◌, ◌<◌, ◌≡◌, refl, sym, ◌∙◌, Bool-cases, inl, inr, ◌⊎◌, Bool, true,
  false, ◌&&◌, none, some, arith, if◌then◌else◌, ◌==◌,
}
use velox_os.Mm.Pmm.{Pmm, pmm_free_page_phys}
use velox_os.Mm.Pmm.Free.{
  pmm_free_page_phys-IsValid, bit_test-pmm_free_page_phys, total-pmm_free_page_phys,
  initialized-pmm_free_page_phys,
}
use velox_os.Mm.Paging.{Tables, Paging, store}
use velox_os.Mm.Paging.Pages.{drop_table, is_table_empty, all_zero}
use velox_os.Mm.Paging.Tree.{
  child-zero, present_zero, huge_zero, child, below, table_at, table_at-suc, index, index-lt, place,
  translate_at, translate_at-absent, reach,
}
use velox_os.Mm.Paging.Tree.Same.{IsTop}
use velox_os.Mm.Paging.Tree.Writes.{table_at-store}
use velox_os.Mm.Paging.Tree.Effects.{other_translation, slot_translation}
use velox_os.Mm.Paging.Steps.{IsTree, IsUsed, IsWhole}

pub all_zero_lem : (n : ℕ) (t : Tables) (c j : ℕ) → all_zero n t c ≡ true → j < n → t c j ≡ 0
unfolding all_zero
all_zero_lem zero t c j e lt = absurd (omega arith)
all_zero_lem (suc n) t c j e lt = ground (arith, all_zero_lem n t c j)

pub is_table_empty_lem : (t : Tables) (c j : ℕ) → is_table_empty t c ≡ true → j < 512 → t c j ≡ 0
unfolding is_table_empty
is_table_empty_lem t c j e lt = all_zero_lem 512 t c j e lt

-- The empty table `c` under the entry `i` of the table `p` at a place goes.
module _ (s : Paging) (root d q p i c : ℕ) (good : IsTree s root)
    (here : table_at s.tables root d q ≡ some p) (d_le : d ≤ 2) (i_lt : i < 512)
    (leads : child (s.tables p i) ≡ some c) (empty : is_table_empty s.tables c ≡ true) where
  abbrev dropped : Tables
  dropped = store p i 0 s.tables

  abbrev in_slot : ℕ → ℕ → Bool
  in_slot k x = (k == d + 1) && (x == q * 512 + i)

  c_place : table_at s.tables root (suc d) (q * 512 + i) ≡ some c
  c_place = table_at-suc s.tables root d q i i_lt here ∙ leads

  -- No table but the one is at a place of the slot.
  pub dropped_place :
      (k x : ℕ)
      → k ≤ 3
      → table_at dropped root k x ≡ (if in_slot k x then none else table_at s.tables root k x)
  unfolding below
  dropped_place k x le =
      table_at-store s.tables root d q p i 0 here (omega arith) i_lt good.apart
        (λ lt j j_lt. rw (leads, is_table_empty_lem s.tables c j empty j_lt) child-zero)
        (λ lt j j_lt. rw child-zero refl) (λ lt e. ground (arith, child-zero, e)) k x le
      ∙ rw child-zero refl

  dropped_table :
      (k x r : ℕ)
      → k ≤ 3
      → table_at dropped root k x ≡ some r
      → (in_slot k x ≡ false) × (table_at s.tables root k x ≡ some r)
  dropped_table k x r le e = elim (Bool-cases (in_slot k x)) [
    | inl on ↦ ground (arith, dropped_place k x le, e)
    | inr off ↦ (off, ground (arith, dropped_place k x le, e))
  ]

  -- Another table is another page.
  other_page :
      (k x r : ℕ)
      → k ≤ 3
      → in_slot k x ≡ false
      → table_at s.tables root k x ≡ some r
      → (c / 4096 == r / 4096) ≡ false
  other_page k x r le off e = elim (Bool-cases (c / 4096 == r / 4096)) [
    | inr other ↦ other
    | inl same ↦
        let (r_aligned, _, _) = good.used k x r le e in
        let (c_aligned, _, _) = good.used (suc d) (q * 512 + i) c (omega arith) c_place in
        let is_c : r ≡ c = ground arith in
        let (depth, slot) =
          good.apart k (suc d) x (q * 512 + i) c le (omega arith) (rw (← is_c) e) c_place in
        ground (arith, depth, slot)
  ]

  zeroed_at : (r j : ℕ) → (dropped r j ≡ 0) ⊎ (dropped r j ≡ s.tables r j)
  unfolding store
  zeroed_at r j = elim (Bool-cases (r == p && (j == i))) [
    | inl on ↦ inl (rw on refl)
    | inr off ↦ inr (rw off refl)
  ]

  dropped-IsTop : IsTop dropped root
  dropped-IsTop j present = elim (zeroed_at root j) [
    | inl e ↦ rw e huge_zero
    | inr e ↦ rw e (good.top j (rw e at present))
  ]

  dropped-IsWhole : IsWhole dropped root
  dropped-IsWhole k x r j le e lt huge = elim (zeroed_at r j) [
    | inl z ↦ ground (arith, huge_zero, rw z at huge)
    | inr z ↦
        rw z (good.whole k x r j le ((dropped_table k x r (omega arith) e).1) lt (rw z at huge))
  ]

  freed : Pmm
  freed = pmm_free_page_phys c s.pmm

  dropped-IsUsed : IsUsed (pmm_free_page_phys c s.pmm) dropped root
  dropped-IsUsed k x r le e =
      let (off, old) = dropped_table k x r le e in
      let (aligned, within, in_use) = good.used k x r le old in
      (
        aligned,
        omega (arith, total-pmm_free_page_phys s.pmm c),
        ground (
          arith,
          bit_test-pmm_free_page_phys good.valid c (r / 4096),
          other_page k x r le off old,
        ),
      )

  still_here : table_at dropped root d q ≡ some p
  still_here = dropped_place d q (omega arith) ∙ ground arith

  slot_zero : dropped p i ≡ 0
  unfolding store
  slot_zero = ground arith

  dropped_same : (v : ℕ) → translate_at 0 dropped root v ≡ translate_at 0 s.tables root v
  unfolding place
  dropped_same v = elim (Bool-cases (place (suc d) v == q * 512 + i)) [
    | inr off ↦
        other_translation s.tables root d q p i 0 here (omega arith) i_lt good.apart good.top v off
    | inl on ↦
        let in_place : place (suc d) v ≡ q * 512 + i = ground arith in
        let (at_index, _) =
          slot_translation s.tables root d q p i 0 here (omega arith) i_lt good.apart good.top v
            in_place in
        let same_place : place d v ≡ q = omega (arith, index-lt d v) in
        reach dropped root d v (omega arith) (rw same_place still_here)
        ∙ translate_at-absent dropped p d v (rw (at_index, slot_zero) present_zero)
        ∙ sym (
            translate_at-absent s.tables c (suc d) v (
              rw (is_table_empty_lem s.tables c (index (suc d) v) empty (index-lt (suc d) v))
                present_zero))
        ∙ sym (reach s.tables root (suc d) v (omega arith) (rw in_place c_place))
  ]

  pub drop_table-IsTree : IsTree (drop_table c p i s) root
  unfolding drop_table
  drop_table-IsTree = record {
    valid = pmm_free_page_phys-IsValid good.valid c;
    started = initialized-pmm_free_page_phys s.pmm c ∙ good.started;
    room = omega (arith, good.room, total-pmm_free_page_phys s.pmm c);
    apart = λ k l x y r k_le l_le a b.
        good.apart k l x y r k_le l_le ((dropped_table k x r k_le a).1)
          ((dropped_table l y r l_le b).1);
    top = dropped-IsTop;
    whole = dropped-IsWhole;
    used = dropped-IsUsed;
  }

  pub drop_table_same :
      (v : ℕ) → translate_at 0 (drop_table c p i s).tables root v ≡ translate_at 0 s.tables root v
  unfolding drop_table
  drop_table_same v = dropped_same v
