-- ===== src/Mm/Paging/Steps/FreeEmpty.antt =====
-- `free_empty_tables` of mm/paging.c.
use velox_os.Prelude.{
  ℕ, suc, ◌≤◌, ◌≡◌, refl, sym, ◌∙◌, Bool-cases, inl, inr, Bool, true, false, some, arith,
  if◌then◌else◌, bit_and,
}
use velox_os.Mm.Pmm.Free.{free_pages-pmm_free_page_phys}
use velox_os.Mm.Paging.{Paging, pml4_index, pdpt_index, pd_index, entry_addr_mask_4k}
use velox_os.Mm.Paging.Pages.{
  ends, drop_table, is_table_empty, free_pdpt, free_pd, free_pt, free_empty_tables,
}
use velox_os.Mm.Paging.Tree.{child, table_at, table_at-suc, index, index-lt, place, translate_at}
use velox_os.Mm.Paging.Steps.{IsTree}
use velox_os.Mm.Paging.Steps.Drop.{drop_table-IsTree, drop_table_same, dropped_place}

-- A step that at most gives tables back.
pub record IsFreed (s s' : Paging) (root : ℕ) : Type 0 where
  pub tree : IsTree s' root
  pub same : (v : ℕ) → translate_at 0 s'.tables root v ≡ translate_at 0 s.tables root v
  pub gives : s.pmm.info.free_pages ≤ s'.pmm.info.free_pages

IsFreed-refl : {s : Paging} {root : ℕ} → IsTree s root → IsFreed s s root
IsFreed-refl good = record { tree = good; same = λ v. refl; gives = omega arith }

IsFreed-trans :
    {s s' s'' : Paging} {root : ℕ} → IsFreed s s' root → IsFreed s' s'' root → IsFreed s s'' root
IsFreed-trans a b = record {
  tree = b.tree;
  same = λ v. b.same v ∙ a.same v;
  gives = omega (arith, a.gives, b.gives);
}

module _ (root v : ℕ) where
  abbrev IsOn : Paging → ℕ → ℕ → Type 0
  IsOn s k p = table_at s.tables root k (place k v) ≡ some p

  leads_on :
      (s : Paging) (k p c : ℕ)
      → IsOn s k p
      → IsOn s (suc k) c
      → child (s.tables p (index k v)) ≡ some c
  unfolding place
  leads_on s k p c a b =
      sym (table_at-suc s.tables root k (place k v) (index k v) (index-lt k v) a) ∙ b

  -- A table on the walk is dropped; those above it stay.
  module _ (s : Paging) (k p c : ℕ) (good : IsTree s root) (k_le : k ≤ 2) (at_p : IsOn s k p)
      (at_c : IsOn s (suc k) c) (empty : is_table_empty s.tables c ≡ true) where
    drop-IsFreed : IsFreed s (drop_table c p (index k v) s) root
    unfolding drop_table
    drop-IsFreed =
        let leads = leads_on s k p c at_p at_c in
        record {
          tree =
              drop_table-IsTree s root k (place k v) p (index k v) c good at_p k_le (index-lt k v)
                leads empty;
          same =
              drop_table_same s root k (place k v) p (index k v) c good at_p k_le (index-lt k v)
                leads empty;
          gives = ground (arith, free_pages-pmm_free_page_phys good.valid c);
        }

    drop_above : (l r : ℕ) → l ≤ k → IsOn s l r → IsOn (drop_table c p (index k v) s) l r
    unfolding drop_table
    drop_above l r le e =
        dropped_place s root k (place k v) p (index k v) c good at_p k_le (index-lt k v)
          (leads_on s k p c at_p at_c) empty l (place l v) (omega arith)
        ∙ ground arith

  free_pdpt_lem :
      (s : Paging) (pdpt : ℕ)
      → IsTree s root
      → IsOn s 0 root
      → IsOn s 1 pdpt
      → IsFreed s (free_pdpt root pdpt v s) root
  unfolding free_pdpt index
  free_pdpt_lem s pdpt good h0 h1 = elim (Bool-cases (is_table_empty s.tables pdpt)) [
    | inr full ↦ rw full (IsFreed-refl good)
    | inl empty ↦ rw empty (drop-IsFreed s 0 root pdpt good (omega arith) h0 h1 empty)
  ]

  free_pd_lem :
      (s : Paging) (pdpt pd : ℕ)
      → IsTree s root
      → IsOn s 0 root
      → IsOn s 1 pdpt
      → IsOn s 2 pd
      → IsFreed s (free_pd root pdpt pd v s) root
  unfolding free_pd index
  free_pd_lem s pdpt pd good h0 h1 h2 = elim (Bool-cases (is_table_empty s.tables pd)) [
    | inr full ↦ rw full (IsFreed-refl good)
    | inl empty ↦
        let freed = drop-IsFreed s 1 pdpt pd good (omega arith) h1 h2 empty in
        let above = drop_above s 1 pdpt pd good (omega arith) h1 h2 empty in
        rw empty (
          IsFreed-trans freed (
            free_pdpt_lem _ pdpt freed.tree (above 0 root (omega arith) h0)
              (above 1 pdpt (omega arith) h1)))
  ]

  free_pt_lem :
      (s : Paging) (pdpt pd pt : ℕ)
      → IsTree s root
      → IsOn s 0 root
      → IsOn s 1 pdpt
      → IsOn s 2 pd
      → IsOn s 3 pt
      → IsFreed s (free_pt root pdpt pd pt v s) root
  unfolding free_pt index
  free_pt_lem s pdpt pd pt good h0 h1 h2 h3 = elim (Bool-cases (is_table_empty s.tables pt)) [
    | inr full ↦ rw full (IsFreed-refl good)
    | inl empty ↦
        let freed = drop-IsFreed s 2 pd pt good (omega arith) h2 h3 empty in
        let above = drop_above s 2 pd pt good (omega arith) h2 h3 empty in
        rw empty (
          IsFreed-trans freed (
            free_pd_lem _ pdpt pd freed.tree (above 0 root (omega arith) h0)
              (above 1 pdpt (omega arith) h1) (above 2 pd (omega arith) h2)))
  ]

  step-IsOn :
      (s : Paging) (k p : ℕ)
      → IsOn s k p
      → ends (s.tables p (index k v)) ≡ false
      → IsOn s (suc k) (bit_and (s.tables p (index k v)) entry_addr_mask_4k)
  unfolding place child
  step-IsOn s k p at_p goes =
      table_at-suc s.tables root k (place k v) (index k v) (index-lt k v) at_p ∙ rw goes refl

  root-IsOn : (s : Paging) → IsOn s 0 root
  unfolding table_at place
  root-IsOn s = refl

  if-IsFreed :
      {s t : Paging}
      → IsTree s root
      → (b : Bool) → (b ≡ false → IsFreed s t root)
      → IsFreed s (if b then s else t) root
  if-IsFreed good true h = IsFreed-refl good
  if-IsFreed good false h = h refl

  pub free_empty_tables-IsFreed :
      (s : Paging)
      → IsTree s root
      → bit_and root entry_addr_mask_4k ≡ root
      → IsFreed s (free_empty_tables root v s) root
  unfolding free_empty_tables index
  free_empty_tables-IsFreed s good masked = rw masked (
      if-IsFreed good (ends (s.tables root (pml4_index v))) (λ g0.
        let pdpt = bit_and (s.tables root (pml4_index v)) entry_addr_mask_4k in
        let h1 = step-IsOn s 0 root (root-IsOn s) g0 in
        if-IsFreed good (ends (s.tables pdpt (pdpt_index v))) (λ g1.
          let pd = bit_and (s.tables pdpt (pdpt_index v)) entry_addr_mask_4k in
          let h2 = step-IsOn s 1 pdpt h1 g1 in
          if-IsFreed good (ends (s.tables pd (pd_index v))) (λ g2.
            free_pt_lem s pdpt pd (bit_and (s.tables pd (pd_index v)) entry_addr_mask_4k) good
              (root-IsOn s) h1 h2 (step-IsOn s 2 pd h2 g2)))))
