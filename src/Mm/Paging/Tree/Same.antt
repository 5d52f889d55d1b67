-- ===== src/Mm/Paging/Tree/Same.antt =====
-- Tables of mm/paging.c that translate alike.
use velox_os.Prelude.{
  ℕ, zero, suc, ◌*◌, ◌≤◌, ◌≡◌, refl, ap, ◌∙◌, sym, Bool-cases, inl, inr, true, false, some, arith,
}
use mathlib.Core.Path.{subst}
use velox_os.Mm.Paging.{Tables, has, page_present, page_ps}
use velox_os.Mm.Paging.Entry.{IsAlike, frame}
use velox_os.Mm.Paging.Tree.{
  child, table_at, index, index-lt, place, translate_at, table_at-suc, child-table,
  translate_at-leaf, translate_at-huge, translate_at-large, translate_at-child, translate_at-absent,
}

module _ (t u : Tables) (p v k : ℕ) (alike : IsAlike (u p (index k v)) (t p (index k v))) where
  abbrev Next : Type 0
  Next =
      (c : ℕ)
      → child (t p (index k v)) ≡ some c
      → translate_at (suc k) u c v ≡ translate_at (suc k) t c v

  absent : has (t p (index k v)) page_present ≡ false → translate_at k u p v ≡ translate_at k t p v
  absent e = translate_at-absent u p k v (alike.present ∙ e) ∙ sym (translate_at-absent t p k v e)

  leads :
      k ≤ 2
      → has (t p (index k v)) page_present ≡ true
      → has (t p (index k v)) page_ps ≡ false
      → Next
      → translate_at k u p v ≡ translate_at k t p v
  leads le e h next =
      let c = frame (t p (index k v)) * 4096 in
      let old : child (t p (index k v)) ≡ some c = child-table (t p (index k v)) e h in
      let new : child (u p (index k v)) ≡ some c =
        child-table (u p (index k v)) (alike.present ∙ e) (alike.huge ∙ h)
        ∙ ap (λ x. some (x * 4096)) alike.page in
      translate_at-child u p k v le new ∙ next c old ∙ sym (translate_at-child t p k v le old)

  by_entry :
      k ≤ 2
      → Next
      → (has (t p (index k v)) page_present ≡ true
          → has (t p (index k v)) page_ps ≡ true
          → translate_at k u p v ≡ translate_at k t p v)
      → translate_at k u p v ≡ translate_at k t p v
  by_entry le next huge = elim (Bool-cases (has (t p (index k v)) page_present)) [
    | inr e ↦ absent e
    | inl e ↦ elim (Bool-cases (has (t p (index k v)) page_ps)) [
      | inl h ↦ huge e h
      | inr h ↦ leads le e h next
    ]
  ]

pub same_step :
    (t u : Tables) (p v k : ℕ) (alike : IsAlike (u p (index k v)) (t p (index k v)))
    → k ≤ 3
    → (k ≡ 0 → has (t p (index k v)) page_present ≡ true → has (t p (index k v)) page_ps ≡ false)
    → (k ≤ 2 → Next t u p v k alike)
    → translate_at k u p v ≡ translate_at k t p v
same_step t u p v zero alike le top next =
    by_entry t u p v 0 alike (omega arith) (next (omega arith)) (λ e h. ground (arith, top refl e))
same_step t u p v (suc zero) alike le top next =
    by_entry t u p v 1 alike (omega arith) (next (omega arith)) (λ e h.
      translate_at-huge u p v (alike.present ∙ e) (alike.huge ∙ h)
      ∙ rw (alike.page) refl
      ∙ sym (translate_at-huge t p v e h))
same_step t u p v (suc (suc zero)) alike le top next =
    by_entry t u p v 2 alike (omega arith) (next (omega arith)) (λ e h.
      translate_at-large u p v (alike.present ∙ e) (alike.huge ∙ h)
      ∙ rw (alike.page) refl
      ∙ sym (translate_at-large t p v e h))
same_step t u p v (suc (suc (suc zero))) alike le top next =
    translate_at-leaf u p v ∙ rw (alike.page, alike.present) refl ∙ sym (translate_at-leaf t p v)
same_step t u p v (suc (suc (suc (suc k)))) alike le top next = absurd (omega arith)

-- Entries of the root are no huge pages.
abbrev pub IsTop : Tables → ℕ → Type 0
IsTop t root = (i : ℕ) → has (t root i) page_present ≡ true → has (t root i) page_ps ≡ false

-- Two sets of tables translate an address alike if its walk meets entries that are alike.
module _ (t u : Tables) (root v : ℕ) (top : IsTop t root)
    (met : (k p : ℕ)
      → k ≤ 3
      → table_at t root k (place k v) ≡ some p
      → IsAlike (u p (index k v)) (t p (index k v))) where
  abbrev SameFrom : ℕ → Type 0
  SameFrom k =
      (p : ℕ) → table_at t root k (place k v) ≡ some p → translate_at k u p v ≡ translate_at k t p v

  at_root :
      (p k : ℕ)
      → table_at t root k (place k v) ≡ some p
      → k ≡ 0
      → has (t p (index k v)) page_present ≡ true
      → has (t p (index k v)) page_ps ≡ false
  unfolding table_at place
  at_root p zero here e present =
      let same : root ≡ p = ground arith in
      subst (λ r. has (t r (index 0 v)) page_present ≡ true → has (t r (index 0 v)) page_ps ≡ false)
        same (top (index 0 v)) present
  at_root p (suc k) here e present = absurd (omega arith)

  same_from : (k : ℕ) → k ≤ 3 → (k ≤ 2 → SameFrom (suc k)) → SameFrom k
  unfolding place
  same_from k le next p here =
      same_step t u p v k (met k p le here) le (λ zero_k present. at_root p k here zero_k present)
        (λ le2 c leads.
          next le2 c (table_at-suc t root k (place k v) (index k v) (index-lt k v) here ∙ leads))

  pub same_translation : translate_at 0 u root v ≡ translate_at 0 t root v
  unfolding table_at place
  same_translation =
      same_from 0 (omega arith)
        (λ _. same_from 1 (omega arith) (λ _.
          same_from 2 (omega arith) (λ _. same_from 3 (omega arith) (λ le. absurd (omega arith)))))
        root refl
