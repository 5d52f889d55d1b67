-- ===== src/Mm/Paging/Tree/Effects.antt =====
-- Which tables stay where they are, and which addresses keep their translation, when a table of
-- mm/paging.c changes.
use velox_os.Prelude.{
  ℕ, zero, suc, ◌+◌, ◌*◌, ◌/◌, ◌%◌, ap, ◌≤◌, ◌<◌, ◌≡◌, refl, Bool-cases, inl, inr, false, Option,
  none, some, arith, ◌==◌,
}
use velox_os.Mm.Paging.{Tables, store}
use velox_os.Mm.Paging.Entry.{IsAlike}
use velox_os.Mm.Paging.Tree.{child, below, table_at, index, index-lt, place, translate_at, reach}
use velox_os.Mm.Paging.Tree.Same.{IsTop, same_translation}
use velox_os.Mm.Paging.Tree.Writes.{IsApart}

pub IsAlike-refl : {a b : ℕ} → a ≡ b → IsAlike a b
IsAlike-refl e = rw e record { present = refl; huge = refl; page = refl }

-- Tables whose entries lead where they led.
module _ (t u : Tables) (root : ℕ)
    (kept : (k x r j : ℕ)
      → k ≤ 3
      → table_at t root k x ≡ some r
      → j < 512
      → child (u r j) ≡ child (t r j)) where
  below-kept :
      (k x j : ℕ)
      → k ≤ 3
      → j < 512
      → (o : Option ℕ) → table_at t root k x ≡ o
      → below u j o ≡ below t j o
  unfolding below
  below-kept k x j le lt none e = refl
  below-kept k x j le lt (some r) e = kept k x r j le e lt

  pub table_at-kept : (k x : ℕ) → k ≤ 4 → table_at u root k x ≡ table_at t root k x
  unfolding table_at
  table_at-kept zero x le = refl
  table_at-kept (suc k) x le = rw (table_at-kept k (x / 512) (omega arith)) (
      below-kept k (x / 512) (x % 512) (omega arith) (omega arith) (table_at t root k (x / 512))
        refl)

-- One entry of the table `p` at a place changes.
module _ (t : Tables) (root d q p i entry : ℕ) (here : table_at t root d q ≡ some p) (d_le : d ≤ 3)
    (i_lt : i < 512) (apart : IsApart t root) (top : IsTop t root) where
  pub other_translation :
      (v : ℕ)
      → (place (suc d) v == q * 512 + i) ≡ false
      → translate_at 0 (store p i entry t) root v ≡ translate_at 0 t root v
  unfolding store place
  other_translation v off = same_translation t (store p i entry t) root v top met
    where
      met :
          (k r : ℕ)
          → k ≤ 3
          → table_at t root k (place k v) ≡ some r
          → IsAlike (store p i entry t r (index k v)) (t r (index k v))
      met k r le e = IsAlike-refl (elim (Bool-cases (r == p)) [
        | inr other ↦ ground arith
        | inl same ↦
            let is_p : r ≡ p = ground arith in
            let (depth, before) = apart k d (place k v) q p le d_le (rw (← is_p) e) here in
            let same_index : index k v ≡ index d v = ap (λ n. index n v) depth in
            let same_place : place k v ≡ place d v = ap (λ n. place n v) depth in
            ground (arith, before, same_index, same_place)
      ])

  pub slot_translation :
      (v : ℕ)
      → place (suc d) v ≡ q * 512 + i
      → (index d v ≡ i) × (translate_at 0 t root v ≡ translate_at d t p v)
  unfolding place
  slot_translation v on =
      let same_index : index d v ≡ i = omega (arith, index-lt d v) in
      let same_place : place d v ≡ q = omega (arith, index-lt d v) in
      (same_index, reach t root d v d_le (rw same_place here))
