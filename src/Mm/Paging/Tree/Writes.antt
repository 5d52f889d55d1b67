-- ===== src/Mm/Paging/Tree/Writes.antt =====
-- What one write to a table of mm/paging.c does to the tree.
use velox_os.Prelude.{
  ℕ, zero, suc, ◌+◌, ◌*◌, ◌/◌, ◌%◌, ◌≤◌, ◌<◌, ◌≡◌, ◌≢◌, refl, Bool-cases, inl, inr, Bool, true,
  false, ◌&&◌, Option, none, some, arith, ◌==◌, if◌then◌else◌,
}
use velox_os.Mm.Paging.{Tables, store}
use velox_os.Mm.Paging.Tree.{child, below, table_at, table_at-suc}

-- Each table has one place.
abbrev pub IsApart : Tables → (root : ℕ) → Type 0
IsApart t root =
    (d e q r p : ℕ)
    → d ≤ 3
    → e ≤ 3
    → table_at t root d q ≡ some p
    → table_at t root e r ≡ some p
    → (d ≡ e) × (q ≡ r)

-- The table has no entry that leads to a table.
abbrev pub IsBare : Tables → Option ℕ → Type 0
IsBare t o = (j : ℕ) → j < 512 → below t j o ≡ none

-- The entry of index `i` of the table `p` at a place becomes `entry`.
module _ (t : Tables) (root d q p i entry : ℕ) (here : table_at t root d q ≡ some p) (d_le : d ≤ 3)
    (i_lt : i < 512) (apart : IsApart t root) (old_bare : d < 3 → IsBare t (child (t p i)))
    (new_bare : d < 3 → IsBare t (child entry)) (new_apart : d < 3 → child entry ≢ some p) where
  abbrev t' : Tables
  t' = store p i entry t

  abbrev at_slot : ℕ → ℕ → Bool
  at_slot k x = (k == d + 1) && (x == q * 512 + i)

  as_new : d < 3 → (o : Option ℕ) → o ≡ child entry → IsBare t o
  as_new lt o e = rw e (new_bare lt)

  -- Below the place of the slot.
  under_slot : (j : ℕ) → j < 512 → d < 3 → (o : Option ℕ) → o ≡ child entry → below t' j o ≡ none
  unfolding store below
  under_slot j j_lt lt none e = refl
  under_slot j j_lt lt (some c) e =
      let bare : below t j (some c) ≡ none = as_new lt (some c) e j j_lt in
      ground (arith, e, new_apart lt, bare)

  slot_table : (k x : ℕ) → at_slot (suc k) x ≡ true → table_at t root k (x / 512) ≡ some p
  slot_table k x on =
      let depth : k ≡ d = ground arith in
      let before : x / 512 ≡ q = ground arith in rw (depth, before) here

  slot_parent : (k x : ℕ) → at_slot k x ≡ true → table_at t root k x ≡ child (t p i)
  slot_parent k x on =
      let depth : k ≡ suc d = ground arith in
      let before : x ≡ q * 512 + i = ground arith in
      rw (depth, before) (table_at-suc t root d q i i_lt here)

  -- A table at no other place than the slot's.
  other_table :
      (k x r : ℕ)
      → k ≤ 2
      → table_at t root k (x / 512) ≡ some r
      → (r == p) ≡ true
      → at_slot (suc k) x ≡ (x % 512 == i)
  other_table k x r le e same =
      let is_p : r ≡ p = ground arith in
      let (depth, before) = apart k d (x / 512) q p (omega arith) d_le (rw (← is_p) e) here in
      ground (arith, depth, before)

  elsewhere :
      (k x : ℕ)
      → k ≤ 2
      → at_slot k (x / 512) ≡ false
      → (o : Option ℕ) → table_at t root k (x / 512) ≡ o
      → below t' (x % 512) o ≡ (if at_slot (suc k) x then child entry else below t (x % 512) o)
  unfolding store below
  elsewhere k x le off none e = ground (arith, slot_table k x)
  elsewhere k x le off (some r) e = elim (Bool-cases (r == p)) [
    | inl same ↦ ground (arith, other_table k x r le e same)
    | inr other ↦ ground (arith, slot_table k x)
  ]

  pub table_at-store :
      (k x : ℕ)
      → k ≤ 3
      → table_at t' root k x ≡ (if at_slot k x then child entry else table_at t root k x)
  unfolding table_at
  table_at-store zero x le = ground arith
  table_at-store (suc k) x le = elim (Bool-cases (at_slot k (x / 512))) [
    | inl on ↦
        rw (table_at-store k (x / 512) (omega arith), on, slot_parent k (x / 512) on)
          (ground (
            arith,
            under_slot (x % 512) (omega arith) (ground arith) (child entry) refl,
            old_bare (ground arith) (x % 512) (omega arith),
          ))
    | inr off ↦
        rw (table_at-store k (x / 512) (omega arith), off)
          (elsewhere k x (omega arith) off (table_at t root k (x / 512)) refl)
  ]
