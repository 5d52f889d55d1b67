-- ===== src/Mm/Paging/Steps/Create.antt =====
-- The part of `get_or_create_table` of mm/paging.c that makes a table.
use velox_os.Prelude.{
  ℕ, suc, ◌+◌, ◌*◌, ◌/◌, ◌≤◌, ◌<◌, ◌≡◌, refl, sym, ap, ◌∙◌, Bool-cases, inl, inr, ◌⊎◌, Bool, true,
  false, ◌&&◌, none, some, arith, if◌then◌else◌, ◌==◌,
}
use velox_os.Mm.Pmm.{Pmm}
use velox_os.Mm.Pmm.Alloc.{Takes}
use velox_os.Mm.Paging.{
  Tables, Paging, PagingInfo, has, page_present, page_ps, page_user, write, store, zero_table,
  table_entry,
}
use velox_os.Mm.Paging.Entry.{LeadsTo, table_entry-LeadsTo}
use velox_os.Mm.Paging.Tree.{
  child-zero, present_zero, huge_zero, child, below, child-table, table_at, table_at-suc, index,
  index-lt, place, translate_at, translate_at-absent, reach,
}
use velox_os.Mm.Paging.Tree.Same.{same_translation, IsTop}
use velox_os.Mm.Paging.Tree.Writes.{IsApart, table_at-store}
use velox_os.Mm.Paging.Tree.Effects.{
  table_at-kept, IsAlike-refl, other_translation, slot_translation,
}
use velox_os.Mm.Paging.Steps.{IsTree, IsQuiet, IsUsed, IsWhole}

-- The table `page * 4096` comes from the allocator and goes under the absent entry `i` of `p`.
module _ (s : Paging) (root d q p i page : ℕ) (pmm' : Pmm) (good : IsTree s root)
    (here : table_at s.tables root d q ≡ some p) (d_le : d ≤ 2) (i_lt : i < 512)
    (absent : has (s.tables p i) page_present ≡ false) (takes : Takes s.pmm page pmm') (user : Bool)
    (info : PagingInfo) where
  abbrev c : ℕ
  c = page * 4096

  abbrev zeroed : Tables
  zeroed = zero_table c s.tables

  abbrev made : Tables
  made = store p i (table_entry user c) zeroed

  abbrev created : Paging
  created = record s { tables = made; pmm = pmm'; info = info }

  leads : LeadsTo (table_entry user c) page
  leads = table_entry-LeadsTo user page (omega (arith, takes.within, good.room))

  fresh : (k x r : ℕ) → k ≤ 3 → table_at s.tables root k x ≡ some r → (r == c) ≡ false
  fresh k x r le e =
      let (aligned, within, in_use) = good.used k x r le e in
      elim (Bool-cases (r == c)) [
        | inr other ↦ other
        | inl same ↦
            let is_new : r / 4096 ≡ page = ground arith in
            ground (arith, takes.was_free, rw is_new at in_use)
      ]

  zeroed-other : (r j : ℕ) → (r == c) ≡ false → zeroed r j ≡ s.tables r j
  unfolding zero_table
  zeroed-other r j h = rw h refl

  zeroed-new : (j : ℕ) → j < 512 → zeroed c j ≡ 0
  unfolding zero_table
  zeroed-new j h = ground arith

  zeroed_place : (k x : ℕ) → k ≤ 3 → table_at zeroed root k x ≡ table_at s.tables root k x
  zeroed_place k x le =
      table_at-kept s.tables zeroed root
        (λ k x r j le e lt. ap child (zeroed-other r j (fresh k x r le e))) k x (omega arith)

  zeroed-IsApart : IsApart zeroed root
  zeroed-IsApart d e q r p d_le e_le a b =
      good.apart d e q r p d_le e_le (sym (zeroed_place d q d_le) ∙ a)
        (sym (zeroed_place e r e_le) ∙ b)

  -- The root is at a place.
  root_other : (root == c) ≡ false
  unfolding table_at
  root_other = fresh 0 0 root (omega arith) refl

  p_other : (p == c) ≡ false
  p_other = fresh d q p (omega arith) here

  zeroed-IsTop : IsTop zeroed root
  zeroed-IsTop i present =
      ap (λ e. has e page_ps) (zeroed-other root i root_other)
      ∙ good.top i (ap (λ e. has e page_present) (sym (zeroed-other root i root_other)) ∙ present)

  zeroed_same : (v : ℕ) → translate_at 0 zeroed root v ≡ translate_at 0 s.tables root v
  zeroed_same v =
      same_translation s.tables zeroed root v good.top
        (λ k r le e. IsAlike-refl (zeroed-other r (index k v) (fresh k (place k v) r le e)))

  zeroed_here : table_at zeroed root d q ≡ some p
  zeroed_here = zeroed_place d q (omega arith) ∙ here

  no_child : child (zeroed p i) ≡ none
  unfolding child velox_os.Mm.Paging.Pages.ends
  no_child = ground (arith, absent, zeroed-other p i p_other)

  old_child : child (s.tables p i) ≡ none
  old_child = ap child (sym (zeroed-other p i p_other)) ∙ no_child

  is_child : child (table_entry user c) ≡ some c
  is_child =
      child-table (table_entry user c) leads.present leads.table
      ∙ ap (λ f. some (f * 4096)) leads.to

  made_place :
      (k x : ℕ)
      → k ≤ 3
      → table_at made root k x
        ≡ (if (k == d + 1) && (x == q * 512 + i) then some c else table_at s.tables root k x)
  unfolding below
  made_place k x le =
      table_at-store zeroed root d q p i (table_entry user c) zeroed_here (omega arith) i_lt
        zeroed-IsApart (λ lt j j_lt. rw no_child refl)
        (λ lt j j_lt. rw (is_child, zeroed-new j j_lt) child-zero)
        (λ lt e. ground (arith, p_other, is_child, e)) k x le
      ∙ rw (is_child, zeroed_place k x le) refl

  abbrev in_slot : ℕ → ℕ → Bool
  in_slot k x = (k == d + 1) && (x == q * 512 + i)

  made_table :
      (k x r : ℕ)
      → k ≤ 3
      → table_at made root k x ≡ some r
      → ((in_slot k x ≡ true) × (r ≡ c))
        ⊎ ((in_slot k x ≡ false) × (table_at s.tables root k x ≡ some r))
  made_table k x r le e = elim (Bool-cases (in_slot k x)) [
    | inl on ↦ inl (on, ground (arith, made_place k x le, e))
    | inr off ↦ inr (off, ground (arith, made_place k x le, e))
  ]

  made-IsApart : IsApart made root
  made-IsApart k l x y r k_le l_le a b = elim (made_table k x r k_le a) [
    | inl (m, is_c) ↦ elim (made_table l y r l_le b) [
      | inl (n, _) ↦ (ground arith, ground arith)
      | inr (_, old) ↦ ground (arith, fresh l y r l_le old)
    ]
    | inr (_, m) ↦ elim (made_table l y r l_le b) [
      | inl (_, is_c) ↦ ground (arith, fresh k x r k_le m)
      | inr (_, n) ↦ good.apart k l x y r k_le l_le m n
    ]
  ]

  made-IsTop : IsTop made root
  unfolding store
  made-IsTop j present = elim (Bool-cases (root == p && (j == i))) [
    | inl on ↦ rw on leads.table
    | inr off ↦ rw off (zeroed-IsTop j (rw off at present))
  ]

  made-IsUsed : IsUsed pmm' made root
  made-IsUsed k x r le e = elim (made_table k x r le e) [
    | inl (_, is_c) ↦
        let number : r / 4096 ≡ page = omega arith in
        (
          omega arith,
          omega (arith, takes.within, takes.total_pages),
          rw number (ground (arith, takes.bit page)),
        )
    | inr (_, old) ↦
        let (aligned, within, in_use) = good.used k x r le old in
        (aligned, omega (arith, takes.total_pages), ground (arith, takes.bit (r / 4096)))
  ]

  new_empty : (j : ℕ) → j < 512 → made c j ≡ 0
  unfolding store
  new_empty j lt = ground (arith, p_other, zeroed-new j lt)

  made-IsWhole : IsWhole made root
  unfolding store has
  made-IsWhole k x r j le e lt huge = elim (made_table k x r (omega arith) e) [
    | inl (_, is_c) ↦ ground (arith, new_empty j lt, rw is_c at huge, huge_zero)
    | inr (_, old) ↦ elim (Bool-cases (r == p && (j == i))) [
      | inl on ↦ ground (arith, leads.table, huge)
      | inr off ↦ ground (
        arith,
        huge,
        zeroed-other r j (fresh k x r (omega arith) old),
        good.whole k x r j le old lt,
      )
    ]
  ]

  pub created_place : table_at made root (suc d) (q * 512 + i) ≡ some c
  created_place = made_place (suc d) (q * 512 + i) (omega arith) ∙ ground arith

  made_same : (v : ℕ) → translate_at 0 made root v ≡ translate_at 0 s.tables root v
  made_same v = elim (Bool-cases (place (suc d) v == q * 512 + i)) [
    | inr off ↦
        other_translation zeroed root d q p i (table_entry user c) zeroed_here (omega arith) i_lt
          zeroed-IsApart zeroed-IsTop v off
        ∙ zeroed_same v
    | inl on ↦
        let in_place : place (suc d) v ≡ q * 512 + i = ground arith in
        let (at_index, before) =
          slot_translation s.tables root d q p i 0 here (omega arith) i_lt good.apart good.top v
            in_place in
        reach made root (suc d) v (omega arith) (rw in_place created_place)
        ∙ translate_at-absent made c (suc d) v
            (rw (new_empty (index (suc d) v) (index-lt (suc d) v)) present_zero)
        ∙ sym (translate_at-absent s.tables p d v (rw at_index absent))
        ∙ sym before
  ]

  made_keeps :
      (k x r : ℕ) → k ≤ 3 → table_at s.tables root k x ≡ some r → table_at made root k x ≡ some r
  made_keeps k x r le e = elim (Bool-cases (in_slot k x)) [
    | inr off ↦ made_place k x le ∙ rw off e
    | inl on ↦
        let depth : k ≡ suc d = ground arith in
        let slot : x ≡ q * 512 + i = ground arith in
        let nothing : table_at s.tables root k x ≡ none =
          rw (depth, slot) (table_at-suc s.tables root d q i i_lt here ∙ old_child) in
        ground arith
  ]

  pub created-IsQuiet : IsQuiet s created root 1
  created-IsQuiet = record {
    tree = record {
      valid = takes.valid;
      started = takes.started ∙ good.started;
      room = omega (arith, good.room, takes.total_pages);
      apart = made-IsApart;
      top = made-IsTop;
      whole = made-IsWhole;
      used = made-IsUsed;
    };
    keeps = made_keeps;
    same = made_same;
    nx = refl;
    cost = omega (arith, takes.one_less);
  }
