-- ===== src/Mm/Paging/Steps/Get.antt =====
-- `get_or_create_table` of mm/paging.c.
use velox_os.Prelude.{
  ℕ, zero, suc, ◌+◌, ◌*◌, ◌^◌, ◌≤◌, ◌<◌, ◌≡◌, refl, ◌∙◌, Bool-cases, inl, inr, Bool, true, false,
  not, ◌&&◌, Option, none, some, arith, bit_or, bit_and, if◌then◌else◌, ◌==◌,
}
use velox_os.Prelude.Words.{u64}
use velox_os.Mm.Bitmap.{bit_test}
use velox_os.Mm.Pmm.{Pmm, total, pmm_try_alloc_page_phys, pmm_invalid_phys_addr}
use velox_os.Mm.Pmm.Marks.{count_clear}
use velox_os.Mm.Pmm.Alloc.{AllocSpec, pmm_try_alloc_page_phys-AllocSpec}
use velox_os.Mm.Paging.{
  Paging, PagingInfo, has, page_present, page_ps, page_user, write, store, zero_table, table_entry,
  get_or_create_table, alloc_table_page, new_table, ◌>>=◌, entry_addr_mask_4k,
}
use velox_os.Mm.Paging.Entry.{address, IsAlike-with_user}
use velox_os.Mm.Paging.Tree.{child-table, table_at, table_at-suc}
use velox_os.Mm.Paging.Steps.{IsTree, IsQuiet, IsQuiet-refl}
use velox_os.Mm.Paging.Steps.Retrofit.{alike-IsQuiet, store-IsAlike}
use velox_os.Mm.Paging.Steps.Create.{created-IsQuiet, created_place}

all_used_count : (f : ℕ → Bool) (n : ℕ) → ((q : ℕ) → q < n → f q ≡ true) → count_clear f n ≡ 0
unfolding count_clear
all_used_count f zero h = refl
all_used_count f (suc n) h =
    ground (arith, all_used_count f n (λ q lt. h q (omega arith)), h n (omega arith))

pub IsQuiet-more :
    {s s' : Paging} {root m : ℕ} (n : ℕ) → m ≤ n → IsQuiet s s' root m → IsQuiet s s' root n
IsQuiet-more n le a = record {
  tree = a.tree;
  keeps = a.keeps;
  same = a.same;
  nx = a.nx;
  cost = omega (arith, a.cost);
}

-- What a walk that may make `n` tables promises, with what it promises of its result. It panics only
-- without `n` free pages.
abbrev pub MayMake :
    {A : Type 0} → Paging → (root n : ℕ) → (A → Paging → Type 0) → Option (A × Paging) → Type 0
MayMake s root n Result none = s.pmm.info.free_pages < n
MayMake s root n Result (some (a, s')) = IsQuiet s s' root n × Result a s'

new_table-none : (s : Paging) (t : Pmm) → new_table (none, t) s ≡ none
unfolding new_table
new_table-none s t = refl

new_table-some :
    (s : Paging) (page : ℕ) (t : Pmm)
    → page < 2 ^ 40
    → new_table (some (page * 4096), t) s
      ≡ some (
        page * 4096,
        record s {
          tables = zero_table (page * 4096) s.tables;
          pmm = t;
          info = record (s.info) { table_pages_allocated = u64 (s.info.table_pages_allocated + 1) };
        },
      )
unfolding new_table
new_table-some s page t h =
    let is_valid : (page * 4096 == pmm_invalid_phys_addr) ≡ false = ground arith in rw is_valid refl

abbrev pub IsTableAt : (root depth place : ℕ) → ℕ → Paging → Type 0
IsTableAt root depth place c s = table_at s.tables root depth place ≡ some c

module _ (s : Paging) (root d q p i : ℕ) (user : Bool) (good : IsTree s root)
    (here : table_at s.tables root d q ≡ some p) (d_le : d ≤ 2) (i_lt : i < 512) where
  abbrev Gets : Option (ℕ × Paging) → Type 0
  Gets r = MayMake s root 1 (IsTableAt root (suc d) (q * 512 + i)) r

  link : ℕ → Paging → Option (ℕ × Paging)
  link child_phys s' = some (child_phys, write p i (table_entry user child_phys) s')

  from_pmm :
      has (s.tables p i) page_present ≡ false
      → (r : Option ℕ × Pmm) → AllocSpec s.pmm r
      → Gets ((new_table r >>= link) s)
  unfolding link
  from_pmm absent (none, t) (_, inl off) = ground (arith, good.started)
  from_pmm absent (none, t) (_, inr all_used) =
      rw (◌>>=◌, new_table-none s t)
        (omega (
          arith,
          all_used_count (bit_test s.pmm.bitmap) (total s.pmm) all_used,
          good.valid.free_count,
        ))
  from_pmm absent (some phys, t) (page, phys_page, on, takes) =
      let info : PagingInfo = record (s.info) {
        table_pages_allocated = u64 (s.info.table_pages_allocated + 1);
      } in
      rw (◌>>=◌, phys_page, new_table-some s page t (omega (arith, takes.within, good.room)))
        (
          created-IsQuiet s root d q p i page t good here d_le i_lt absent takes user info,
          created_place s root d q p i page t good here d_le i_lt absent takes user info,
        )

  absent_case : has (s.tables p i) page_present ≡ false → Gets (get_or_create_table p i user s)
  unfolding get_or_create_table alloc_table_page link
  absent_case absent = rw absent (
      from_pmm absent (pmm_try_alloc_page_phys s.pmm)
        (pmm_try_alloc_page_phys-AllocSpec good.valid))

  retrofit-IsQuiet :
      (b : Bool)
      → (b ≡ true → has (s.tables p i) page_user ≡ false)
      → IsQuiet s (if b then write p i (bit_or (s.tables p i) page_user) s else s) root 0
  retrofit-IsQuiet false h = IsQuiet-refl good
  retrofit-IsQuiet true h =
      alike-IsQuiet good (store p i (bit_or (s.tables p i) page_user) s.tables) (λ r j.
        store-IsAlike s.tables p i (bit_or (s.tables p i) page_user) r j
          (IsAlike-with_user (s.tables p i) (h refl)))

  present_case :
      has (s.tables p i) page_present ≡ true
      → has (s.tables p i) page_ps ≡ false
      → Gets (get_or_create_table p i user s)
  unfolding get_or_create_table
  present_case on plain =
      let quiet =
        retrofit-IsQuiet (user && not (has (s.tables p i) page_user)) (λ e. ground arith) in
      let place : table_at s.tables root (suc d) (q * 512 + i)
          ≡ some (bit_and (s.tables p i) entry_addr_mask_4k) =
        table_at-suc s.tables root d q i i_lt here
        ∙ rw (address (s.tables p i)) (child-table (s.tables p i) on plain) in
      rw (on, plain)
        (
          IsQuiet-more 1 (omega arith) quiet,
          quiet.keeps (suc d) (q * 512 + i) _ (omega arith) place,
        )

  -- With a place in the tree, the call ends with the table below it.
  pub get_or_create_table_lem :
      (has (s.tables p i) page_present ≡ true → has (s.tables p i) page_ps ≡ false)
      → Gets (get_or_create_table p i user s)
  get_or_create_table_lem plain = elim (Bool-cases (has (s.tables p i) page_present)) [
    | inl on ↦ present_case on (plain on)
    | inr absent ↦ absent_case absent
  ]
