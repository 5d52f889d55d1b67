-- ===== src/Mm/Paging/Steps.antt =====
-- Steps of mm/paging.c that keep the tree of tables and every translation.
pub mod Retrofit
pub mod Create
pub mod Get
pub mod Walk
pub mod Leaf
pub mod Find
pub mod SamePage
pub mod Drop
pub mod FreeEmpty
use velox_os.Prelude.{
  ℕ, zero, suc, ◌+◌, ◌*◌, ◌/◌, ◌%◌, ◌^◌, ◌≤◌, ◌<◌, ◌≡◌, refl, ◌∙◌, Bool, true, false, Option, none,
  some, arith, List,
}
use velox_os.Mm.Bitmap.{bit_test}
use velox_os.Mm.Pmm.{Pmm, total}
use velox_os.Mm.Pmm.Marks.{IsValid}
use velox_os.Mm.Paging.{Tables, Paging, has, page_present, page_ps}
use velox_os.Mm.Paging.Tree.{table_at, translate_at}
use velox_os.Mm.Paging.Tree.Same.{IsTop}
use velox_os.Mm.Paging.Tree.Writes.{IsApart}

-- The tables of a root are pages in use.
abbrev pub IsUsed : Pmm → Tables → (root : ℕ) → Type 0
IsUsed pmm t root =
    (k x p : ℕ)
    → k ≤ 3
    → table_at t root k x ≡ some p
    → (p % 4096 ≡ 0) × (p / 4096 < total pmm) × (bit_test pmm.bitmap (p / 4096) ≡ true)

-- No entry above the page tables says huge without being present.
abbrev pub IsWhole : Tables → (root : ℕ) → Type 0
IsWhole t root =
    (k x p j : ℕ)
    → k ≤ 2
    → table_at t root k x ≡ some p
    → j < 512
    → has (t p j) page_ps ≡ true
    → has (t p j) page_present ≡ true

-- The tables of a root are a tree of pages in use.
pub record IsTree (s : Paging) (root : ℕ) : Type 0 where
  pub valid : IsValid s.pmm
  pub started : s.pmm.initialized ≡ true
  pub room : total s.pmm ≤ 2 ^ 40
  pub apart : IsApart s.tables root
  pub top : IsTop s.tables root
  pub whole : IsWhole s.tables root
  pub used : IsUsed s.pmm s.tables root

-- A step that at most adds tables, `n` at most.
pub record IsQuiet (s s' : Paging) (root n : ℕ) : Type 0 where
  pub tree : IsTree s' root
  pub keeps :
      (k x p : ℕ)
      → k ≤ 3
      → table_at s.tables root k x ≡ some p
      → table_at s'.tables root k x ≡ some p
  pub same : (v : ℕ) → translate_at 0 s'.tables root v ≡ translate_at 0 s.tables root v
  pub nx : s'.nx_enabled ≡ s.nx_enabled
  pub cost : s.pmm.info.free_pages ≤ s'.pmm.info.free_pages + n

pub IsQuiet-refl : {s : Paging} {root : ℕ} → IsTree s root → IsQuiet s s root 0
IsQuiet-refl tree = record {
  tree = tree;
  keeps = λ k x p le e. e;
  same = λ v. refl;
  nx = refl;
  cost = omega arith;
}

pub IsQuiet-trans :
    {s s' s'' : Paging} {root m n : ℕ}
    → IsQuiet s s' root m
    → IsQuiet s' s'' root n
    → IsQuiet s s'' root (m + n)
IsQuiet-trans a b = record {
  tree = b.tree;
  keeps = λ k x p le e. b.keeps k x p le (a.keeps k x p le e);
  same = λ v. b.same v ∙ a.same v;
  nx = b.nx ∙ a.nx;
  cost = omega (arith, a.cost, b.cost);
}
