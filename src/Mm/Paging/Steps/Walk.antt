-- ===== src/Mm/Paging/Steps/Walk.antt =====
-- `walk_to_pte` of mm/paging.c with `create`: the walk that makes the tables that are missing.
use velox_os.Prelude.{
  ℕ, ◌+◌, ◌≡◌, refl, ◌∙◌, Bool-cases, inl, inr, Bool, true, false, not, ◌&&◌, Option, none, some,
  arith, bit_and,
}
use velox_os.Mm.Paging.{
  Paging, M, has, page_present, page_ps, pd_index, pdpt_index, pml4_index, pt_index, walk_pd,
  walk_pdpt, walk_to_pte, get_or_create_table, entry_addr_mask_4k,
}
use velox_os.Mm.Paging.Tree.{
  table_at, index, index-lt, place, translate_at, reach, translate_at-large, translate_at-huge,
}
use velox_os.Mm.Paging.Steps.{IsTree, IsQuiet, IsQuiet-refl, IsQuiet-trans}
use velox_os.Mm.Paging.Steps.Get.{MayMake, get_or_create_table_lem, IsQuiet-more}

pub MayMake-bind :
    {A B : Type 0} (s : Paging) (root m n : ℕ) (P : A → Paging → Type 0) (Q : B → Paging → Type 0)
    (f : A → M B) (r : Option (A × Paging))
    → MayMake s root m P r
    → ((a : A) (s' : Paging) → IsQuiet s s' root m → P a s' → MayMake s' root n Q (f a s'))
    → MayMake s root (m + n) Q (elim r [ none ↦ none | some (a, s') ↦ f a s' ])
MayMake-bind s root m n P Q f none h g = omega arith
MayMake-bind {B = B} s root m n P Q f (some (a, s')) (quiet, p) g = after (f a s') (g a s' quiet p)
  where
    after : (r : Option (B × Paging)) → MayMake s' root n Q r → MayMake s root (m + n) Q r
    after none h = omega (arith, quiet.cost)
    after (some (b, s'')) (quiet', q) = (IsQuiet-trans quiet quiet', q)

-- What the walk to `v` leaves: the entry of a 4 KiB page, or a larger page.
abbrev pub Found : (root v : ℕ) → Option (ℕ × ℕ) → Paging → Type 0
Found root v none s = (a : ℕ) × (translate_at 0 s.tables root v ≡ some a)
Found root v (some (pt, i)) s = (table_at s.tables root 3 (place 3 v) ≡ some pt) × (i ≡ index 3 v)

and_not : (b : Bool) → (not b && false) ≡ false
and_not b = ground arith

module _ (root v : ℕ) (user : Bool) where
  abbrev IsAtDepth : ℕ → ℕ → Paging → Type 0
  IsAtDepth k p s = table_at s.tables root k (place k v) ≡ some p

  walk_pd_lem :
      (s : Paging) (pd : ℕ)
      → IsTree s root
      → IsAtDepth 2 pd s
      → MayMake s root 1 (Found root v) (walk_pd pd v true user s)
  unfolding walk_pd place index
  walk_pd_lem s pd good here = elim (Bool-cases (has (s.tables pd (pd_index v)) page_ps)) [
    | inl huge ↦
        let present =
          good.whole 2 (place 2 v) pd (pd_index v) (omega arith) here (index-lt 2 v) huge in
        rw huge (
          IsQuiet-more 1 (omega arith) (IsQuiet-refl good),
          (
            _,
            reach s.tables root 2 v (omega arith) here
                ∙ translate_at-large s.tables pd v present huge,
          ),
        )
    | inr plain ↦
        rw (plain, and_not (has (s.tables pd (pd_index v)) page_present))
          (MayMake-bind s root 1 0 (IsAtDepth 3) (Found root v)
            (λ pt s'. some (some (pt, pt_index v), s')) (get_or_create_table pd (pd_index v) user s)
            (get_or_create_table_lem s root 2 (place 2 v) pd (pd_index v) user good here
              (omega arith) (index-lt 2 v) (λ _. plain))
            (λ pt s' quiet at_pt. (IsQuiet-refl quiet.tree, (at_pt, refl))))
  ]

  walk_pdpt_lem :
      (s : Paging) (pdpt : ℕ)
      → IsTree s root
      → IsAtDepth 1 pdpt s
      → MayMake s root 2 (Found root v) (walk_pdpt pdpt v true user s)
  unfolding walk_pdpt place index
  walk_pdpt_lem s pdpt good here = elim (Bool-cases (has (s.tables pdpt (pdpt_index v)) page_ps)) [
    | inl huge ↦
        let present =
          good.whole 1 (place 1 v) pdpt (pdpt_index v) (omega arith) here (index-lt 1 v) huge in
        rw huge (
          IsQuiet-more 2 (omega arith) (IsQuiet-refl good),
          (
            _,
            reach s.tables root 1 v (omega arith) here
                ∙ translate_at-huge s.tables pdpt v present huge,
          ),
        )
    | inr plain ↦
        rw (plain, and_not (has (s.tables pdpt (pdpt_index v)) page_present))
          (MayMake-bind s root 1 1 (IsAtDepth 2) (Found root v) (λ pd. walk_pd pd v true user)
            (get_or_create_table pdpt (pdpt_index v) user s)
            (get_or_create_table_lem s root 1 (place 1 v) pdpt (pdpt_index v) user good here
              (omega arith) (index-lt 1 v) (λ _. plain))
            (λ pd s' quiet at_pd. walk_pd_lem s' pd quiet.tree at_pd))
  ]

  -- From the root: three tables at most.
  pub walk_to_pte_lem :
      (s : Paging)
      → IsTree s root
      → bit_and root entry_addr_mask_4k ≡ root
      → MayMake s root 3 (Found root v) (walk_to_pte root v true user s)
  unfolding walk_to_pte place index table_at
  walk_to_pte_lem s good masked =
      rw (masked, and_not (has (s.tables root (pml4_index v)) page_present))
        (MayMake-bind s root 1 2 (IsAtDepth 1) (Found root v) (λ pdpt. walk_pdpt pdpt v true user)
          (get_or_create_table root (pml4_index v) user s)
          (get_or_create_table_lem s root 0 0 root (pml4_index v) user good refl (omega arith)
            (index-lt 0 v) (good.top (pml4_index v)))
          (λ pdpt s' quiet at_pdpt. walk_pdpt_lem s' pdpt quiet.tree at_pdpt))
