-- ===== src/Mm/Paging/Steps/Retrofit.antt =====
-- The part of `get_or_create_table` of mm/paging.c for an entry that leads to a table.
use velox_os.Prelude.{
  ℕ, ◌≤◌, ◌≡◌, refl, sym, ◌∙◌, Bool-cases, inl, inr, Bool, not, ◌&&◌, arith, bit_or, if◌then◌else◌,
  ◌==◌,
}
use velox_os.Mm.Paging.{Tables, Paging, has, page_user, write, store}
use velox_os.Mm.Paging.Pages.{ends}
use velox_os.Mm.Paging.Entry.{IsAlike, address}
use velox_os.Mm.Paging.Tree.{child, table_at, index}
use velox_os.Mm.Paging.Tree.Same.{same_translation}
use velox_os.Mm.Paging.Tree.Effects.{table_at-kept, IsAlike-refl}
use velox_os.Mm.Paging.Steps.{IsTree, IsQuiet}

child-IsAlike : {a b : ℕ} → IsAlike a b → child a ≡ child b
unfolding child ends
child-IsAlike {a} {b} h = ground (arith, h.present, h.huge, h.page, address a, address b)

-- Entries become others that are alike.
module _ {s : Paging} {root : ℕ} (good : IsTree s root) (u : Tables)
    (alike : (p i : ℕ) → IsAlike (u p i) (s.tables p i)) where
  abbrev s' : Paging
  s' = record s { tables = u }

  same_place : (k x : ℕ) → k ≤ 3 → table_at u root k x ≡ table_at s.tables root k x
  same_place k x le =
      table_at-kept s.tables u root (λ k x r j le e lt. child-IsAlike (alike r j)) k x (omega arith)

  alike-IsTree : IsTree (record s { tables = u }) root
  alike-IsTree = record {
    valid = good.valid;
    started = good.started;
    room = good.room;
    apart = λ d e q r p d_le e_le a b.
        good.apart d e q r p d_le e_le (sym (same_place d q d_le) ∙ a)
          (sym (same_place e r e_le) ∙ b);
    top = λ i present. (alike root i).huge ∙ good.top i (sym ((alike root i).present) ∙ present);
    whole = λ k x p j le e lt huge.
        (alike p j).present
        ∙ good.whole k x p j le (sym (same_place k x (omega arith)) ∙ e) lt
            (sym ((alike p j).huge) ∙ huge);
    used = λ k x p le e. good.used k x p le (sym (same_place k x le) ∙ e);
  }

  pub alike-IsQuiet : IsQuiet s (record s { tables = u }) root 0
  alike-IsQuiet = record {
    tree = alike-IsTree;
    keeps = λ k x p le e. same_place k x le ∙ e;
    same = λ v. same_translation s.tables u root v good.top (λ k p le e. alike p (index k v));
    nx = refl;
    cost = omega arith;
  }

retrofit : (user : Bool) (p i : ℕ) → Paging → Paging
retrofit user p i s =
    if user && not (has (s.tables p i) page_user)
    then write p i (bit_or (s.tables p i) page_user) s
    else s

pub store-IsAlike :
    (t : Tables) (p i e q j : ℕ) → IsAlike e (t p i) → IsAlike (store p i e t q j) (t q j)
unfolding store
store-IsAlike t p i e q j h = elim (Bool-cases (q == p && (j == i))) [
  | inl on ↦
      let is_p : q ≡ p = ground arith in let is_i : j ≡ i = ground arith in rw (on, is_p, is_i) h
  | inr off ↦ rw off (IsAlike-refl refl)
]
