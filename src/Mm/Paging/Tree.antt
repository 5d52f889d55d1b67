-- ===== src/Mm/Paging/Tree.antt =====
-- The tables of mm/paging.c as a tree: the table at a place is the one that a walk from the root
-- reaches. A place of depth `d` is a number of `d` digits to base 512, the indices of the walk.
pub mod Effects
pub mod Same
pub mod Writes
use velox_os.Prelude.{
  ℕ, zero, suc, bit_or, ◌-◌, ◌+◌, ◌*◌, ◌/◌, ◌%◌, ◌^◌, ◌≤◌, ◌<◌, ◌≡◌, refl, ap, ◌∙◌, Bool, true,
  false, not, ◌&&◌, ◌||◌, Option, none, some, bit_and, arith, ◌==◌, if◌then◌else◌,
}
use velox_os.Prelude.Bits.{bit_and-low}
use velox_os.Mm.Paging.{
  Tables, has, page_present, page_ps, entry_addr_mask_4k, pml4_index, pdpt_index, pd_index,
  pt_index, translate_pt, translate_pd, translate_pdpt, translate_with_cr3,
}
use velox_os.Mm.Paging.Pages.{ends}
use velox_os.Mm.Paging.Entry.{frame, address, address_2m, address_1g}

-- The table that an entry leads to.
unfoldable pub child : (entry : ℕ) → Option ℕ
child entry = if ends entry then none else some (bit_and entry entry_addr_mask_4k)

unfoldable pub below : Tables → (index : ℕ) → Option ℕ → Option ℕ
below t i none = none
below t i (some p) = child (t p i)

unfoldable pub table_at : Tables → (root depth place : ℕ) → Option ℕ
table_at t root zero place = if place == 0 then some root else none
table_at t root (suc depth) place = below t (place % 512) (table_at t root depth (place / 512))

-- The index that a walk to `virt_addr` uses at a depth, and the place where it is then.
unfoldable pub index : (depth virt_addr : ℕ) → ℕ
index zero v = pml4_index v
index (suc zero) v = pdpt_index v
index (suc (suc zero)) v = pd_index v
index (suc (suc (suc k))) v = pt_index v

unfoldable pub place : (depth virt_addr : ℕ) → ℕ
place zero v = 0
place (suc k) v = place k v * 512 + index k v

pub index-lt : (k v : ℕ) → index k v < 512
unfolding index
index-lt zero v = omega (arith, bit_and-low (v / 2 ^ 39) 9)
index-lt (suc zero) v = omega (arith, bit_and-low (v / 2 ^ 30) 9)
index-lt (suc (suc zero)) v = omega (arith, bit_and-low (v / 2 ^ 21) 9)
index-lt (suc (suc (suc k))) v = omega (arith, bit_and-low (v / 2 ^ 12) 9)

-- The walk of `translate_with_cr3` from a depth on.
unfoldable pub translate_at : (depth : ℕ) → Tables → (table virt_addr : ℕ) → Option ℕ
translate_at zero t p v =
    if has (t p (pml4_index v)) page_present
    then translate_pdpt t (bit_and (t p (pml4_index v)) entry_addr_mask_4k) v
    else none
translate_at (suc zero) t p v = translate_pdpt t p v
translate_at (suc (suc zero)) t p v = translate_pd t p v
translate_at (suc (suc (suc k))) t p v = translate_pt t p v

-- One step of the walk.
below-some :
    (t : Tables) (i : ℕ) (o : Option ℕ) (c : ℕ)
    → below t i o ≡ some c
    → (p : ℕ) × (o ≡ some p) × (child (t p i) ≡ some c)
unfolding below
below-some t i none c e = ground arith
below-some t i (some p) c e = (p, refl, e)

below_some : (t : Tables) (i p : ℕ) → below t i (some p) ≡ child (t p i)
unfolding below
below_some t i p = refl

module _ (t : Tables) (root : ℕ) where
  pub table_at-suc :
      {p : ℕ} (k q i : ℕ)
      → i < 512
      → table_at t root k q ≡ some p
      → table_at t root (suc k) (q * 512 + i) ≡ child (t p i)
  unfolding table_at
  table_at-suc {p} k q i h e = rw (quotient, remainder, e) (below_some t i p)
    where
      quotient : (q * 512 + i) / 512 ≡ q
      quotient = omega arith

      remainder : (q * 512 + i) % 512 ≡ i
      remainder = omega arith

  pub table_at-parent :
      {c : ℕ} (k x : ℕ)
      → table_at t root (suc k) x ≡ some c
      → (p : ℕ) × (table_at t root k (x / 512) ≡ some p) × (child (t p (x % 512)) ≡ some c)
  unfolding table_at
  table_at-parent {c} k x e = below-some t (x % 512) (table_at t root k (x / 512)) c e

  pub place-parent :
      {c : ℕ} (k v : ℕ)
      → table_at t root (suc k) (place (suc k) v) ≡ some c
      → (p : ℕ) × (table_at t root k (place k v) ≡ some p) × (child (t p (index k v)) ≡ some c)
  unfolding place
  place-parent k v e =
      rw (quotient, remainder) at (table_at-parent k (place k v * 512 + index k v) e)
    where
      quotient : (place k v * 512 + index k v) / 512 ≡ place k v
      quotient = omega (arith, index-lt k v)

      remainder : (place k v * 512 + index k v) % 512 ≡ index k v
      remainder = omega (arith, index-lt k v)

pub child-some :
    (e : ℕ) {c : ℕ}
    → child e ≡ some c
    → (has e page_present ≡ true) × (has e page_ps ≡ false) × (bit_and e entry_addr_mask_4k ≡ c)
unfolding child ends
child-some e h = ground arith

pub translate_at-child :
    (t : Tables) (p : ℕ) {c : ℕ} (k v : ℕ)
    → k ≤ 2
    → child (t p (index k v)) ≡ some c
    → translate_at k t p v ≡ translate_at (suc k) t c v
unfolding translate_at index translate_pdpt translate_pd
translate_at-child t p zero v h e = ground (arith, child-some (t p (pml4_index v)) e)
translate_at-child t p (suc zero) v h e = ground (arith, child-some (t p (pdpt_index v)) e)
translate_at-child t p (suc (suc zero)) v h e = ground (arith, child-some (t p (pd_index v)) e)
translate_at-child t p (suc (suc (suc k))) v h e = absurd (omega arith)

pub translate_at-absent :
    (t : Tables) (p : ℕ) (k v : ℕ)
    → has (t p (index k v)) page_present ≡ false
    → translate_at k t p v ≡ none
unfolding translate_at index translate_pdpt translate_pd translate_pt
translate_at-absent t p zero v e = ground arith
translate_at-absent t p (suc zero) v e = ground arith
translate_at-absent t p (suc (suc zero)) v e = ground arith
translate_at-absent t p (suc (suc (suc k))) v e = ground arith

-- Entries that end the walk.
pub translate_at-leaf :
    (t : Tables) (p v : ℕ)
    → translate_at 3 t p v ≡ (
        if has (t p (index 3 v)) page_present
        then some (bit_or (frame (t p (index 3 v)) * 4096) (bit_and v 4095))
        else none)
unfolding translate_at translate_pt index
translate_at-leaf t p v = rw (address (t p (pt_index v))) refl

pub translate_at-huge :
    (t : Tables) (p v : ℕ)
    → has (t p (index 1 v)) page_present ≡ true
    → has (t p (index 1 v)) page_ps ≡ true
    → translate_at 1 t p v
      ≡ some (bit_or (frame (t p (index 1 v)) / 512 / 512 * 2 ^ 30) (bit_and v (2 ^ 30 - 1)))
unfolding translate_at translate_pdpt index
translate_at-huge t p v a b = rw (a, b, address_1g (t p (pdpt_index v))) refl

pub translate_at-large :
    (t : Tables) (p v : ℕ)
    → has (t p (index 2 v)) page_present ≡ true
    → has (t p (index 2 v)) page_ps ≡ true
    → translate_at 2 t p v
      ≡ some (bit_or (frame (t p (index 2 v)) / 512 * 2 ^ 21) (bit_and v (2 ^ 21 - 1)))
unfolding translate_at translate_pd index
translate_at-large t p v a b = rw (a, b, address_2m (t p (pd_index v))) refl

-- The zero entry.
pub present_zero : has 0 page_present ≡ false
unfolding has
present_zero = refl

pub huge_zero : has 0 page_ps ≡ false
unfolding has
huge_zero = refl

pub child-zero : child 0 ≡ none
unfolding child ends has
child-zero = refl

pub child-table :
    (e : ℕ) → has e page_present ≡ true → has e page_ps ≡ false → child e ≡ some (frame e * 4096)
unfolding child ends
child-table e a b = rw (a, b, address e) refl

-- A table on the walk to an address decides the address.
pub reach :
    (t : Tables) (root k v : ℕ) {p : ℕ}
    → k ≤ 3
    → table_at t root k (place k v) ≡ some p
    → translate_at 0 t root v ≡ translate_at k t p v
unfolding table_at place
reach t root zero v {p} h e =
    let same : root ≡ p = ground arith in ap (λ q. translate_at 0 t q v) same
reach t root (suc k) v h e =
    let (q, here, leads) = place-parent t root k v e in
    reach t root k v (omega arith) here ∙ translate_at-child t q k v (omega arith) leads

pub table_at-place :
    (t : Tables) (root k v : ℕ)
    → table_at t root (suc k) (place (suc k) v)
      ≡ below t (index k v) (table_at t root k (place k v))
unfolding table_at place
table_at-place t root k v = rw (quotient, remainder) refl
  where
    quotient : (place k v * 512 + index k v) / 512 ≡ place k v
    quotient = omega (arith, index-lt k v)

    remainder : (place k v * 512 + index k v) % 512 ≡ index k v
    remainder = omega (arith, index-lt k v)
