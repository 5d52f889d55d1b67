-- ===== src/Mm/Paging/Steps/SamePage.antt =====
-- Addresses of one page, in mm/paging.c, have a translation together.
use velox_os.Prelude.{ℕ, ◌/◌, ◌^◌, ◌≡◌, none, arith}
use velox_os.Prelude.Bits.{bit_and-low}
use velox_os.Mm.Paging.{Tables, pml4_index, pdpt_index, pd_index, pt_index, translate_with_cr3}
use velox_os.Mm.Paging.Steps.Leaf.{page_number}

module _ (t : Tables) (v w : ℕ) (same : page_number w ≡ page_number v) where
  same_pml4 : pml4_index w ≡ pml4_index v
  unfolding page_number
  same_pml4 = omega (arith, same, bit_and-low (v / 2 ^ 39) 9, bit_and-low (w / 2 ^ 39) 9)

  same_pdpt : pdpt_index w ≡ pdpt_index v
  unfolding page_number
  same_pdpt = omega (arith, same, bit_and-low (v / 2 ^ 30) 9, bit_and-low (w / 2 ^ 30) 9)

  same_pd : pd_index w ≡ pd_index v
  unfolding page_number
  same_pd = omega (arith, same, bit_and-low (v / 2 ^ 21) 9, bit_and-low (w / 2 ^ 21) 9)

  same_pt : pt_index w ≡ pt_index v
  unfolding page_number
  same_pt = omega (arith, same, bit_and-low (v / 2 ^ 12) 9, bit_and-low (w / 2 ^ 12) 9)

  pub same_page-none :
      (root : ℕ) → translate_with_cr3 t root v ≡ none → translate_with_cr3 t root w ≡ none
  unfolding translate_with_cr3
  same_page-none root e = rw (same_pml4, same_pdpt, same_pd, same_pt) (ground arith)
