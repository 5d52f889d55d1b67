-- ===== src/Mm/PmmInit/Fresh.antt =====
-- The state that `pmm_init` starts from: every bit set, every page used.
use velox_os.Prelude.{
  ℕ, zero, suc, ◌*◌, ◌^◌, ◌≤◌, ◌<◌, ◌≡◌, refl, Bool, true, arith, length-replicate, All-replicate,
  sym,
}
use velox_os.Mm.Bitmap.{bit_test-replicate}
use velox_os.Mm.Pmm.{Pmm}
use velox_os.Mm.Pmm.Marks.{IsValid, count_clear}
use velox_os.Mm.PmmInit.{fresh}

count_clear_none : (f : ℕ → Bool) (n : ℕ) → ((q : ℕ) → q < n → f q ≡ true) → count_clear f n ≡ 0
unfolding count_clear
count_clear_none f zero h = refl
count_clear_none f (suc n) h = ground (arith, h n, count_clear_none f n (λ q l. h q (omega arith)))

pub fresh-IsValid :
    (highest pages bytes base : ℕ) (old : Pmm)
    → pages ≤ 8 * bytes
    → pages ≤ 2 ^ 52
    → IsValid (fresh highest pages bytes base old)
fresh-IsValid highest pages bytes base old c h = record {
  bytes = All-replicate (λ b. b < 256) bytes 255 (omega arith);
  covers = omega (arith, length-replicate {A = ℕ} bytes 255);
  small = h;
  free_count = sym (count_clear_none _ pages (λ q l. bit_test-replicate bytes q (omega arith)));
  all_counted = omega arith;
}
