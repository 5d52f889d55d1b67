-- ===== src/Prelude/Words.antt =====
-- The unsigned arithmetic of C at 64 bits: wrap-around, alignment, and the bits of a byte.
use Prim.Native.Nat.{ℕ, ◌+◌, ◌-◌, ◌*◌, ◌/◌, ◌%◌, ◌^◌, ◌<◌, bit_and}
use mathlib.Core.Path.{◌≡◌}
use native.Mathlib.Omega.{arith}
use velox_os.Prelude.Bits.{bit_and-high}

abbrev pub u64 : ℕ → ℕ
u64 x = x % 2 ^ 64

-- `a - b` with wrap-around; `a` and `b` are words.
abbrev pub sub_u64 : ℕ → ℕ → ℕ
sub_u64 a b = (a + 2 ^ 64 - b) % 2 ^ 64

abbrev pub u64_max : ℕ
u64_max = 2 ^ 64 - 1

-- `~x`
abbrev pub not_u64 : ℕ → ℕ
not_u64 x = 2 ^ 64 - 1 - x

-- The static inline helpers that pmm.c, vmalloc.c and paging.c each declare.
unfoldable pub align_up : ℕ → ℕ → ℕ
align_up value align = bit_and (sub_u64 (u64 (value + align)) 1) (not_u64 (align - 1))

unfoldable pub align_down : ℕ → ℕ → ℕ
align_down value align = bit_and value (not_u64 (align - 1))

pub align_down_page : (v : ℕ) → v < 2 ^ 64 → align_down v 4096 ≡ v / 4096 * 4096
unfolding align_down
align_down_page v h = omega (arith, bit_and-high v 52 12)

-- On every word, those included at which the sum wraps.
pub align_up_page : (v : ℕ) → v < 2 ^ 64 → align_up v 4096 ≡ u64 (v + 4095) / 4096 * 4096
unfolding align_up
align_up_page v h = omega (arith, bit_and-high (sub_u64 (u64 (v + 4096)) 1) 52 12)

pub align_up_eight : (v : ℕ) → v < 2 ^ 64 → align_up v 8 ≡ u64 (v + 7) / 8 * 8
unfolding align_up
align_up_eight v h = omega (arith, bit_and-high (sub_u64 (u64 (v + 8)) 1) 61 3)
