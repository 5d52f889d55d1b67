-- ===== src/Mm/Bitmap.antt =====
-- The bitmap of mm/pmm.c: one bit for a page, set while the page is in use.
use velox_os.Prelude.{
  ℕ, zero, suc, ◌-◌, ◌*◌, ◌/◌, ◌%◌, ◌^◌, ◌<◌, ◌≡◌, refl, Bool, true, false, not, ◌&&◌, List,
  bit_and, bit_or, arith, ◌==◌, if◌then◌else◌, ltb, ◌||◌, length, replicate, get_or-replicate,
  length-set, get_or, set, All, get_or-set, All-set, All-get_or,
}
use velox_os.Prelude.Bits.{bit_and-low}

-- `bit & 7u`
abbrev low3 : ℕ → ℕ
low3 bit = bit_and bit 7

unfoldable pub bit_test : List ℕ → ℕ → Bool
bit_test bitmap bit = not (bit_and (get_or bitmap (bit / 8) 0) (2 ^ low3 bit) == 0)

unfoldable pub bit_set : List ℕ → ℕ → List ℕ
bit_set bitmap bit = set bitmap (bit / 8) (bit_or (get_or bitmap (bit / 8) 0) (2 ^ low3 bit))

pub bit_clear : List ℕ → ℕ → List ℕ
bit_clear bitmap bit =
    set bitmap (bit / 8) (bit_and (get_or bitmap (bit / 8) 0) (255 - 2 ^ low3 bit))

abbrev pub IsBytes : List ℕ → Type 0
IsBytes = All (λ b. b < 256)

-- The three operations on one byte, checked at each byte and bit.
all_below : ℕ → (ℕ → Bool) → Bool
all_below zero p = true
all_below (suc n) p = p n && all_below n p

all_below_lem : (n : ℕ) (p : ℕ → Bool) (x : ℕ) → all_below n p ≡ true → x < n → p x ≡ true
unfolding all_below
all_below_lem zero p x h lt = absurd (omega arith)
all_below_lem (suc n) p x h lt = ground (arith, all_below_lem n p x)

abbrev has_bit : ℕ → ℕ → Bool
has_bit b k = not (bit_and b (2 ^ k) == 0)

infix 50 ◌eqb◌
abbrev ◌eqb◌ : Bool → Bool → Bool
true eqb b = b
false eqb b = not b

eqb_lem : (a b : Bool) → (a eqb b) ≡ true → a ≡ b
eqb_lem a b h = ground arith

abbrev set_row : ℕ → ℕ → ℕ → Bool
set_row b k j = has_bit (bit_or b (2 ^ k)) j eqb (if k == j then true else has_bit b j)

abbrev clear_row : ℕ → ℕ → ℕ → Bool
clear_row b k j = has_bit (bit_and b (255 - 2 ^ k)) j eqb (if k == j then false else has_bit b j)

table : (ℕ → ℕ → ℕ → Bool) → Bool
unfolding all_below
table row = all_below 256 (λ b. all_below 8 (λ k. all_below 8 (λ j. row b k j)))

table_lem :
    (row : ℕ → ℕ → ℕ → Bool) (b k j : ℕ)
    → table row ≡ true
    → b < 256
    → k < 8
    → j < 8
    → row b k j ≡ true
unfolding table
table_lem row b k j t hb hk hj =
    let rows = all_below_lem 256 (λ x. all_below 8 (λ y. all_below 8 (row x y))) b t hb in
    let bits = all_below_lem 8 (λ y. all_below 8 (row b y)) k rows hk in
    all_below_lem 8 (row b k) j bits hj

set_table : table set_row ≡ true
unfolding table
set_table = refl

clear_table : table clear_row ≡ true
unfolding table
clear_table = refl

module _ (b k j : ℕ) (hb : b < 256) (hk : k < 8) (hj : j < 8) where
  has_bit-set : has_bit (bit_or b (2 ^ k)) j ≡ (if k == j then true else has_bit b j)
  has_bit-set = eqb_lem _ _ (table_lem set_row b k j set_table hb hk hj)

  has_bit-clear : has_bit (bit_and b (255 - 2 ^ k)) j ≡ (if k == j then false else has_bit b j)
  has_bit-clear = eqb_lem _ _ (table_lem clear_row b k j clear_table hb hk hj)

-- A byte stays a byte, and setting a bit that was clear is undone by clearing it.
abbrev byte_row : ℕ → ℕ → ℕ → Bool
byte_row b k j =
    ltb (bit_or b (2 ^ k)) 256
    && ltb (bit_and b (255 - 2 ^ k)) 256
    && (has_bit b k || (bit_and (bit_or b (2 ^ k)) (255 - 2 ^ k) == b))

byte_table : table byte_row ≡ true
unfolding table
byte_table = refl

byte_facts :
    (b k : ℕ)
    → b < 256
    → k < 8
    → (bit_or b (2 ^ k) < 256)
      × (bit_and b (255 - 2 ^ k) < 256)
      × (has_bit b k ≡ false → bit_and (bit_or b (2 ^ k)) (255 - 2 ^ k) ≡ b)
byte_facts b k hb hk = ground (arith, table_lem byte_row b k 0 byte_table hb hk (omega arith))

low3-mod : (bit : ℕ) → low3 bit ≡ bit % 8
low3-mod bit = bit_and-low bit 3

pub length-bit_set : (bitmap : List ℕ) (p : ℕ) → length (bit_set bitmap p) ≡ length bitmap
unfolding bit_set
length-bit_set bitmap p = length-set bitmap (p / 8) _

pub length-bit_clear : (bitmap : List ℕ) (p : ℕ) → length (bit_clear bitmap p) ≡ length bitmap
unfolding bit_clear
length-bit_clear bitmap p = length-set bitmap (p / 8) _

module _ (bitmap : List ℕ) (p : ℕ) (bytes : IsBytes bitmap) (inside : p < 8 * length bitmap) where
  abbrev byte : ℕ → ℕ
  byte q = get_or bitmap (q / 8) 0

  byte-lt : (q : ℕ) → byte q < 256
  byte-lt q = All-get_or (λ b. b < 256) bitmap (q / 8) 0 bytes (omega arith)

  low3-lt : (q : ℕ) → low3 q < 8
  low3-lt q = omega (arith, low3-mod q)

  same_bit : (q : ℕ) → p / 8 ≡ q / 8 → (low3 p == low3 q) ≡ (p == q)
  same_bit q e = ground (arith, low3-mod p, low3-mod q)

  byte-p : get_or bitmap (p / 8) 0 < 256
  byte-p = byte-lt p

  pub bit_set-IsBytes : IsBytes (bit_set bitmap p)
  unfolding bit_set
  bit_set-IsBytes =
      All-set (λ b. b < 256) bitmap (p / 8) _ bytes
        (byte_facts (byte p) (low3 p) byte-p (low3-lt p)).0

  pub bit_clear-IsBytes : IsBytes (bit_clear bitmap p)
  unfolding bit_clear
  bit_clear-IsBytes =
      All-set (λ b. b < 256) bitmap (p / 8) _ bytes
        (byte_facts (byte p) (low3 p) byte-p (low3-lt p)).1

  -- In a bitmap of bytes, setting a bit inside it changes the test of that bit alone.
  pub bit_test-bit_set :
      (q : ℕ) → bit_test (bit_set bitmap p) q ≡ (if p == q then true else bit_test bitmap q)
  unfolding bit_test bit_set
  bit_test-bit_set q = ground (
    arith,
    get_or-set bitmap (p / 8) (q / 8) (bit_or (byte p) (2 ^ low3 p)) 0,
    has_bit-set (byte p) (low3 p) (low3 q) byte-p (low3-lt p) (low3-lt q),
    same_bit q,
  )

  -- In a bitmap of bytes, clearing a bit inside it changes the test of that bit alone.
  pub bit_test-bit_clear :
      (q : ℕ) → bit_test (bit_clear bitmap p) q ≡ (if p == q then false else bit_test bitmap q)
  unfolding bit_test bit_clear
  bit_test-bit_clear q = ground (
    arith,
    get_or-set bitmap (p / 8) (q / 8) (bit_and (byte p) (255 - 2 ^ low3 p)) 0,
    has_bit-clear (byte p) (low3 p) (low3 q) byte-p (low3-lt p) (low3-lt q),
    same_bit q,
  )

full_byte : all_below 8 (has_bit 255) ≡ true
unfolding all_below
full_byte = refl

pub bit_test-replicate : (n q : ℕ) → q < 8 * n → bit_test (replicate n 255) q ≡ true
unfolding bit_test
bit_test-replicate n q h =
    rw (get_or-replicate {A = ℕ} n 255 0 (q / 8) (omega arith))
      (all_below_lem 8 (has_bit 255) (low3 q) full_byte (omega (arith, low3-mod q)))
