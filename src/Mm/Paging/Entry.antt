-- ===== src/Mm/Paging/Entry.antt =====
-- The entries of mm/paging.c: presence, size and address as arithmetic.
use velox_os.Prelude.{
  ℕ, ◌+◌, ◌*◌, ◌/◌, ◌%◌, ◌^◌, ◌<◌, ◌≡◌, refl, ◌∙◌, Bool, true, false, not, ◌&&◌, bit_and, bit_or,
  arith, ◌==◌, if◌then◌else◌, Bool-cases, inl, inr,
}
use velox_os.Prelude.Bits.{
  bit_and-high, bit_and-power, bit_or-power, bit_or-low, two-pow-pos, bit_or-zero,
}
use velox_os.Mm.Paging.Pages.{page_entry}
use velox_os.Mm.Paging.{
  page_present, page_user, page_ps, entry_addr_mask_4k, entry_addr_mask_2m, entry_addr_mask_1g, has,
  table_entry, or_if, paging_flags_to_hw,
}

pub has_lem : (w k : ℕ) → has w (2 ^ k) ≡ (w / 2 ^ k % 2 == 1)
unfolding has
has_lem w k = rw (bit_and-power w k) (by_digit (w / 2 ^ k % 2) (omega arith))
  where
    by_digit : (b : ℕ) → b < 2 → not (b * 2 ^ k == 0) ≡ (b == 1)
    by_digit b h = elim (Bool-cases (b == 0)) [
      | inl e ↦ ground arith
      | inr e ↦ ground (arith, two-pow-pos k)
    ]

-- The page number in an entry.
unfoldable pub frame : ℕ → ℕ
frame e = e / 4096 % 2 ^ 40

pub frame-lt : (e : ℕ) → frame e < 2 ^ 40
unfolding frame
frame-lt e = omega arith

pub is_present : (e : ℕ) → has e page_present ≡ (e % 2 == 1)
is_present e = ground (arith, has_lem e 0)

pub is_huge : (e : ℕ) → has e page_ps ≡ (e / 128 % 2 == 1)
is_huge e = has_lem e 7

pub is_user : (e : ℕ) → has e page_user ≡ (e / 4 % 2 == 1)
is_user e = has_lem e 2

pub address : (e : ℕ) → bit_and e entry_addr_mask_4k ≡ frame e * 4096
unfolding frame
address e = bit_and-high e 40 12

pub address_2m : (e : ℕ) → bit_and e entry_addr_mask_2m ≡ frame e / 512 * 2 ^ 21
unfolding frame
address_2m e = omega (arith, bit_and-high e 31 21)

pub address_1g : (e : ℕ) → bit_and e entry_addr_mask_1g ≡ frame e / 512 / 512 * 2 ^ 30
unfolding frame
address_1g e = omega (arith, bit_and-high e 22 30)

-- The same to a walk.
pub record IsAlike (a b : ℕ) : Type 0 where
  pub present : has a page_present ≡ has b page_present
  pub huge : has a page_ps ≡ has b page_ps
  pub page : frame a ≡ frame b

pub with_user : (e : ℕ) → has e page_user ≡ false → bit_or e page_user ≡ e + 4
with_user e h = ground (arith, bit_or-power e 2, is_user e)

pub IsAlike-with_user : (e : ℕ) → has e page_user ≡ false → IsAlike (bit_or e page_user) e
unfolding frame
IsAlike-with_user e h = rw (with_user e h) record {
  present = ground (arith, is_present e, is_present (e + 4), is_user e);
  huge = ground (arith, is_huge e, is_huge (e + 4), is_user e);
  page = ground (arith, is_user e);
}

pub table_entry_lem :
    (user : Bool) (page : ℕ)
    → table_entry user (page * 4096) ≡ page * 4096 + (if user then 7 else 3)
unfolding table_entry
table_entry_lem false page =
    ground (arith, bit_or-low page 1 12, bit_or-zero page, bit_or-power (page * 4096 + 1) 1)
table_entry_lem true page = ground (
  arith,
  bit_or-low page 1 12,
  bit_or-zero page,
  bit_or-power (page * 4096 + 1) 1,
  bit_or-power (page * 4096 + 3) 2,
)

-- What each bit of the hardware flags is.
abbrev flag : (test : Bool) (k : ℕ) → ℕ
flag test k = if test then 2 ^ k else 0

or_if_lem : (test : Bool) (k hw : ℕ) → hw / 2 ^ k % 2 ≡ 0 → or_if test (2 ^ k) hw ≡ hw + flag test k
unfolding or_if
or_if_lem false k hw h = omega arith
or_if_lem true k hw h = rw (bit_or-power hw k, h) (omega arith)

-- The bits below the address that `paging_flags_to_hw` sets.
abbrev pub low_flags : (writable user global through uncached : Bool) → ℕ
low_flags writable user global through uncached =
    flag writable 1 + flag user 2 + flag global 8 + flag through 3 + flag uncached 4

module _ (writable user global through uncached no_exec : Bool) where
  or_flags :
      or_if no_exec (2 ^ 63) (
        or_if uncached (2 ^ 4) (
          or_if through
            (2 ^ 3)
            (or_if global (2 ^ 8) (or_if user (2 ^ 2) (or_if writable (2 ^ 1) 0)))))
      ≡ low_flags writable user global through uncached + flag no_exec 63
  or_flags =
      rw
        (
          first,
          or_if_lem user 2 (flag writable 1) (ground arith),
          or_if_lem global 8 (flag writable 1 + flag user 2) (ground arith),
          or_if_lem through 3 (flag writable 1 + flag user 2 + flag global 8) (ground arith),
          or_if_lem uncached 4 (flag writable 1 + flag user 2 + flag global 8 + flag through 3)
              (ground arith),
          or_if_lem no_exec 63 (low_flags writable user global through uncached) (ground arith),
        )
        refl
    where
      first : or_if writable (2 ^ 1) 0 ≡ flag writable 1
      first = or_if_lem writable 1 0 refl ∙ omega arith

abbrev pub hw_low : ℕ → ℕ
hw_low flags = low_flags (has flags 1) (has flags 2) (has flags 8) (has flags 32) (has flags 16)

paging_flags_to_hw_lem :
    (nx : Bool) (flags : ℕ)
    → paging_flags_to_hw nx flags ≡ hw_low flags + flag (not (has flags 4) && nx) 63
unfolding paging_flags_to_hw
paging_flags_to_hw_lem nx flags =
    or_flags (has flags 1) (has flags 2) (has flags 8) (has flags 32) (has flags 16)
      (not (has flags 4) && nx)

or_present :
    (page low high : ℕ)
    → low + 1 < 4096
    → low % 2 ≡ 0
    → bit_or (page * 4096) (bit_or (low + high * 4096) 1) ≡ bit_or page high * 4096 + low + 1
or_present page low high small even =
    rw (odd, bit_or-low page (low + high * 4096 + 1) 12, above) (omega arith)
  where
    odd : bit_or (low + high * 4096) 1 ≡ low + high * 4096 + 1
    odd = omega (arith, bit_or-power (low + high * 4096) 0)

    above : (low + high * 4096 + 1) / 2 ^ 12 ≡ high
    above = omega arith

or_no_exec : (page : ℕ) (n : Bool) → page < 2 ^ 40 → bit_or page (flag n 51) ≡ page + flag n 51
or_no_exec page false h = bit_or-zero page ∙ omega arith
or_no_exec page true h = ground (arith, bit_or-power page 51)

pub page_entry_lem :
    (nx : Bool) (page flags : ℕ)
    → page < 2 ^ 40
    → page_entry nx (page * 4096) flags
      ≡ (page + flag (not (has flags 4) && nx) 51) * 4096 + hw_low flags + 1
unfolding page_entry
page_entry_lem nx page flags h =
    rw
      (
        paging_flags_to_hw_lem nx flags,
        shifted,
        or_present page (hw_low flags) (flag (not (has flags 4) && nx) 51) (ground arith)
            (ground arith),
        or_no_exec page (not (has flags 4) && nx) h,
      )
      refl
  where
    shifted :
        hw_low flags + flag (not (has flags 4) && nx) 63
        ≡ hw_low flags + flag (not (has flags 4) && nx) 51 * 4096
    shifted = ground arith

-- The entry that `get_or_create_table` makes for a page in the range of an entry's address.
pub record LeadsTo (entry page : ℕ) : Type 0 where
  pub present : has entry page_present ≡ true
  pub table : has entry page_ps ≡ false
  pub to : frame entry ≡ page

pub table_entry-LeadsTo :
    (user : Bool) (page : ℕ) → page < 2 ^ 40 → LeadsTo (table_entry user (page * 4096)) page
unfolding frame
table_entry-LeadsTo user page h =
    let bits : ℕ = if user then 7 else 3 in
    let e : ℕ = page * 4096 + (if user then 7 else 3) in
    rw (table_entry_lem user page) record {
      present = ground (arith, is_present e);
      table = ground (arith, is_huge e);
      to = ground arith;
    }
