-- ===== src/Fs/Fat32/Names.antt =====
-- The names of directory entries in fs/fat32.c: the long-name accumulator and the 8.3 names.
pub mod Fragments
use velox_os.Prelude.{
  ℕ, zero, suc, ◌+◌, ◌-◌, ◌*◌, ◌/◌, ◌%◌, ◌^◌, ◌≡◌, Bool, true, false, not, ◌&&◌, ◌||◌, List, [],
  ◌∷◌, ◌++◌, get_or, set, replicate, ltb, leb, ◌==◌, if◌then◌else◌, bit_and, bit_or,
}
use velox_os.Fs.Vfs.{Bytes}
use velox_os.Fs.Vfs.Paths.{take}
use velox_os.Fs.Gpt.{le_at, bytes_at}

-- LFN_MAX_SLOTS * 13
abbrev pub lfn_units : ℕ
lfn_units = 260

-- `lfn_state_t`
pub record Lfn : Type 0 where
  pub chars : List ℕ
  pub total : ℕ
  pub expected_seq : ℕ
  pub checksum : ℕ
  pub valid : Bool

unfoldable pub checksum_loop : Bytes → (sum : ℕ) → ℕ
checksum_loop [] sum = sum
checksum_loop (c ∷ name) sum =
    checksum_loop name (((if bit_and sum 1 == 0 then 0 else 0x80) + sum / 2 + c) % 256)

unfoldable pub lfn_checksum : (name11 : Bytes) → ℕ
unfolding checksum_loop
lfn_checksum name11 = checksum_loop name11 0

-- The loop that shifts the units below `i` to the right by 13.
unfoldable pub shift_units : (i : ℕ) → List ℕ → List ℕ
shift_units zero chars = chars
shift_units (suc i) chars = shift_units i (set chars (i + 13) (get_or chars i 0))

-- The units written to `chars` from index `i` on.
unfoldable pub write_units : (i : ℕ) → List ℕ → List ℕ → List ℕ
write_units i [] chars = chars
write_units i (u ∷ us) chars = write_units (i + 1) us (set chars i u)

-- `n` code units at an offset.
unfoldable pub units_at : (n : ℕ) → Bytes → (offset : ℕ) → List ℕ
unfolding le_at
units_at zero buf offset = []
units_at (suc n) buf offset = le_at 2 buf offset ∷ units_at n buf (offset + 2)

-- `name1`, `name2` and `name3` of the entry at an offset.
unfoldable pub fragment : Bytes → (offset : ℕ) → List ℕ
unfolding units_at
fragment buf offset =
    units_at 5 buf (offset + 1) ++ (units_at 6 buf (offset + 14) ++ units_at 2 buf (offset + 28))

-- `us` are the 13 units of the entry.
unfoldable pub lfn_push : Lfn → (us : List ℕ) → Lfn
unfolding shift_units write_units
lfn_push lfn us =
    if ltb lfn_units (lfn.total + 13) then record lfn { valid = false } else record lfn {
      chars = write_units 0 us (shift_units lfn.total lfn.chars);
      total = lfn.total + 13;
    }

-- The bytes of one code unit.
unfoldable pub utf8_unit : ℕ → Bytes
utf8_unit cp =
    if ltb cp 0x80
    then cp ∷ []
    else if ltb cp 0x800
    then bit_or 0xC0 (cp / 2 ^ 6) ∷ bit_or 0x80 (bit_and cp 0x3F) ∷ []
    else bit_or 0xE0 (cp / 2 ^ 12)
      ∷ bit_or 0x80 (bit_and (cp / 2 ^ 6) 0x3F)
      ∷ bit_or 0x80 (bit_and cp 0x3F)
      ∷ []

-- The bytes before the NUL that ends them, of the first `src_len` units.
unfoldable pub utf16le_to_utf8 : (src : List ℕ) → (src_len : ℕ) → Bytes
unfolding utf8_unit
utf16le_to_utf8 src zero = []
utf16le_to_utf8 [] (suc n) = []
utf16le_to_utf8 (cp ∷ src) (suc n) =
    let rest = utf16le_to_utf8 src n in if cp == 0 then [] else utf8_unit cp ++ rest

-- The length without trailing spaces.
unfoldable pub stripped : Bytes → (n : ℕ) → ℕ
stripped s zero = zero
stripped s (suc n) = let less = stripped s n in if get_or s n 0 == b' ' then less else suc n

unfoldable pub lower : ℕ → ℕ
lower c = if leb b'A' c && leb c b'Z' then c + 32 else c

unfoldable pub lowered : Bytes → Bytes
unfolding lower
lowered [] = []
lowered (c ∷ s) = lower c ∷ lowered s

-- The bytes before the first NUL.
unfoldable pub c_string : Bytes → Bytes
c_string [] = []
c_string (c ∷ s) = if c == 0 then [] else c ∷ c_string s

-- The name of the entry at an offset, as the string that ends at its first NUL.
unfoldable pub build_83_name : Bytes → (offset : ℕ) → Bytes
unfolding bytes_at stripped lowered c_string
build_83_name buf offset =
    let name = bytes_at 8 buf offset in
    let ext = bytes_at 3 buf (offset + 8) in
    let base = lowered (take (stripped name 8) name) in
    let tail = lowered (take (stripped ext 3) ext) in
    c_string (if ltb 0 (stripped ext 3) then base ++ b'.' ∷ tail else base)
