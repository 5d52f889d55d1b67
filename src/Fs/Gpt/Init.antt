-- ===== src/Fs/Gpt/Init.antt =====
-- What gpt_init leaves in the table, against the fields of the entries as UEFI lays them out.
use velox_os.Prelude.{
  ℕ, zero, suc, ◌+◌, ◌*◌, ◌%◌, ◌^◌, ◌-◌, Bool, true, ◌&&◌, List, [], ◌∷◌, ◌==◌, if◌then◌else◌,
}
use velox_os.Fs.Vfs.{Bytes}
use velox_os.Fs.Vfs.Paths.{take, drop}
use velox_os.Fs.Gpt.{Extent, Gpt}

-- The `n` bytes from an offset on, and the number they hold, the least byte first.
abbrev pub field : (n : ℕ) → Bytes → (offset : ℕ) → Bytes
field n buf offset = take n (drop offset buf)

unfoldable pub little : Bytes → ℕ
little [] = 0
little (b ∷ bs) = b + 256 * little bs

abbrev pub number : (n : ℕ) → Bytes → (offset : ℕ) → ℕ
number n buf offset = little (field n buf offset)

abbrev pub all_zero : Bytes → Bool
all_zero [] = true
all_zero (b ∷ bs) = (b == 0) && all_zero bs

abbrev pub efi_part : Bytes
efi_part = b'E' ∷ b'F' ∷ b'I' ∷ b' ' ∷ b'P' ∷ b'A' ∷ b'R' ∷ b'T' ∷ []

-- The partition of an entry: its sectors run from the first to the last, both included.
abbrev pub extent_of : Bytes → (offset : ℕ) → Extent
extent_of buf offset = record {
  type_guid = field 16 buf offset;
  unique_guid = field 16 buf (offset + 16);
  start_lba = number 8 buf (offset + 32);
  end_lba = number 8 buf (offset + 40);
  num_sectors = (number 8 buf (offset + 40) + 2 ^ 64 - number 8 buf (offset + 32) + 1) % 2 ^ 64;
  attributes = number 8 buf (offset + 48);
}

-- The partitions of the entries from `i` on whose type is not zero, in their order.
abbrev pub listed_entries : (rounds i esize : ℕ) → Bytes → List Extent
listed_entries zero i esize buf = []
listed_entries (suc rounds) i esize buf =
    let later = listed_entries rounds (i + 1) esize buf in
    if all_zero (field 16 buf (i * esize)) then later else extent_of buf (i * esize) ∷ later
