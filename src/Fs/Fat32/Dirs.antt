-- ===== src/Fs/Fat32/Dirs.antt =====
-- The directories of fs/fat32.c: process_dir_cluster, fat32_read_dir and fat32_iter_dir.
use velox_os.Prelude.{
  ℕ, zero, suc, ◌+◌, ◌*◌, ◌/◌, ◌%◌, ◌^◌, Bool, true, false, not, ◌&&◌, ◌||◌, Option, none, some,
  List, [], ◌∷◌, ◌++◌, length, replicate, get_or, ltb, leb, ◌==◌, if◌then◌else◌, bit_and,
}
use velox_os.Fs.Vfs.{Bytes, Env}
use velox_os.Fs.Gpt.{Gpt, le_at, bytes_at}
use velox_os.Fs.Fat32.{Vol, fat32_bad, fat32_read_fat_entry, fat32_read_cluster, with_buffer}
use velox_os.Fs.Fat32.Names.{
  Lfn, lfn_units, lfn_checksum, fragment, lfn_push, utf16le_to_utf8, build_83_name,
}

-- `fat32_dirent_t`, its name below the NUL.
pub record FatDirent : Type 0 where
  pub name : Bytes
  pub attributes : ℕ
  pub first_cluster : ℕ
  pub file_size : ℕ
  pub created_date : ℕ
  pub created_time : ℕ
  pub modified_date : ℕ
  pub modified_time : ℕ
  pub accessed_date : ℕ

-- What a 32-byte slot is: the end of the directory, one to skip, or an entry.
pub data Slot : Type 0 where
  last : Slot
  skip : Lfn → Slot
  entry : Slot

abbrev pub reset : Lfn → Lfn
reset lfn = record lfn { valid = false; total = 0 }

-- The state of `{ .valid = false, .total = 0 }`, the rest zero.
abbrev pub no_lfn : Lfn
no_lfn = record {
  chars = replicate lfn_units 0;
  total = 0;
  expected_seq = 0;
  checksum = 0;
  valid = false;
}

-- A long-name slot at an offset: the first of a name starts the accumulator anew.
unfoldable pub take_fragment : Bytes → (offset : ℕ) → Lfn → Lfn
unfolding lfn_push fragment
take_fragment buf offset old =
    let seq = get_or buf offset 0 in
    let number = bit_and seq 0xBF in
    let started : Lfn = record old {
      total = 0;
      expected_seq = number;
      checksum = get_or buf (offset + 13) 0;
      valid = true;
    } in
    let lfn = if bit_and seq 0x40 == 0 then old else started in
    if not lfn.valid || not (number == lfn.expected_seq)
    then record lfn { valid = false }
    else record (lfn_push lfn (fragment buf offset)) {
      expected_seq = (lfn.expected_seq + 255) % 256;
    }

unfoldable pub slot_at : Bytes → (offset : ℕ) → Lfn → Slot
unfolding take_fragment
slot_at buf offset lfn =
    let first = get_or buf offset 0 in
    let attributes = get_or buf (offset + 11) 0 in
    if first == 0
    then last
    else if first == 0xE5
    then skip (reset lfn)
    else if attributes == 0x0F
    then skip (take_fragment buf offset lfn)
    else if not (bit_and attributes 8 == 0)
    then skip (reset lfn)
    else entry

-- The name of the entry: the long one if it is whole and its checksum fits.
unfoldable pub entry_name : Bytes → (offset : ℕ) → Lfn → Bytes
unfolding lfn_checksum utf16le_to_utf8 build_83_name
entry_name buf offset lfn =
    if lfn.valid
      && ltb 0 lfn.total
      && (lfn.expected_seq == 0)
      && (lfn_checksum (bytes_at 11 buf offset) == lfn.checksum)
    then utf16le_to_utf8 lfn.chars lfn.total
    else build_83_name buf offset

unfoldable pub named_entry : Bytes → (offset : ℕ) → (name : Bytes) → FatDirent
unfolding le_at
named_entry buf offset name = record {
  name = name;
  attributes = get_or buf (offset + 11) 0;
  first_cluster = 2 ^ 16 * le_at 2 buf (offset + 20) + le_at 2 buf (offset + 26);
  file_size = le_at 4 buf (offset + 28);
  created_date = le_at 2 buf (offset + 16);
  created_time = le_at 2 buf (offset + 14);
  modified_date = le_at 2 buf (offset + 24);
  modified_time = le_at 2 buf (offset + 22);
  accessed_date = le_at 2 buf (offset + 18);
}

-- The entry at an offset; `none` is a name that does not fit `name[256]` with its NUL.
unfoldable pub dirent_at : Bytes → (offset : ℕ) → Lfn → Option FatDirent
unfolding entry_name named_entry
dirent_at buf offset lfn =
    let name = entry_name buf offset lfn in
    if ltb (length name) 256 then some (named_entry buf offset name) else none

-- What a loop over a directory has: the accumulator, the state `acc` of the reader, and `done`.
pub record Scan (A : Type 0) : Type 0 where
  pub lfn : Lfn
  pub acc : A
  pub finished : Bool

module _ {A : Type 0} (visit : FatDirent → A → A × Bool) (full : A → Bool) where
  -- An entry is handed to `visit`, which also says whether it was the last to look at.
  unfoldable pub visited : Lfn → A → Option FatDirent → Option (Scan A)
  visited lfn acc none = none
  visited lfn acc (some d) =
      let (acc', stop) = visit d acc in
      some (record { lfn = reset lfn; acc = acc'; finished = stop })

  -- One slot. `full` skips entries, before they are decoded.
  unfoldable pub scan_slot : Slot → Bytes → (offset : ℕ) → Scan A → Option (Scan A)
  unfolding visited dirent_at
  scan_slot last buf offset s = some (record s { finished = true })
  scan_slot (skip lfn) buf offset s = some (record s { lfn = lfn })
  scan_slot entry buf offset s =
      if full s.acc
      then some (record s { lfn = reset s.lfn })
      else visited s.lfn s.acc (dirent_at buf offset s.lfn)

  abbrev pub unless_finished : (Scan A → Option (Scan A)) → Option (Scan A) → Option (Scan A)
  unless_finished next none = none
  unless_finished next (some s) = if s.finished then some s else next s

  -- The slots of one cluster from the offset on.
  unfoldable pub scan_cluster : (slots : ℕ) → Bytes → (offset : ℕ) → Scan A → Option (Scan A)
  unfolding scan_slot slot_at
  scan_cluster zero buf offset s = some s
  scan_cluster (suc slots) buf offset s =
      unless_finished (scan_cluster slots buf (offset + 32))
        (scan_slot (slot_at buf offset s.lfn) buf offset s)

  module _ (device : ℕ → ℕ → Option Bytes) (g : Gpt) (vol : Vol) where
    -- What follows a cluster in the chain; `onward` is the rounds that follow.
    unfoldable pub next_cluster :
        (onward : ℕ → Scan A → Option (Bool × A)) → (next : ℕ) → Option (Scan A) → Option (Bool × A)
    next_cluster onward next none = none
    next_cluster onward next (some s) =
        if s.finished
        then some (true, s.acc)
        else if next == fat32_bad
        then some (false, s.acc)
        else onward next s

    unfoldable pub read_round :
        (onward : ℕ → Scan A → Option (Bool × A))
        → (cluster : ℕ) → Option Bytes
        → Scan A
        → Option (Bool × A)
    unfolding next_cluster scan_cluster
    read_round onward cluster none s = some (false, s.acc)
    read_round onward cluster (some buf) s =
        next_cluster onward (fat32_read_fat_entry device g vol cluster)
          (scan_cluster (vol.bytes_per_cluster / 32) buf 0 s)

    -- The loop over the clusters. The result tells whether no read failed, beside the reader's
    -- state; `none` is a name that overflows, or a chain longer than `rounds`.
    unfoldable pub dir_loop : (rounds : ℕ) → (cluster : ℕ) → Scan A → Option (Bool × A)
    unfolding read_round
    dir_loop zero cluster s = none
    dir_loop (suc rounds) cluster s =
        let round =
          read_round (dir_loop rounds) cluster (fat32_read_cluster device g vol cluster) s in
        if ltb cluster 2 || leb fat32_bad cluster then some (true, s.acc) else round

abbrev pub start : {A : Type 0} → A → Scan A
start acc = record { lfn = no_lfn; acc = acc; finished = false }

-- The entries written so far, the oldest first, and the visit that writes one more.
abbrev pub append_entry : FatDirent → List FatDirent → List FatDirent × Bool
append_entry d out = (out ++ d ∷ [], false)

module _ (device : ℕ → ℕ → Option Bytes) (g : Gpt) (vol : Vol) (rounds : ℕ) where
  abbrev pub no_run : {A : Type 0} {H : Type 0} → Option A × H → Option (A × H)
  no_run (none, h) = none
  no_run (some a, h) = some (a, h)

  unfoldable pub fat32_read_dir :
      (e : Env) → (dir_cluster max_entries : ℕ) → e.Heap → Option ((Bool × List FatDirent) × e.Heap)
  unfolding dir_loop with_buffer
  fat32_read_dir e dir_cluster max_entries h = no_run (
      with_buffer e vol.bytes_per_cluster (some (false, []))
        (dir_loop append_entry (λ out. leb max_entries (length out)) device g vol rounds dir_cluster
          (start []))
        h)
