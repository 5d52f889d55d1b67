-- ===== src/Fs/Fat32/Lookup.antt =====
-- Lookups in fs/fat32.c: fat32_iter_dir with its two callbacks, and the paths.
use velox_os.Prelude.{
  ℕ, zero, suc, ◌+◌, Bool, true, false, ◌&&◌, Option, none, some, List, [], ◌∷◌, length, ltb, ◌==◌,
  if◌then◌else◌, bit_and,
}
use velox_os.Fs.Vfs.{
  ℤ, pos, negsuc, err_inval, err_io, err_nomem, err_noent, err_notdir, err_nametoolong, slash,
  Bytes, Env,
}
use velox_os.Fs.Vfs.Resolve.{M, ◌>>=◌, done, take_segment, empty}
use velox_os.Fs.Gpt.{Gpt}
use velox_os.Fs.Fat32.{Vol, with_buffer}
use velox_os.Fs.Fat32.Dirs.{FatDirent, start, dir_loop, no_run, fat32_read_dir}
use velox_os.Fs.Fat32.Names.{lower}

unfoldable pub fat32_name_equal_ci : Bytes → Bytes → Bool
unfolding lower
fat32_name_equal_ci [] [] = true
fat32_name_equal_ci [] (y ∷ b) = false
fat32_name_equal_ci (x ∷ a) [] = false
fat32_name_equal_ci (x ∷ a) (y ∷ b) = (lower x == lower y) && fat32_name_equal_ci a b

unfoldable pub fat32_skip_slashes : Bytes → Bytes
fat32_skip_slashes [] = []
fat32_skip_slashes (c ∷ p) = if c == slash then fat32_skip_slashes p else c ∷ p

-- The segment and what follows it; `none` is FAT32_ERR_NAMETOOLONG: it does not fit `out_cap`
-- bytes with its NUL.
unfoldable pub fat32_copy_segment : Bytes → (out_cap : ℕ) → Option (Bytes × Bytes)
unfolding take_segment
fat32_copy_segment p out_cap =
    if ltb (length (take_segment p).0) out_cap then some (take_segment p) else none

-- A result, or a negative code.
pub data Outcome (A : Type 0) : Type 0 where
  found : A → Outcome A
  code : ℤ → Outcome A

unfoldable pub fat32_lookup_cb :
    (name : Bytes) → FatDirent → Option FatDirent → Option FatDirent × Bool
unfolding fat32_name_equal_ci
fat32_lookup_cb name d out =
    if fat32_name_equal_ci d.name name then (some d, true) else (out, false)

-- The context: `current`, and what was found.
unfoldable pub fat32_readdir_cb :
    (target : ℕ) → FatDirent → ℕ × Option FatDirent → (ℕ × Option FatDirent) × Bool
fat32_readdir_cb target d (current, out) =
    if current == target then ((current, some d), true) else ((current + 1, out), false)

module _ (device : ℕ → ℕ → Option Bytes) (g : Gpt) (vol : Vol) (rounds : ℕ) (e : Env) where
  abbrev pub rc_of : {A : Type 0} → Option (Bool × A) → Option (ℤ × A)
  rc_of none = none
  rc_of (some (true, a)) = some (pos 0, a)
  rc_of (some (false, a)) = some (err_io, a)

  -- `ctx` goes through the callback `visit`, which is never negative in this file.
  unfoldable pub fat32_iter_dir :
      {A : Type 0} → (dir_cluster : ℕ) → (FatDirent → A → A × Bool) → (ctx : A) → M e.Heap (ℤ × A)
  unfolding dir_loop with_buffer
  fat32_iter_dir dir_cluster visit ctx h =
      let run = rc_of (dir_loop visit (λ a. false) device g vol rounds dir_cluster (start ctx)) in
      if ltb dir_cluster 2
      then some ((err_inval, ctx), h)
      else no_run device g vol rounds
          (with_buffer e vol.bytes_per_cluster (some (err_nomem, ctx)) run h)

  abbrev pub lookup_result : ℤ × Option FatDirent → Outcome FatDirent
  lookup_result (negsuc n, out) = code (negsuc n)
  lookup_result (pos n, none) = code err_noent
  lookup_result (pos n, some d) = found d

  unfoldable pub fat32_lookup : (dir_cluster : ℕ) (name : Bytes) → M e.Heap (Outcome FatDirent)
  unfolding fat32_iter_dir fat32_lookup_cb
  fat32_lookup dir_cluster name =
      fat32_iter_dir dir_cluster (fat32_lookup_cb name) none >>= λ r. done (lookup_result r)

  -- 1 with the entry, 0 past the end, or a code.
  abbrev pub readdir_result : ℤ × (ℕ × Option FatDirent) → ℤ × Option FatDirent
  readdir_result (negsuc n, ctx) = (negsuc n, none)
  readdir_result (pos n, (current, none)) = (pos 0, none)
  readdir_result (pos n, (current, some d)) = (pos 1, some d)

  unfoldable pub fat32_readdir_index : (dir_cluster index : ℕ) → M e.Heap (ℤ × Option FatDirent)
  unfolding fat32_iter_dir fat32_readdir_cb
  fat32_readdir_index dir_cluster index =
      fat32_iter_dir dir_cluster (fat32_readdir_cb index) (0, none) >>= λ r. done (readdir_result r)

  abbrev pub fat32_make_root_dirent : FatDirent
  fat32_make_root_dirent = record {
    name = slash ∷ [];
    attributes = 0x10;
    first_cluster = vol.root_cluster;
    file_size = 0;
    created_date = 0;
    created_time = 0;
    modified_date = 0;
    modified_time = 0;
    accessed_date = 0;
  }

  -- After a segment was found: `p` is what follows it and its slashes, and `onward` goes on in a
  -- directory.
  unfoldable pub enter_dirent :
      (p : Bytes)
      → (onward : ℕ → FatDirent → M e.Heap (Outcome FatDirent)) → Outcome FatDirent
      → M e.Heap (Outcome FatDirent)
  enter_dirent p onward (code rc) = done (code rc)
  enter_dirent p onward (found d) =
      if empty p
      then done (found d)
      else if bit_and d.attributes 0x10 == 0
      then done (code err_notdir)
      else if ltb d.first_cluster 2
      then done (code err_io)
      else onward d.first_cluster d

  unfoldable pub lookup_segment :
      (onward : Bytes → ℕ → FatDirent → M e.Heap (Outcome FatDirent))
      → (dir_cluster : ℕ) → Option (Bytes × Bytes)
      → M e.Heap (Outcome FatDirent)
  unfolding enter_dirent fat32_lookup
  lookup_segment onward dir_cluster none = done (code err_nametoolong)
  lookup_segment onward dir_cluster (some (name, rest)) =
      let p = fat32_skip_slashes rest in fat32_lookup dir_cluster name >>= enter_dirent p (onward p)

  -- The loop over the segments; a round takes a byte of the path at least.
  unfoldable pub path_loop :
      (path_rounds : ℕ)
      → Bytes
      → (dir_cluster : ℕ) → (current : FatDirent) → M e.Heap (Outcome FatDirent)
  unfolding lookup_segment fat32_copy_segment
  path_loop zero p dir_cluster current = done (found current)
  path_loop (suc n) [] dir_cluster current = done (found current)
  path_loop (suc n) (c ∷ p) dir_cluster current =
      lookup_segment (path_loop n) dir_cluster (fat32_copy_segment (c ∷ p) 257)

  -- A NULL path is the empty one: the root directory.
  unfoldable pub fat32_lookup_path : (path : Bytes) → M e.Heap (Outcome FatDirent)
  unfolding path_loop fat32_skip_slashes
  fat32_lookup_path path =
      let p = fat32_skip_slashes path in
      path_loop (length p) p vol.root_cluster fat32_make_root_dirent

  unfoldable pub fat32_stat_path : (path : Bytes) → M e.Heap (Outcome FatDirent)
  unfolding fat32_lookup_path
  fat32_stat_path path = fat32_lookup_path path

  abbrev pub listing_result : Bool × List FatDirent → Outcome (List FatDirent)
  listing_result (true, out) = found out
  listing_result (false, out) = code err_io

  unfoldable pub read_dir_of :
      (max_entries : ℕ) → Outcome FatDirent → M e.Heap (Outcome (List FatDirent))
  unfolding fat32_read_dir
  read_dir_of max_entries (code rc) = done (code rc)
  read_dir_of max_entries (found d) =
      let dir_cluster = if ltb d.first_cluster 2 then vol.root_cluster else d.first_cluster in
      let listing = fat32_read_dir device g vol rounds e dir_cluster max_entries >>= λ r.
      done (listing_result r) in
      if bit_and d.attributes 0x10 == 0 then done (code err_notdir) else listing

  unfoldable pub fat32_read_dir_path :
      (path : Bytes) (max_entries : ℕ) → M e.Heap (Outcome (List FatDirent))
  unfolding read_dir_of fat32_lookup_path
  fat32_read_dir_path path max_entries = fat32_lookup_path path >>= read_dir_of max_entries
