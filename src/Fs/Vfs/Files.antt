-- ===== src/Fs/Vfs/Files.antt =====
-- The open files of fs/vfs/vfs.c: vfs_open to vfs_fstat.
pub mod Listing
use mathlib.Core.Option.{map as option_map}
use velox_os.Prelude.{
  ℕ, zero, suc, ◌+◌, ◌%◌, ◌^◌, ◌≡◌, Bool, true, false, not, Option, none, some, [], ltb, ◌==◌,
  if◌then◌else◌,
}
use velox_os.Prelude.Words.{u64}
use velox_os.Fs.Vfs.{
  ℤ, pos, negsuc, err_inval, err_notdir, err_nomem, err_nametoolong, err_notsup, vfs_name_max,
  Bytes, Node, File, Stat, Dirent, Fs, Ops, Env, is_dir,
}
use velox_os.Fs.Vfs.Paths.{take}
use velox_os.Fs.Vfs.Resolve.{Resolved, node_at, failed, M, ◌>>=◌, done, vfs_resolve_path}

-- The bytes of a `vfs_file_t`.
abbrev pub file_size : ℕ
file_size = 32

-- `if (ret > 0) file->pos += ret`
unfoldable pub advance : ℤ → File → File
advance (pos n) file = record file { position = u64 (file.position + n) }
advance (negsuc n) file = file

module _ (e : Env) (fuel : ℕ) where
  open e use {Heap, kmalloc, kfree, ops_at}

  abbrev pub S : Type 0
  S = Fs Heap

  -- A driver's driver_entry of a node, where its table has one.
  abbrev pub driver_entry {ℓ} : {A : Type ℓ} → (Ops S → Option A) → S → ℕ → Option A
  driver_entry field s node =
      if (s.nodes node).ops == 0 then none else field (ops_at (s.nodes node).ops)

  -- The result of `open`: on an error the file is freed.
  unfoldable pub opened : ℤ × File × S → (ℤ × Option File) × S
  opened (negsuc n, file, s) = ((negsuc n, none), record s { heap = kfree file.block s.heap })
  opened (pos n, file, s) = ((pos 0, some file), s)

  unfoldable pub open_with :
      Option (File → ℕ → S → ℤ × File × S) → File → ℕ → S → (ℤ × Option File) × S
  unfolding opened
  open_with (some open_op) file flags s = opened (open_op file flags s)
  open_with none file flags s = ((pos 0, some file), s)

  unfoldable pub open_node : (flags : ℕ) → Resolved → S → (ℤ × Option File) × S
  unfolding open_with
  open_node flags (failed rc) s = ((rc, none), s)
  open_node flags (node_at node) s =
      let (block, h) = kmalloc file_size s.heap in
      let s' : S = record s { heap = h } in
      let file : File = record {
        block = block;
        node = node;
        position = 0;
        flags = flags;
        private_data = 0;
      } in
      if block == 0
      then ((err_nomem, none), s')
      else open_with (driver_entry (λ (t : Ops S). t.open_op) s' node) file flags s'

  unfoldable pub vfs_open : Option Bytes → (flags : ℕ) → M S (ℤ × Option File)
  unfolding open_node
  vfs_open path flags = vfs_resolve_path e fuel path >>= λ r s. some (open_node flags r s)

  unfoldable pub close_with : Option (File → S → ℤ × S) → File → S → ℤ × S
  close_with (some close_op) file s =
      let (rc, s') = close_op file s in (rc, record s' { heap = kfree file.block s'.heap })
  close_with none file s = (pos 0, record s { heap = kfree file.block s.heap })

  -- `none` is the NULL file.
  unfoldable pub vfs_close : Option File → S → ℤ × S
  unfolding close_with
  vfs_close none s = (err_inval, s)
  vfs_close (some file) s =
      close_with
        (if file.node == 0 then none else driver_entry (λ (t : Ops S). t.close_op) s file.node) file
        s

  unfoldable pub read_with :
      Option (File → ℕ → S → ℤ × Bytes × File × S) → File → (len : ℕ) → S → ℤ × Bytes × File × S
  unfolding advance
  read_with none file len s = (err_notsup, [], file, s)
  read_with (some read_op) file len s =
      let (ret, buf, file', s') = read_op file len s in (ret, buf, advance ret file', s')

  -- `buf` and the file are not NULL; the bytes come back as a result.
  unfoldable pub vfs_read : File → (len : ℕ) → S → ℤ × Bytes × File × S
  unfolding read_with
  vfs_read file len s =
      if file.node == 0
      then (err_inval, [], file, s)
      else read_with (driver_entry (λ (t : Ops S). t.read_op) s file.node) file len s

  unfoldable pub write_with :
      Option (File → Bytes → S → ℤ × File × S) → File → (buf : Bytes) → S → ℤ × File × S
  unfolding advance
  write_with none file buf s = (err_notsup, file, s)
  write_with (some write_op) file buf s =
      let (ret, file', s') = write_op file buf s in (ret, advance ret file', s')

  unfoldable pub vfs_write : File → (buf : Bytes) → S → ℤ × File × S
  unfolding write_with
  vfs_write file buf s =
      if file.node == 0
      then (err_inval, file, s)
      else write_with (driver_entry (λ (t : Ops S). t.write_op) s file.node) file buf s

  -- The loop of `vfs_readdir`: `index` siblings on, or NULL.
  unfoldable pub sibling_at : (ℕ → Node) → (child index : ℕ) → ℕ
  sibling_at nodes child zero = child
  sibling_at nodes child (suc i) =
      if child == 0 then 0 else sibling_at nodes (nodes child).next_sibling i

  -- The driver_entry of a child, 0 if there is none.
  unfoldable pub entry_of : (ℕ → Node) → (child : ℕ) → ℤ × Option Dirent
  entry_of nodes child =
      if child == 0
      then (pos 0, none)
      else if ltb vfs_name_max (nodes child).name_len
      then (err_nametoolong, none)
      else let d : Dirent = record {
        name = take (nodes child).name_len (nodes child).text;
        type = (nodes child).type;
      } in
        (pos 1, some d)

  abbrev pub entry_given : (ℤ × Dirent) × S → (ℤ × Option Dirent) × S
  entry_given ((rc, d), s) = ((rc, some d), s)

  unfoldable pub readdir_with :
      Option (ℕ → ℕ → S → Option ((ℤ × Dirent) × S)) → (dir index : ℕ) → M S (ℤ × Option Dirent)
  unfolding entry_of sibling_at
  readdir_with (some readdir_op) dir index s = option_map entry_given (readdir_op dir index s)
  readdir_with none dir index s =
      some (entry_of s.nodes (sibling_at s.nodes (s.nodes dir).first_child index), s)

  unfoldable pub vfs_readdir : File → (index : ℕ) → M S (ℤ × Option Dirent)
  unfolding readdir_with
  vfs_readdir file index s =
      if file.node == 0
      then done (err_inval, none) s
      else if not (is_dir (s.nodes file.node).type)
      then done (err_notdir, none) s
      else readdir_with (driver_entry (λ (t : Ops S). t.readdir_op) s file.node) file.node index s

  abbrev pub stat_result : (ℤ × Stat) × S → (ℤ × Option Stat) × S
  stat_result ((negsuc n, st), s) = ((negsuc n, none), s)
  stat_result ((pos n, st), s) = ((pos 0, some st), s)

  unfoldable pub stat_with : Option (ℕ → S → Option ((ℤ × Stat) × S)) → ℕ → M S (ℤ × Option Stat)
  stat_with none node s =
      let st : Stat = record { type = (s.nodes node).type; size = (s.nodes node).size } in
      done (pos 0, some st) s
  stat_with (some stat_op) node s = option_map stat_result (stat_op node s)

  unfoldable pub vfs_stat_node : (node : ℕ) → M S (ℤ × Option Stat)
  unfolding stat_with
  vfs_stat_node node s =
      if node == 0
      then done (err_inval, none) s
      else stat_with (driver_entry (λ (t : Ops S). t.stat_op) s node) node s

  abbrev pub stat_resolved : Resolved → M S (ℤ × Option Stat)
  stat_resolved (failed rc) = done (rc, none)
  stat_resolved (node_at node) = vfs_stat_node node

  unfoldable pub vfs_stat : Option Bytes → M S (ℤ × Option Stat)
  unfolding vfs_stat_node
  vfs_stat path = vfs_resolve_path e fuel path >>= stat_resolved

  -- A NULL `file->node` is refused first.
  unfoldable pub vfs_fstat : File → M S (ℤ × Option Stat)
  unfolding vfs_stat_node
  vfs_fstat file s = if file.node == 0 then done (err_inval, none) s else vfs_stat_node file.node s
