-- ===== src/Fs/Vfs/Files/Listing.antt =====
-- vfs_readdir on a directory whose driver has no `readdir`: the children, one an index.
use velox_os.Prelude.{
  ℕ, zero, suc, ◌≡◌, ap, ◌≢◌, true, false, Option, none, some, List, [], ◌∷◌, ltb, ◌==◌,
  if◌then◌else◌, arith,
}
use velox_os.Fs.Vfs.{ℤ, pos, err_nametoolong, vfs_name_max, Node, File, Dirent, Ops, Env, is_dir}
use velox_os.Fs.Vfs.Files.{S, driver_entry, sibling_at, entry_of, vfs_readdir}
use velox_os.Fs.Vfs.Nodes.Children.{Chain}
use velox_os.Fs.Vfs.Paths.{take}

-- The answer of the index in the list of the children: 1 with the entry, 0 past the end.
unfoldable pub listed : (ℕ → Node) → List ℕ → (index : ℕ) → ℤ × Option Dirent
listed nodes [] index = (pos 0, none)
listed nodes (n ∷ ns) zero =
    if ltb vfs_name_max (nodes n).name_len then (err_nametoolong, none) else (
      pos 1,
      some (record { name = take (nodes n).name_len (nodes n).text; type = (nodes n).type }),
    )
listed nodes (n ∷ ns) (suc i) = listed nodes ns i

module _ (e : Env) (fuel : ℕ) where
  sibling_at-listed :
      (nodes : ℕ → Node) (first : ℕ) (ns : List ℕ) (i : ℕ)
      → Chain nodes first ns
      → entry_of e fuel nodes (sibling_at e fuel nodes first i) ≡ listed nodes ns i
  unfolding entry_of sibling_at listed
  sibling_at-listed nodes first [] zero h = rw h
  sibling_at-listed nodes first [] (suc i) h = rw h
  sibling_at-listed nodes first (n ∷ ns) zero (h, z, k) =
      let nz : (n == 0) ≡ false = ground arith in rw (h, nz)
  sibling_at-listed nodes first (n ∷ ns) (suc i) (h, z, k) =
      let nz : (n == 0) ≡ false = ground arith in
      rw (h, nz) (sibling_at-listed nodes (nodes n).next_sibling ns i k)

  -- On an open directory whose driver has no `readdir`, vfs_readdir answers by the list of the
  -- children: at each index below its length that child's name and type, or that the name is too
  -- long, and 0 from there on; the state stays.
  pub vfs_readdir-listed :
      (file : File) (index : ℕ) (ns : List ℕ) (s : S e fuel)
      → file.node ≢ 0
      → is_dir (s.nodes file.node).type ≡ true
      → driver_entry e fuel (λ (t : Ops (S e fuel)). t.readdir_op) s file.node ≡ none
      → Chain s.nodes (s.nodes file.node).first_child ns
      → vfs_readdir e fuel file index s ≡ some (listed s.nodes ns index, s)
  unfolding vfs_readdir
  vfs_readdir-listed file index ns s nz d n k =
      let z : (file.node == 0) ≡ false = ground arith in
      rw (z, d, n)
        (ap (λ (r : ℤ × Option Dirent). some (r, s))
          (sibling_at-listed s.nodes (s.nodes file.node).first_child ns index k))
