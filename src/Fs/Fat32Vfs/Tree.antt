-- ===== src/Fs/Fat32Vfs/Tree.antt =====
-- The nodes of fs/vfs/fat32_vfs.c: lookups, stat, mounting and unmounting.
use velox_os.Prelude.{ℕ, zero, suc, not, ◌&&◌, Option, none, some, [], ◌==◌, if◌then◌else◌, bit_and}
use velox_os.Fs.Vfs.{ℤ, pos, negsuc, err_io, err_nomem, Bytes, Node, Stat, Ops, Env}
use velox_os.Fs.Vfs.Mounts.{vfs_mount, vfs_unmount_detach}
use velox_os.Fs.Vfs.Nodes.{put_node, vfs_node_create, vfs_node_destroy, vfs_add_child}
use velox_os.Fs.Vfs.Resolve.{M, ◌>>=◌, done}
use velox_os.Fs.Gpt.{Gpt}
use velox_os.Fs.Fat32.{Vol}
use velox_os.Fs.Fat32.Dirs.{FatDirent}
use velox_os.Fs.Fat32.Lookup.{Outcome, found, code, fat32_lookup}
use velox_os.Fs.Fat32Vfs.{
  Inode, FatHeap, fat32_dir_ops, fat32_file_ops, inode_size, node_type, find_sibling_ci,
  find_cached, new_inode, S, heap_env, base, on_heap, inode_at, put_inode, kfree_block,
  fat32_vfs_open, fat32_vfs_read, fat32_vfs_write, fat32_vfs_readdir,
}

module _ (device : ℕ → ℕ → Option Bytes) (g : Gpt) (rounds fuel : ℕ) {H : Type 0}
    (malloc : ℕ → H → ℕ × H) (free : ℕ → H → H) where
  abbrev pub State : Type 0
  State = S device g rounds fuel malloc free

  abbrev pub memory : Env
  memory = base device g rounds fuel malloc free

  -- A run on the heap, in the whole state.
  abbrev pub lift : {A : Type 0} → M (FatHeap H) A → M State A
  lift m = on_heap device g rounds fuel malloc free m

  abbrev pub inode_of : State → ℕ → Inode
  inode_of s p = inode_at device g rounds fuel malloc free s p

  abbrev pub write_inode : ℕ → Inode → State → State
  write_inode p i s = put_inode device g rounds fuel malloc free p i s

  -- A node with the block for its inode; `i` is what the inode becomes.
  unfoldable pub with_inode : (node size : ℕ) → Inode → ℕ × FatHeap H → State → ℕ × State
  unfolding put_inode
  with_inode node size i (p, h) s =
      let s' : State = record s { heap = h } in
      let n : Node = record (s.nodes node) { payload = p; size = size } in
      if p == 0
      then (0, vfs_node_destroy memory node s')
      else (node, write_inode p i (record s' { nodes = put_node s.nodes node n }))

  -- `vfs_node_create` and an inode for the node; NULL without memory.
  unfoldable pub make_tree_node : (name : Bytes) → (type ops size : ℕ) → Inode → State → ℕ × State
  unfolding with_inode vfs_node_create
  make_tree_node name type ops size i s =
      let (node, s') = vfs_node_create memory name type ops 0 s in
      if node == 0 then (0, s') else with_inode node size i (memory.kmalloc inode_size s'.heap) s'

  unfoldable pub fat32_vfs_make_node : Vol → FatDirent → State → ℕ × State
  unfolding make_tree_node
  fat32_vfs_make_node vol d s =
      let ops = if bit_and d.attributes 0x10 == 0 then fat32_file_ops else fat32_dir_ops in
      make_tree_node d.name (node_type d.attributes) ops d.file_size
        (new_inode vol d.first_cluster d.file_size d.attributes) s

  -- A child that could not be linked is destroyed.
  unfoldable pub kept : (child : ℕ) → ℤ → State → ℕ × State
  unfolding vfs_node_destroy
  kept child (pos n) s = (child, s)
  kept child (negsuc n) s = (0, vfs_node_destroy memory child s)

  -- The new child linked to the directory.
  unfoldable pub linked : (dir : ℕ) → ℕ × State → ℕ × State
  unfolding vfs_add_child kept
  linked dir (child, s) =
      let (rc, s') = vfs_add_child dir child s in if child == 0 then (0, s) else kept child rc s'

  unfoldable pub add_found : (dir : ℕ) → Vol → Outcome FatDirent → M State ℕ
  unfolding linked fat32_vfs_make_node
  add_found dir vol (code rc) s = done 0 s
  add_found dir vol (found d) s = some (linked dir (fat32_vfs_make_node vol d s))

  unfoldable pub lookup_uncached : (dir p : ℕ) → (name : Bytes) → M State ℕ
  unfolding add_found find_cached fat32_lookup
  lookup_uncached dir p name s =
      let inode = inode_of s p in
      let on_disk =
        (lift (fat32_lookup device g inode.vol rounds memory inode.first_cluster name)
            >>= add_found dir inode.vol)
          s in
      if p == 0
      then done 0 s
      else if inode.dir_cache_loaded && not (inode.dir_cache == 0)
      then add_found dir inode.vol (find_cached name inode.cached) s
      else on_disk

  unfoldable pub lookup_below : (dir : ℕ) → (name : Bytes) → Option ℕ → M State ℕ
  unfolding lookup_uncached
  lookup_below dir name none s = none
  lookup_below dir name (some child) s =
      let below = lookup_uncached dir (s.nodes dir).payload name s in
      if child == 0 then below else done child s

  unfoldable pub fat32_vfs_lookup : (dir : ℕ) → (name : Bytes) → M State ℕ
  unfolding lookup_below find_sibling_ci
  fat32_vfs_lookup dir name s =
      lookup_below dir name (find_sibling_ci fuel s.nodes (s.nodes dir).first_child name) s

  abbrev pub node_stat : State → ℕ → ℤ × Stat
  node_stat s node =
      let st : Stat = record { type = (s.nodes node).type; size = (s.nodes node).size } in
      (pos 0, st)

  -- What the parent's directory says about the node now.
  unfoldable pub refreshed : (node : ℕ) → Outcome FatDirent → M State (ℤ × Stat)
  unfolding put_inode
  refreshed node (code rc) s = done (node_stat s node) s
  refreshed node (found d) s =
      let p = (s.nodes node).payload in
      let i : Inode = record (inode_of s p) { size = d.file_size; attributes = d.attributes } in
      let n : Node = record (s.nodes node) { size = d.file_size } in
      let s' : State = write_inode p i (record s { nodes = put_node s.nodes node n }) in
      done (node_stat s' node) s'

  unfoldable pub fat32_vfs_stat : (node : ℕ) → M State (ℤ × Stat)
  unfolding refreshed fat32_lookup
  fat32_vfs_stat node s =
      let n = s.nodes node in
      let above = (s.nodes n.parent).payload in
      let parent = inode_of s above in
      let run =
        (lift (fat32_lookup device g parent.vol rounds memory parent.first_cluster n.text)
            >>= refreshed node)
          s in
      let none_given : Stat = record { type = 0; size = 0 } in
      if n.payload == 0
      then done (err_io, none_given) s
      else if not (n.parent == 0) && not (above == 0)
      then run
      else done (node_stat s node) s

  abbrev pub dir_table : Ops State
  dir_table = record {
    open_op = some (fat32_vfs_open device g rounds fuel malloc free);
    close_op = none;
    read_op = none;
    write_op = none;
    readdir_op = some (fat32_vfs_readdir device g rounds fuel malloc free);
    lookup_op = some fat32_vfs_lookup;
    stat_op = some fat32_vfs_stat;
  }

  abbrev pub file_table : Ops State
  file_table = record {
    open_op = some (fat32_vfs_open device g rounds fuel malloc free);
    close_op = none;
    read_op = some (fat32_vfs_read device g rounds fuel malloc free);
    write_op = some (fat32_vfs_write device g rounds fuel malloc free);
    readdir_op = none;
    lookup_op = none;
    stat_op = some fat32_vfs_stat;
  }

  -- The heap with the driver's two tables.
  abbrev pub fat_env : Env
  fat_env = heap_env device g rounds fuel malloc free dir_table file_table

  -- The root is given back when the mount fails, its inode first.
  unfoldable pub mount_end : (root : ℕ) → ℤ → M State ℤ
  unfolding kfree_block
  mount_end root (pos n) s = done (pos 0) s
  mount_end root (negsuc n) s = done (negsuc n) (
      vfs_node_destroy memory root
        (kfree_block device g rounds fuel malloc free (s.nodes root).payload s))

  unfoldable pub mount_root : (path : Bytes) → ℕ × State → Option (ℤ × State)
  unfolding mount_end vfs_mount
  mount_root path (root, s) =
      let run = (vfs_mount fat_env fuel root (some path) >>= mount_end root) s in
      if root == 0 then done err_nomem s else run

  unfoldable pub fat32_vfs_mount : Vol → (path : Bytes) → M State ℤ
  unfolding mount_root make_tree_node
  fat32_vfs_mount vol path s =
      mount_root path
        (make_tree_node [] 2 fat32_dir_ops 0 (new_inode vol vol.root_cluster 0 0x10) s)

  -- A node without its children: the cache, the inode and the node.
  unfoldable pub free_node : (node : ℕ) → State → State
  unfolding kfree_block
  free_node node s =
      let p = (s.nodes node).payload in
      let block = (inode_of s p).dir_cache in
      let s1 = if block == 0 then s else kfree_block device g rounds fuel malloc free block s in
      let s2 = kfree_block device g rounds fuel malloc free p s1 in
      vfs_node_destroy memory node (if p == 0 then s else s2)

  -- The children from `child` on with all below them; `none` is a tree larger than the bound.
  unfoldable pub free_children : (bound : ℕ) → (child : ℕ) → M State (Unit {0})
  unfolding free_node
  free_children zero child s = none
  free_children (suc bound) child s =
      let next = (s.nodes child).next_sibling in
      let below =
        (free_children bound (s.nodes child).first_child >>= λ u t.
        free_children bound next (free_node child t))
          s in
      if child == 0 then done tt s else below

  unfoldable pub fat32_vfs_free_tree : (node : ℕ) → M State (Unit {0})
  unfolding free_children
  fat32_vfs_free_tree node s =
      let below =
        (free_children fuel (s.nodes node).first_child >>= λ u t. done tt (free_node node t)) s in
      if node == 0 then done tt s else below

  unfoldable pub free_detached : ℤ × ℕ × State → Option (ℤ × State)
  unfolding fat32_vfs_free_tree
  free_detached (negsuc n, root, s) = done (negsuc n) s
  free_detached (pos n, root, s) = (fat32_vfs_free_tree root >>= λ u. done (pos 0)) s

  unfoldable pub fat32_vfs_unmount : Option Bytes → M State ℤ
  unfolding free_detached vfs_unmount_detach
  fat32_vfs_unmount path s = free_detached (vfs_unmount_detach fat_env path s)
