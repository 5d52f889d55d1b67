-- ===== src/Fs/Vfs/Nodes.antt =====
-- The nodes of fs/vfs/vfs.c: vfs_node_create, vfs_node_destroy, vfs_add_child, vfs_find_child.
pub mod Children
use velox_os.Prelude.{
  ℕ, zero, suc, ◌+◌, ◌-◌, ◌%◌, ◌^◌, ◌<◌, ◌≡◌, Bool, true, false, not, ◌&&◌, ◌||◌, Option, none,
  some, List, [], ◌∷◌, length, ltb, ◌==◌, if◌then◌else◌, bit_and, bit_or,
}
use velox_os.Fs.Vfs.{
  ℤ, pos, negsuc, err_inval, err_notdir, vfs_name_max, Bytes, Node, Fs, Env, is_dir,
}

-- `a == b` as `vfs_strcmp(a, b) == 0` tells it
unfoldable pub vfs_strcmp_eq : Bytes → Bytes → Bool
vfs_strcmp_eq [] [] = true
vfs_strcmp_eq [] (y ∷ b) = false
vfs_strcmp_eq (x ∷ a) [] = false
vfs_strcmp_eq (x ∷ a) (y ∷ b) = (x == y) && vfs_strcmp_eq a b

-- A store of nodes with the one at `p` replaced.
abbrev pub put_node : (ℕ → Node) → ℕ → Node → ℕ → Node
put_node nodes p n q = if p == q then n else nodes q

-- The bytes of a `vfs_node_t`, and VFS_NODE_NAME_OWNED.
abbrev pub node_size : ℕ
node_size = 72

abbrev pub name_owned : ℕ
name_owned = 0x80000000

-- The loop over the siblings. `fuel` bounds the rounds, and `none` is a loop that goes on: the
-- links of a store may form a cycle.
unfoldable pub find_sibling : (fuel : ℕ) → (ℕ → Node) → (child : ℕ) → (name : Bytes) → Option ℕ
find_sibling zero nodes child name = none
find_sibling (suc fuel) nodes child name =
    let next = find_sibling fuel nodes (nodes child).next_sibling name in
    if child == 0
    then some 0
    else if not ((nodes child).name == 0) && vfs_strcmp_eq (nodes child).text name
    then some child
    else next

unfoldable pub vfs_find_child : (fuel : ℕ) → (ℕ → Node) → (parent : ℕ) → Bytes → Option ℕ
unfolding find_sibling
vfs_find_child fuel nodes parent name =
    if parent == 0 then some 0 else find_sibling fuel nodes (nodes parent).first_child name

unfoldable pub vfs_add_child : {H : Type 0} → (parent child : ℕ) → Fs H → ℤ × Fs H
vfs_add_child parent child s =
    if (parent == 0) || (child == 0)
    then (err_inval, s)
    else if not (is_dir (s.nodes parent).type)
    then (err_notdir, s)
    else let c = record (s.nodes child) {
      parent = parent;
      next_sibling = (s.nodes parent).first_child;
    } in
      let nodes = put_node s.nodes child c in
      let p = record (nodes parent) { first_child = child } in
      (pos 0, record s { nodes = put_node nodes parent p })

module _ (e : Env) where
  open e use {Heap, kmalloc, kfree}

  -- A node fresh from `memset` with the fields that `vfs_node_create` then sets.
  abbrev pub new_node : (name_copy : ℕ) → Bytes → (type ops payload : ℕ) → Node
  new_node name_copy name type ops payload = record {
    name = name_copy;
    text = name;
    name_len = length name % 2 ^ 16;
    type = type;
    flags = bit_or 0 name_owned;
    size = 0;
    ops = ops;
    payload = payload;
    parent = 0;
    first_child = 0;
    next_sibling = 0;
  }

  -- `vfs_node_create` with the node allocated: the name is copied, or the node freed.
  unfoldable pub with_name :
      (node : ℕ) → Bytes → (type ops payload : ℕ) → ℕ × Heap → Fs Heap → ℕ × Fs Heap
  with_name node name type ops payload (name_copy, h) s =
      if name_copy == 0 then (0, record s { heap = kfree node h }) else (
        node,
        record s {
          nodes = put_node s.nodes node (new_node name_copy name type ops payload);
          heap = h;
        },
      )

  -- A NULL name is the empty one.
  unfoldable pub vfs_node_create : (name : Bytes) (type ops payload : ℕ) → Fs Heap → ℕ × Fs Heap
  unfolding with_name
  vfs_node_create name type ops payload s =
      let (node, h) = kmalloc node_size s.heap in
      if node == 0
      then (0, record s { heap = h })
      else if ltb vfs_name_max (length name)
      then (0, record s { heap = kfree node h })
      else with_name node name type ops payload (kmalloc (length name + 1) h) s

  unfoldable pub vfs_node_destroy : (node : ℕ) → Fs Heap → Fs Heap
  vfs_node_destroy node s =
      if node == 0
      then s
      else let n = s.nodes node in
        let owned = not (bit_and n.flags name_owned == 0) && not (n.name == 0) in
        let h = if owned then kfree n.name s.heap else s.heap in record s { heap = kfree node h }
