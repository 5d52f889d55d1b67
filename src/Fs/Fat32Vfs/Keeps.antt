-- ===== src/Fs/Fat32Vfs/Keeps.antt =====
-- The lookup of fs/vfs/fat32_vfs.c and the mount table.
use mathlib.Core.Path.{subst}
use velox_os.Prelude.{
  ℕ, ◌≡◌, refl, ◌∙◌, ap, inl, inr, Bool, true, false, not, ◌&&◌, ◌||◌, Option, none, some, length,
  ltb, ◌==◌, Bool-cases, Option-cases, if◌then◌else◌,
}
use velox_os.Fs.Vfs.{ℤ, pos, negsuc, vfs_name_max, Bytes, Fs, Env, is_dir}
use velox_os.Fs.Vfs.Nodes.{node_size, with_name, vfs_node_create, vfs_node_destroy, vfs_add_child}
use velox_os.Fs.Vfs.Resolve.{M, ◌>>=◌}
use velox_os.Fs.Vfs.Resolve.Kept.{KeepsMounts}
use velox_os.Fs.Gpt.{Gpt}
use velox_os.Fs.Fat32.{Vol}
use velox_os.Fs.Fat32.Dirs.{FatDirent}
use velox_os.Fs.Fat32.Lookup.{Outcome, found, code, fat32_lookup}
use velox_os.Fs.Fat32Vfs.{Inode, FatHeap, fat32_dir_ops, find_sibling_ci, find_cached, put_inode}
use velox_os.Fs.Fat32Vfs.Tree.{
  State, memory, lift, inode_of, with_inode, make_tree_node, fat32_vfs_make_node, kept, linked,
  add_found, lookup_uncached, lookup_below, fat32_vfs_lookup, fat_env,
}

vfs_add_child-mounts :
    {H : Type 0} (parent child : ℕ) (s : Fs H) → (vfs_add_child parent child s).1.mounts ≡ s.mounts
unfolding vfs_add_child
vfs_add_child-mounts parent child s = elim (Bool-cases ((parent == 0) || (child == 0))) [
  | inl e ↦ rw e refl
  | inr e ↦ rw e (elim (Bool-cases (not (is_dir (s.nodes parent).type))) [
    | inl d ↦ rw d refl
    | inr d ↦ rw d refl
  ])
]

vfs_node_destroy-mounts :
    (e : Env) (node : ℕ) (s : Fs e.Heap) → (vfs_node_destroy e node s).mounts ≡ s.mounts
unfolding vfs_node_destroy
vfs_node_destroy-mounts e node s = elim (Bool-cases (node == 0)) [
  | inl z ↦ rw z refl
  | inr z ↦ rw z refl
]

with_name-mounts :
    (e : Env) (node : ℕ) (name : Bytes) (type ops payload : ℕ) (k : ℕ × e.Heap) (s : Fs e.Heap)
    → (with_name e node name type ops payload k s).1.mounts ≡ s.mounts
unfolding with_name
with_name-mounts e node name type ops payload (p, h) s = elim (Bool-cases (p == 0)) [
  | inl z ↦ rw z refl
  | inr z ↦ rw z refl
]

vfs_node_create-mounts :
    (e : Env) (name : Bytes) (type ops payload : ℕ) (s : Fs e.Heap)
    → (vfs_node_create e name type ops payload s).1.mounts ≡ s.mounts
unfolding vfs_node_create
vfs_node_create-mounts e name type ops payload s =
    elim (Bool-cases ((e.kmalloc node_size s.heap).0 == 0)) [
      | inl z ↦ rw z refl
      | inr z ↦ rw z (elim (Bool-cases (ltb vfs_name_max (length name))) [
        | inl l ↦ rw l refl
        | inr l ↦ rw l (with_name-mounts e _ name type ops payload _ s)
      ])
    ]

module _ (device : ℕ → ℕ → Option Bytes) (g : Gpt) (rounds fuel : ℕ) {H : Type 0}
    (malloc : ℕ → H → ℕ × H) (free : ℕ → H → H) where
  abbrev St : Type 0
  St = State device g rounds fuel malloc free

  abbrev env : Env
  env = memory device g rounds fuel malloc free

  -- A run that ends leaves the mounts of `s`.
  abbrev Keeping : {A : Type 0} → St → Option (A × St) → Type 0
  Keeping s none = Unit
  Keeping s (some (a, t)) = t.mounts ≡ s.mounts

  after-Keeping :
      {B : Type 0} (o : Option (B × St)) (t s : St)
      → t.mounts ≡ s.mounts
      → Keeping t o
      → Keeping s o
  after-Keeping none t s h k = tt
  after-Keeping (some (b, u)) t s h k = k ∙ h

  bind-Keeping :
      {A B : Type 0} (m : M St A) (f : A → M St B) (s : St)
      → Keeping s (m s)
      → ((a : A) (t : St) → Keeping t (f a t))
      → Keeping s ((m >>= f) s)
  bind-Keeping m f s h k = elim (Option-cases (m s)) [
    | inl e ↦ rw (e, ◌>>=◌) tt
    | inr ((a, t), e) ↦
        let same : t.mounts ≡ s.mounts = rw e at h in
        rw (e, ◌>>=◌) (after-Keeping (f a t) t s same (k a t))
  ]

  lift-Keeping :
      {A : Type 0} (m : M (FatHeap H) A) (s : St)
      → Keeping s (lift device g rounds fuel malloc free m s)
  lift-Keeping m s = elim (Option-cases (m s.heap)) [
    | inl e ↦ rw e tt
    | inr ((a, h), e) ↦ rw e refl
  ]

  with_inode-mounts :
      (node size : ℕ) (i : Inode) (k : ℕ × FatHeap H) (s : St)
      → (with_inode device g rounds fuel malloc free node size i k s).1.mounts ≡ s.mounts
  unfolding with_inode put_inode
  with_inode-mounts node size i (p, h) s = elim (Bool-cases (p == 0)) [
    | inl z ↦ rw z (vfs_node_destroy-mounts env node (record s { heap = h }))
    | inr z ↦ rw z refl
  ]

  pub make_tree_node-mounts :
      (name : Bytes) (type ops size : ℕ) (i : Inode) (s : St)
      → (make_tree_node device g rounds fuel malloc free name type ops size i s).1.mounts ≡ s.mounts
  unfolding make_tree_node
  make_tree_node-mounts name type ops size i s =
      let made = vfs_node_create env name type ops 0 s in
      let same = vfs_node_create-mounts env name type ops 0 s in
      elim (Bool-cases (made.0 == 0)) [
        | inl z ↦ rw z same
        | inr z ↦ rw z (with_inode-mounts made.0 size i _ made.1 ∙ same)
      ]

  kept-mounts :
      (child : ℕ) (rc : ℤ) (s : St)
      → (kept device g rounds fuel malloc free child rc s).1.mounts ≡ s.mounts
  unfolding kept
  kept-mounts child (pos n) s = refl
  kept-mounts child (negsuc n) s = vfs_node_destroy-mounts env child s

  either-mounts :
      (b : Bool) (x y : ℕ × St) (s : St)
      → x.1.mounts ≡ s.mounts
      → y.1.mounts ≡ s.mounts
      → (if b then x else y).1.mounts ≡ s.mounts
  either-mounts true x y s h k = h
  either-mounts false x y s h k = k

  linked-mounts :
      (dir : ℕ) (k : ℕ × St) → (linked device g rounds fuel malloc free dir k).1.mounts ≡ k.1.mounts
  unfolding linked
  linked-mounts dir (child, s) =
      let added = vfs_add_child dir child s in
      either-mounts (child == 0) (0, s)
        (kept device g rounds fuel malloc free child added.0 added.1) s refl
        (kept-mounts child added.0 added.1 ∙ vfs_add_child-mounts dir child s)

  add_found-Keeping :
      (dir : ℕ) (vol : Vol) (r : Outcome FatDirent) (s : St)
      → Keeping s (add_found device g rounds fuel malloc free dir vol r s)
  unfolding add_found fat32_vfs_make_node
  add_found-Keeping dir vol (code rc) s = refl
  add_found-Keeping dir vol (found d) s =
      linked-mounts dir (fat32_vfs_make_node device g rounds fuel malloc free vol d s)
      ∙ make_tree_node-mounts d.name _ _ d.file_size _ s

  lookup_uncached-Keeping :
      (dir p : ℕ) (name : Bytes) (s : St)
      → Keeping s (lookup_uncached device g rounds fuel malloc free dir p name s)
  unfolding lookup_uncached
  lookup_uncached-Keeping dir p name s =
      let inode = inode_of device g rounds fuel malloc free s p in
      let on_disk : M (FatHeap H) (Outcome FatDirent) =
        fat32_lookup device g inode.vol rounds env inode.first_cluster name in
      elim (Bool-cases (p == 0)) [
        | inl z ↦ rw z refl
        | inr z ↦ rw z (elim (Bool-cases (inode.dir_cache_loaded && not (inode.dir_cache == 0))) [
          | inl l ↦ rw l (add_found-Keeping dir inode.vol (find_cached name inode.cached) s)
          | inr l ↦ rw l (
              bind-Keeping (lift device g rounds fuel malloc free on_disk)
                (add_found device g rounds fuel malloc free dir inode.vol) s
                (lift-Keeping on_disk s) (add_found-Keeping dir inode.vol))
        ])
      ]

  lookup_below-Keeping :
      (dir : ℕ) (name : Bytes) (child : Option ℕ) (s : St)
      → Keeping s (lookup_below device g rounds fuel malloc free dir name child s)
  unfolding lookup_below
  lookup_below-Keeping dir name none s = tt
  lookup_below-Keeping dir name (some child) s = elim (Bool-cases (child == 0)) [
    | inl z ↦ rw z (lookup_uncached-Keeping dir (s.nodes dir).payload name s)
    | inr z ↦ rw z refl
  ]

  fat32_vfs_lookup-Keeping :
      (dir : ℕ) (name : Bytes) (s : St)
      → Keeping s (fat32_vfs_lookup device g rounds fuel malloc free dir name s)
  unfolding fat32_vfs_lookup
  fat32_vfs_lookup-Keeping dir name s =
      lookup_below-Keeping dir name (find_sibling_ci fuel s.nodes (s.nodes dir).first_child name) s

  -- No lookup of the driver mounts or unmounts.
  pub fat_env-KeepsMounts : KeepsMounts (fat_env device g rounds fuel malloc free)
  fat_env-KeepsMounts a dir name s t child f h k = elim (Bool-cases (a == fat32_dir_ops)) [
    | inl z ↦
        let here : some (fat32_vfs_lookup device g rounds fuel malloc free) ≡ some f = rw z at h in
        let same : fat32_vfs_lookup device g rounds fuel malloc free ≡ f = cc in
        subst (Keeping s) (ap (λ r. r dir name s) same ∙ k) (fat32_vfs_lookup-Keeping dir name s)
    | inr z ↦ (let no_lookup = (rw z at h) in cc)
  ]
