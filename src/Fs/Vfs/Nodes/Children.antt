-- ===== src/Fs/Vfs/Nodes/Children.antt =====
-- The child lists of fs/vfs/vfs.c as plain lists: adding, finding and reading entries.
use mathlib.Core.Path.{subst}
use velox_os.Prelude.{
  ℕ, zero, suc, ◌+◌, ◌<◌, ◌≡◌, refl, sym, ap, ◌∙◌, ◌≢◌, ◌⊎◌, inl, inr, true, false, not, ◌&&◌, ◌||◌,
  some, List, [], ◌∷◌, All, length, ◌==◌, Bool-cases, if◌then◌else◌, arith,
}
use velox_os.Fs.Vfs.{ℤ, pos, Bytes, Node, Fs, is_dir}
use velox_os.Fs.Vfs.Nodes.{vfs_strcmp_eq, put_node, find_sibling, vfs_find_child, vfs_add_child}

vfs_strcmp_eq_refl : (a : Bytes) → vfs_strcmp_eq a a ≡ true
unfolding vfs_strcmp_eq
vfs_strcmp_eq_refl [] = refl
vfs_strcmp_eq_refl (x ∷ a) = ground (arith, vfs_strcmp_eq_refl a)

-- Two strings that compare equal are the same bytes.
eq_of_vfs_strcmp_eq : (a b : Bytes) → vfs_strcmp_eq a b ≡ true → a ≡ b
unfolding vfs_strcmp_eq
eq_of_vfs_strcmp_eq [] [] h = refl
eq_of_vfs_strcmp_eq [] (y ∷ b) h = absurd (ground arith)
eq_of_vfs_strcmp_eq (x ∷ a) [] h = absurd (ground arith)
eq_of_vfs_strcmp_eq (x ∷ a) (y ∷ b) h =
    let head : x ≡ y = ground arith in
    let rest : vfs_strcmp_eq a b ≡ true = ground arith in
    ap (λ z. z ∷ a) head ∙ ap (λ c. y ∷ c) (eq_of_vfs_strcmp_eq a b rest)

other_of_vfs_strcmp_eq : (a b : Bytes) → vfs_strcmp_eq a b ≡ false → a ≢ b
other_of_vfs_strcmp_eq a b h same =
    let hit : vfs_strcmp_eq a b ≡ true = ap (vfs_strcmp_eq a) (sym same) ∙ vfs_strcmp_eq_refl a in
    cc

-- From `first` on, the sibling links run through exactly these nodes.
abbrev pub Chain : (ℕ → Node) → (first : ℕ) → List ℕ → Type 0
Chain nodes first [] = first ≡ 0
Chain nodes first (n ∷ ns) = (first ≡ n) × (n ≢ 0) × Chain nodes (nodes n).next_sibling ns

-- The first node of that name.
unfoldable pub named : (ℕ → Node) → Bytes → List ℕ → ℕ
named nodes name [] = 0
named nodes name (n ∷ ns) =
    if not ((nodes n).name == 0) && vfs_strcmp_eq (nodes n).text name
    then n
    else named nodes name ns

pub find_sibling-named :
    (fuel : ℕ) (nodes : ℕ → Node) (first : ℕ) (name : Bytes) (ns : List ℕ)
    → Chain nodes first ns
    → length ns < fuel
    → find_sibling fuel nodes first name ≡ some (named nodes name ns)
unfolding find_sibling named
find_sibling-named zero nodes first name ns h l = absurd (omega arith)
find_sibling-named (suc fuel) nodes first name [] h l = ground arith
find_sibling-named (suc fuel) nodes first name (n ∷ ns) (e, z, h) l =
    let ih = find_sibling-named fuel nodes (nodes n).next_sibling name ns h (omega arith) in
    rw (e, ih) (ground arith)

-- Which nodes a list names, under a store that changes neither names nor links.
Chain-cong :
    (f g : ℕ → Node) (first : ℕ) (ns : List ℕ)
    → All (λ n. (g n).next_sibling ≡ (f n).next_sibling) ns
    → Chain f first ns
    → Chain g first ns
Chain-cong f g first [] h k = k
Chain-cong f g first (n ∷ ns) h (e, z, k) =
    (e, z, rw (h.0) (Chain-cong f g (f n).next_sibling ns h.1 k))

named_cong :
    (f g : ℕ → Node) (name : Bytes) (ns : List ℕ)
    → ((n : ℕ) → ((g n).name ≡ (f n).name) × ((g n).text ≡ (f n).text))
    → named g name ns ≡ named f name ns
unfolding named
named_cong f g name [] h = refl
named_cong f g name (n ∷ ns) h = rw ((h n).0, (h n).1, named_cong f g name ns h)

-- The store of `vfs_add_child`.
abbrev added : (ℕ → Node) → (parent child : ℕ) → ℕ → Node
added nodes parent child =
    let c = record (nodes child) { parent = parent; next_sibling = (nodes parent).first_child } in
    let with_child = put_node nodes child c in
    put_node with_child parent (record (with_child parent) { first_child = child })

added_names :
    (nodes : ℕ → Node) (parent child n : ℕ)
    → ((added nodes parent child n).name ≡ (nodes n).name)
      × ((added nodes parent child n).text ≡ (nodes n).text)
added_names nodes parent child n = ground arith

added_links :
    (nodes : ℕ → Node) (parent child : ℕ) (ns : List ℕ)
    → All (λ n. n ≢ child) ns
    → All (λ n. (added nodes parent child n).next_sibling ≡ (nodes n).next_sibling) ns
added_links nodes parent child [] h = tt
added_links nodes parent child (n ∷ ns) h =
    let apart : n ≢ child = h.0 in (ground arith, added_links nodes parent child ns h.1)

added_child :
    (nodes : ℕ → Node) (parent child : ℕ)
    → (added nodes parent child child).next_sibling ≡ (nodes parent).first_child
added_child nodes parent child = ground arith

added_first :
    (nodes : ℕ → Node) (parent child : ℕ) → (added nodes parent child parent).first_child ≡ child
added_first nodes parent child = ground arith

module _ {H : Type 0} (parent child : ℕ) (ns : List ℕ) (s t : Fs H)
    (ok : vfs_add_child parent child s ≡ (pos 0, t))
    (linked : Chain s.nodes (s.nodes parent).first_child ns) (fresh : All (λ n. n ≢ child) ns) where
  add_child-added : (t.nodes ≡ added s.nodes parent child) × (child ≢ 0) × (parent ≢ 0)
  unfolding vfs_add_child
  add_child-added = (elim (Bool-cases ((parent == 0) || (child == 0))) [
    | inl z ↦ absurd (ground arith)
    | inr z ↦ elim (Bool-cases (is_dir (s.nodes parent).type)) [
      | inl d ↦
          (ap (λ (x : ℤ × Fs H). x.1.nodes) (sym (rw (z, d) at ok)), ground arith, ground arith)
      | inr d ↦ absurd (ground arith)
    ]
  ])

  -- A child that was added, and was not in the list before, is the first of its parent's list, and
  -- the others follow as they were.
  pub vfs_add_child-Chain : Chain t.nodes (t.nodes parent).first_child (child ∷ ns)
  vfs_add_child-Chain =
      let (e, z, _) = add_child-added in
      subst (λ f. Chain f (f parent).first_child (child ∷ ns)) (sym e)
        (
          added_first s.nodes parent child,
          z,
          subst (λ k. Chain (added s.nodes parent child) k ns)
              (sym (added_child s.nodes parent child))
              (Chain-cong s.nodes (added s.nodes parent child) (s.nodes parent).first_child ns
                (added_links s.nodes parent child ns fresh) linked),
        )

  find_added :
      (fuel : ℕ) (name : Bytes)
      → length ns + 1 < fuel
      → vfs_find_child fuel t.nodes parent name
        ≡ some (
            if not ((s.nodes child).name == 0) && vfs_strcmp_eq (s.nodes child).text name
            then child
            else named s.nodes name ns)
  unfolding vfs_find_child named
  find_added fuel name l =
      let (e, z, p) = add_child-added in
      let found =
        find_sibling-named fuel t.nodes (t.nodes parent).first_child name (child ∷ ns)
          vfs_add_child-Chain (omega arith) in
      let same : named t.nodes name (child ∷ ns) ≡ named s.nodes name (child ∷ ns) =
        ap (λ f. named f name (child ∷ ns)) e
        ∙ named_cong s.nodes (added s.nodes parent child) name (child ∷ ns)
            (added_names s.nodes parent child) in
      let np : (parent == 0) ≡ false = ground arith in rw np (found ∙ ap some same)

  find_before :
      (fuel : ℕ) (name : Bytes)
      → length ns + 1 < fuel
      → vfs_find_child fuel s.nodes parent name ≡ some (named s.nodes name ns)
  unfolding vfs_find_child
  find_before fuel name l =
      let np : (parent == 0) ≡ false = (let (e, z, p) = add_child-added in ground arith) in
      rw np
        (find_sibling-named fuel s.nodes (s.nodes parent).first_child name ns linked (omega arith))

  -- After a child with a name was added to a list that it was not in, its own name finds it, and
  -- any other name finds what it found before, when the bound on the rounds exceeds the length of
  -- the list by two.
  pub vfs_find_child-vfs_add_child :
      (fuel : ℕ) (name : Bytes)
      → length ns + 1 < fuel
      → (s.nodes child).name ≢ 0
      → (((s.nodes child).text ≡ name) × (vfs_find_child fuel t.nodes parent name ≡ some child))
        ⊎ (((s.nodes child).text ≢ name)
            × (vfs_find_child fuel t.nodes parent name ≡ vfs_find_child fuel s.nodes parent name))
  vfs_find_child-vfs_add_child fuel name l held =
      let has_name : ((s.nodes child).name == 0) ≡ false = ground arith in
      elim (Bool-cases (vfs_strcmp_eq (s.nodes child).text name)) [
        | inl hit ↦ inl (
          eq_of_vfs_strcmp_eq (s.nodes child).text name hit,
          find_added fuel name l ∙ rw (has_name, hit) refl,
        )
        | inr miss ↦ inr (
          (λ same. other_of_vfs_strcmp_eq (s.nodes child).text name miss same),
          find_added fuel name l ∙ rw (has_name, miss) (sym (find_before fuel name l)),
        )
      ]
