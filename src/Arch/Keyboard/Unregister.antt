-- ===== src/Arch/Keyboard/Unregister.antt =====
-- `kbd_unregister_listener` of ps2_keyboard.c.
use velox_os.Prelude.{
  ℕ, zero, suc, ◌<◌, ◌≡◌, ◌≢◌, refl, ◌∙◌, true, false, List, [], ◌∷◌, arith, ◌==◌, if◌then◌else◌,
  length, Bool-cases, ◌⊎◌, inl, inr, some,
}
use mathlib.Core.Path.{subst, sym}
use velox_os.Arch.Keyboard.{
  Kbd, read_link, set_next, write_link, Walk, found, unregister_walk, kbd_unregister_listener,
}
use velox_os.Arch.Keyboard.Order.{
  mem, Chain, Distinct, priority, Descending, IsListeners, Chain-frame, Descending-frame,
}
use velox_os.Arch.Keyboard.Register.{mem_nonnull, read_y}

-- The list without `p`.
abbrev pub remove : ℕ → List ℕ → List ℕ
remove p [] = []
remove p (x ∷ xs) = if p == x then xs else x ∷ remove p xs

mem-remove : (p q : ℕ) (xs : List ℕ) → mem q xs ≡ false → mem q (remove p xs) ≡ false
mem-remove p q [] m = refl
mem-remove p q (x ∷ xs) m = ground (arith, m, mem-remove p q xs)

Distinct-remove : (p : ℕ) (xs : List ℕ) → Distinct xs → Distinct (remove p xs)
Distinct-remove p [] d = tt
Distinct-remove p (x ∷ xs) d = elim (Bool-cases (p == x)) [
  | inl e ↦ rw e d.1
  | inr e ↦ rw e (mem-remove p x xs d.0, Distinct-remove p xs d.1)
]

Descending-remove : (s : Kbd) (p : ℕ) (xs : List ℕ) → Descending s xs → Descending s (remove p xs)
Descending-remove s p [] d = tt
Descending-remove s p (x ∷ xs) d = elim (Bool-cases (p == x)) [
  | inl e ↦ rw e d.1
  | inr e ↦ rw e (λ q m. d.0 q (in_whole q m), Descending-remove s p xs d.1)
]
  where
    in_whole : (q : ℕ) → mem q (remove p xs) ≡ true → mem q xs ≡ true
    in_whole q m = ground (arith, m, mem-remove p q xs)

-- The state after `p` is taken out at the link `l`.
abbrev unlinked : Kbd → (p l : ℕ) → Kbd
unlinked s p l = set_next p 0 (write_link l (s.listeners p).next s)

module _ (s : Kbd) (p : ℕ) (nz : p ≢ 0) where
  record Finds (pp : ℕ) (ys : List ℕ) (w : Walk) : Type 0 where
    link : ℕ
    ends : w ≡ found link
    chain : Chain (unlinked s p link) (read_link pp (unlinked s p link)) (remove p ys)
    near : (link ≡ pp) ⊎ (mem link ys ≡ true)

  found_here :
      (pp : ℕ) (ys : List ℕ)
      → pp ≢ p
      → mem pp (p ∷ ys) ≡ false
      → mem p ys ≡ false
      → Chain s (s.listeners p).next ys
      → Chain (unlinked s p pp) (read_link pp (unlinked s p pp)) ys
  found_here pp ys ne m fresh c =
      rw skips (Chain-frame s (unlinked s p pp) _ ys (λ q i. ground arith) c)
    where
      skips : read_link pp (unlinked s p pp) ≡ (s.listeners p).next
      skips = ground arith

  found_later :
      (pp y : ℕ) (ys : List ℕ) (w : Walk)
      → pp ≢ p
      → mem pp (y ∷ ys) ≡ false
      → (p == y) ≡ false
      → Distinct (y ∷ ys)
      → Chain s (read_link pp s) (y ∷ ys)
      → Finds y ys w
      → Finds pp (y ∷ ys) w
  found_later pp y ys w ne m other d c r = record {
    link = r.link;
    ends = r.ends;
    chain =
        rw other (kept ∙ c.0, c.1, rw (sym (read_y s p nz y c.1 (unlinked s p r.link))) r.chain);
    near = inr (ground (arith, r.near));
  }
    where
      elsewhere : r.link ≢ pp
      elsewhere = ground (arith, r.near, m)

      kept : read_link pp (unlinked s p r.link) ≡ read_link pp s
      kept = ground (arith, elsewhere)

  goes_on :
      (fuel pp y : ℕ)
      → read_link pp s ≡ y
      → y ≢ 0
      → (p == y) ≡ false
      → unregister_walk (suc fuel) pp p s ≡ unregister_walk fuel y p s
  unfolding unregister_walk
  goes_on fuel pp y e yz other = rw e (ground arith)

  walk-Finds :
      (fuel pp : ℕ) (ys : List ℕ)
      → length ys < fuel
      → pp ≢ p
      → mem pp ys ≡ false
      → mem p ys ≡ true
      → Distinct ys
      → Chain s (read_link pp s) ys
      → Finds pp ys (unregister_walk fuel pp p s)
  unfolding unregister_walk
  walk-Finds zero pp ys h ne m i d c = absurd (omega arith)
  walk-Finds (suc fuel) pp [] h ne m i d c = absurd (ground (arith, i))
  walk-Finds (suc fuel) pp (y ∷ ys) h ne m i d c = elim (Bool-cases (p == y)) [
    | inl here ↦
        let same : y ≡ p = ground arith in
        record {
          link = pp;
          ends = ground (arith, c.0, c.1);
          chain =
              rw here
                (found_here pp ys ne (rw (sym same) m) (rw (sym same) d.0) (rw (sym same) c.2));
          near = inl refl;
        }
    | inr other ↦ subst (Finds pp (y ∷ ys)) (sym (goes_on fuel pp y c.0 c.1 other)) (
        found_later pp y ys _ ne m other d c (
          walk-Finds fuel y ys (omega arith) (ground arith) d.0 (ground (arith, i)) d.1
            (rw (read_y s p nz y c.1 s) c.2)))
  ]

priority-unlinked : (s : Kbd) (p l q : ℕ) → priority (unlinked s p l) q ≡ priority s q
priority-unlinked s p l q = ground arith

-- Unregistering a listener that is in a well-formed list takes it out, leaves the others in their
-- order, and the list stays well-formed. A fuel above the list's length is enough.
pub kbd_unregister_listener-IsListeners :
    (fuel p : ℕ) (s : Kbd) (xs : List ℕ)
    → length xs < fuel
    → p ≢ 0
    → mem p xs ≡ true
    → IsListeners s xs
    → (s' : Kbd) × (kbd_unregister_listener fuel p s ≡ some s') × IsListeners s' (remove p xs)
unfolding kbd_unregister_listener
kbd_unregister_listener-IsListeners fuel p s xs h nz m is =
    (let w =
        walk-Finds s p nz fuel 0 xs h (λ e. nz (sym e)) (mem_nonnull s s.list xs is.chain) m
          is.distinct is.chain in
      let on : (p == 0) ≡ false = ground arith in
      (
        unlinked s p w.link,
        rw (on, w.ends) refl,
        record {
          chain = w.chain;
          distinct = Distinct-remove p xs is.distinct;
          descending =
              Descending-frame s (unlinked s p w.link) (remove p xs) (priority-unlinked s p w.link)
                (Descending-remove s p xs is.descending);
        },
      ))
