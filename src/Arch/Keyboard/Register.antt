-- ===== src/Arch/Keyboard/Register.antt =====
-- `kbd_register_listener` of ps2_keyboard.c.
use velox_os.Prelude.{
  ℕ, zero, suc, ◌<◌, ◌≡◌, ◌≢◌, refl, ◌∙◌, true, false, ◌||◌, List, [], ◌∷◌, arith, ltb, ◌==◌,
  length, Bool-cases, ◌⊎◌, inl, inr, some,
}
use mathlib.Core.Path.{subst, sym}
use velox_os.Arch.Keyboard.{
  Kbd, read_link, set_next, write_link, Walk, found, stops, register_walk, kbd_register_listener,
}
use velox_os.Arch.Keyboard.Order.{
  mem, Chain, Distinct, priority, Descending, IsListeners, insert, Distinct-insert,
  Descending-insert, Chain-frame, Descending-frame,
}

-- The state after `p` is put in at the link `l`.
abbrev linked : Kbd → (p l : ℕ) → Kbd
linked s p l = write_link l p (set_next p (read_link l s) s)

module _ (s : Kbd) (p : ℕ) (nz : p ≢ 0) where
  -- Putting `p` in at a link `pp` in front of `ys`.
  linked_here :
      (pp : ℕ) (ys : List ℕ)
      → pp ≢ p
      → mem pp ys ≡ false
      → mem p ys ≡ false
      → Chain s (read_link pp s) ys
      → Chain (linked s p pp) (read_link pp (linked s p pp)) (p ∷ ys)
  linked_here pp ys ne m fresh c =
      (ground arith, nz, rw behind (Chain-frame s (linked s p pp) _ ys (λ q i. ground arith) c))
    where
      behind : ((linked s p pp).listeners p).next ≡ read_link pp s
      behind = ground arith

  -- Where the walk from `pp` along `ys` ends.
  record Stops (pp : ℕ) (ys : List ℕ) (w : Walk) : Type 0 where
    link : ℕ
    ends : w ≡ stops link
    chain : Chain (linked s p link) (read_link pp (linked s p link)) (insert s p ys)
    near : (link ≡ pp) ⊎ (mem link ys ≡ true)

  pub read_y : (y : ℕ) → y ≢ 0 → (t : Kbd) → read_link y t ≡ (t.listeners y).next
  read_y y yz t = ground arith

  -- The walk goes past `y`.
  passed :
      (pp y : ℕ) (ys : List ℕ) (w : Walk)
      → pp ≢ p
      → mem pp (y ∷ ys) ≡ false
      → mem p (y ∷ ys) ≡ false
      → ltb (priority s y) (priority s p) ≡ false
      → Chain s (read_link pp s) (y ∷ ys)
      → Stops y ys w
      → Stops pp (y ∷ ys) w
  passed pp y ys w ne m fresh above c r = record {
    link = r.link;
    ends = r.ends;
    chain = rw above (kept ∙ c.0, c.1, rw (sym (read_y y c.1 (linked s p r.link))) r.chain);
    near = inr (ground (arith, r.near));
  }
    where
      elsewhere : r.link ≢ pp
      elsewhere = ground (arith, r.near, m)

      kept : read_link pp (linked s p r.link) ≡ read_link pp s
      kept = ground (arith, elsewhere)

  goes_on :
      (fuel pp y : ℕ)
      → read_link pp s ≡ y
      → y ≢ 0
      → y ≢ p
      → ltb (priority s y) (priority s p) ≡ false
      → register_walk (suc fuel) pp p s ≡ register_walk fuel y p s
  unfolding register_walk
  goes_on fuel pp y e yz yp above = rw e (ground arith)

  walk-Stops :
      (fuel pp : ℕ) (ys : List ℕ)
      → length ys < fuel
      → pp ≢ p
      → mem pp ys ≡ false
      → mem p ys ≡ false
      → Distinct ys
      → Chain s (read_link pp s) ys
      → Stops pp ys (register_walk fuel pp p s)
  unfolding register_walk
  walk-Stops zero pp ys h ne m fresh d c = absurd (omega arith)
  walk-Stops (suc fuel) pp [] h ne m fresh d c = record {
    link = pp;
    ends = ground arith;
    chain = linked_here pp [] ne m fresh c;
    near = inl refl;
  }
  walk-Stops (suc fuel) pp (y ∷ ys) h ne m fresh d c =
      elim (Bool-cases (ltb (priority s y) (priority s p))) [
        | inl below ↦ record {
          link = pp;
          ends = ground arith;
          chain = rw below (linked_here pp (y ∷ ys) ne m fresh c);
          near = inl refl;
        }
        | inr above ↦
            subst (Stops pp (y ∷ ys))
              (sym (goes_on fuel pp y c.0 c.1 (ground (arith, fresh)) above))
              (passed pp y ys _ ne m fresh above c (
                walk-Stops fuel y ys (omega arith) (ground (arith, fresh)) d.0
                  (ground (arith, fresh)) d.1 (rw (read_y y c.1 s) c.2)))
      ]

pub mem_nonnull : (s : Kbd) (p : ℕ) (xs : List ℕ) → Chain s p xs → mem 0 xs ≡ false
mem_nonnull s p [] c = refl
mem_nonnull s p (x ∷ xs) c = ground (arith, c.1, mem_nonnull s (s.listeners x).next xs c.2)

priority-linked : (s : Kbd) (p l q : ℕ) → priority (linked s p l) q ≡ priority s q
priority-linked s p l q = ground arith

registered :
    (fuel p : ℕ) (s : Kbd) (l : ℕ)
    → p ≢ 0
    → (s.listeners p).handler ≢ 0
    → register_walk fuel 0 p s ≡ stops l
    → kbd_register_listener fuel p s ≡ some (true, linked s p l)
unfolding kbd_register_listener
registered fuel p s l nz hz e = rw (off, e) refl
  where
    off : (p == 0 || ((s.listeners p).handler == 0)) ≡ false
    off = ground arith

-- Registering a listener with a handler that is not in a well-formed list puts it behind those of
-- its priority or a higher one, and the list stays well-formed. A fuel above the list's length is
-- enough.
pub kbd_register_listener-IsListeners :
    (fuel p : ℕ) (s : Kbd) (xs : List ℕ)
    → length xs < fuel
    → p ≢ 0
    → (s.listeners p).handler ≢ 0
    → mem p xs ≡ false
    → IsListeners s xs
    → (s' : Kbd) × (kbd_register_listener fuel p s ≡ some (true, s'))
      × IsListeners s' (insert s p xs)
kbd_register_listener-IsListeners fuel p s xs h nz hz fresh is =
    (let w =
        walk-Stops s p nz fuel 0 xs h (λ e. nz (sym e)) (mem_nonnull s s.list xs is.chain) fresh
          is.distinct is.chain in
      (
        linked s p w.link,
        registered fuel p s w.link nz hz w.ends,
        record {
          chain = w.chain;
          distinct = Distinct-insert s p xs is.distinct fresh;
          descending =
              Descending-frame s (linked s p w.link) (insert s p xs) (priority-linked s p w.link)
                (Descending-insert s p xs is.descending);
        },
      ))

finds :
    (s : Kbd) (p : ℕ) (nz : p ≢ 0) (fuel pp : ℕ) (ys : List ℕ)
    → length ys < fuel
    → mem p ys ≡ true
    → Descending s ys
    → Chain s (read_link pp s) ys
    → (l : ℕ) × (register_walk fuel pp p s ≡ found l)
unfolding register_walk
finds s p nz zero pp ys h m d c = absurd (omega arith)
finds s p nz (suc fuel) pp [] h m d c = absurd (ground (arith, m))
finds s p nz (suc fuel) pp (y ∷ ys) h m d c = elim (Bool-cases (p == y)) [
  | inl here ↦ (pp, ground (arith, c.0, c.1))
  | inr later ↦
      let i : mem p ys ≡ true = ground (arith, m) in
      let (l, e) = finds s p nz fuel y ys (omega arith) i d.1 (rw (read_y s p nz y c.1 s) c.2) in
      (l, goes_on s p nz fuel pp y c.0 c.1 (ground arith) (ground (arith, d.0 p i)) ∙ e)
]

-- Registering a listener that is in a well-formed list fails and changes nothing.
pub kbd_register_listener_twice :
    (fuel p : ℕ) (s : Kbd) (xs : List ℕ)
    → length xs < fuel
    → mem p xs ≡ true
    → IsListeners s xs
    → kbd_register_listener fuel p s ≡ some (false, s)
unfolding kbd_register_listener
kbd_register_listener_twice fuel p s xs h m is =
    elim (Bool-cases (p == 0 || ((s.listeners p).handler == 0))) [
      | inl off ↦ rw off refl
      | inr on ↦
          let (l, e) = finds s p (ground (arith, on)) fuel 0 xs h m is.descending is.chain in
          rw (on, e) refl
    ]
