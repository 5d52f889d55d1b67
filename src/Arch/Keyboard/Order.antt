-- ===== src/Arch/Keyboard/Order.antt =====
-- The list of listeners of ps2_keyboard.c as a list of addresses.
use velox_os.Prelude.{
  ℕ, ◌≤◌, ◌≡◌, ◌≢◌, refl, Bool, true, false, ◌||◌, List, [], ◌∷◌, arith, ltb, ◌==◌, if◌then◌else◌,
  Bool-cases, inl, inr,
}
use velox_os.Arch.Keyboard.{Kbd}

abbrev pub mem : ℕ → List ℕ → Bool
mem p [] = false
mem p (x ∷ xs) = (p == x) || mem p xs

-- From `p` the list runs through `xs` to NULL.
abbrev pub Chain : Kbd → ℕ → List ℕ → Type 0
Chain s p [] = p ≡ 0
Chain s p (x ∷ xs) = (p ≡ x) × (x ≢ 0) × Chain s (s.listeners x).next xs

abbrev pub Distinct : List ℕ → Type 0
Distinct [] = Unit {0}
Distinct (x ∷ xs) = (mem x xs ≡ false) × Distinct xs

abbrev pub priority : Kbd → ℕ → ℕ
priority s p = (s.listeners p).priority

-- Highest priority first.
abbrev pub Descending : Kbd → List ℕ → Type 0
Descending s [] = Unit {0}
Descending s (x ∷ xs) = ((q : ℕ) → mem q xs ≡ true → priority s q ≤ priority s x) × Descending s xs

pub record IsListeners (s : Kbd) (xs : List ℕ) : Type 0 where
  pub chain : Chain s s.list xs
  pub distinct : Distinct xs
  pub descending : Descending s xs

-- The place of a new listener: behind those of its priority.
abbrev pub insert : Kbd → ℕ → List ℕ → List ℕ
insert s p [] = p ∷ []
insert s p (x ∷ xs) = if ltb (priority s x) (priority s p) then p ∷ x ∷ xs else x ∷ insert s p xs

pub mem-insert : (s : Kbd) (p q : ℕ) (xs : List ℕ) → mem q (insert s p xs) ≡ ((q == p) || mem q xs)
mem-insert s p q [] = refl
mem-insert s p q (x ∷ xs) = ground (arith, mem-insert s p q xs)

pub Distinct-insert :
    (s : Kbd) (p : ℕ) (xs : List ℕ) → Distinct xs → mem p xs ≡ false → Distinct (insert s p xs)
Distinct-insert s p [] d m = (refl, tt)
Distinct-insert s p (x ∷ xs) d m = elim (Bool-cases (ltb (priority s x) (priority s p))) [
  | inl e ↦ rw e (ground (arith, m), d)
  | inr e ↦ rw e (ground (arith, mem-insert s p x xs), Distinct-insert s p xs d.1 (ground arith))
]

pub Descending-insert :
    (s : Kbd) (p : ℕ) (xs : List ℕ) → Descending s xs → Descending s (insert s p xs)
Descending-insert s p [] d = (λ q m. absurd (ground (arith, m)), tt)
Descending-insert s p (x ∷ xs) d = elim (Bool-cases (ltb (priority s x) (priority s p))) [
  | inl e ↦ rw e (λ q m. ground (arith, d.0 q), d)
  | inr e ↦ rw e (λ q m. ground (arith, mem-insert s p q xs, d.0 q), Descending-insert s p xs d.1)
]

-- A change of links that are not on it leaves a chain.
pub Chain-frame :
    (s t : Kbd) (p : ℕ) (xs : List ℕ)
    → ((q : ℕ) → mem q xs ≡ true → (t.listeners q).next ≡ (s.listeners q).next)
    → Chain s p xs
    → Chain t p xs
Chain-frame s t p [] same c = c
Chain-frame s t p (x ∷ xs) same c =
    (c.0, c.1, rw (same x (ground arith)) (Chain-frame s t _ xs (λ q m. same q (ground arith)) c.2))

-- The order looks at priorities only.
pub Descending-frame :
    (s t : Kbd) (xs : List ℕ)
    → ((q : ℕ) → priority t q ≡ priority s q)
    → Descending s xs
    → Descending t xs
Descending-frame s t [] same d = tt
Descending-frame s t (x ∷ xs) same d =
    (λ q m. ground (arith, same q, same x, d.0 q), Descending-frame s t xs same d.1)
