-- ===== src/Arch/Keyboard/Event.antt =====
-- `ps2_keyboard_irq` of ps2_keyboard.c: a sequence of scancodes and the calls of the handlers.
use velox_os.Prelude.{
  ℕ, zero, suc, ◌%◌, ◌<◌, ◌≡◌, refl, Bool, true, false, List, [], ◌∷◌, ◌++◌, arith, ltb, ◌==◌,
  if◌then◌else◌, length, All, Bool-cases, inl, inr, Option, some, none, bit_and,
}
use velox_os.Prelude.Bits.{bit_and-low, bit_and-high}
use velox_os.Arch.Keyboard.{Kbd, KbdEvent, notify, ps2_keyboard_irq}
use velox_os.Arch.Keyboard.Order.{Chain, IsListeners}

-- A key of scancode set 1, behind the prefix byte or not.
abbrev pub key : Bool → ℕ → KbdEvent
key prefix code = record { keycode = code % 128; e0_prefix = prefix; pressed = ltb code 128 }

-- The events of a sequence of bytes.
abbrev pub decode : Bool → List ℕ → List KbdEvent
decode prefix [] = []
decode prefix (c ∷ cs) = if c == 0xE0 then decode true cs else key prefix c ∷ decode false cs

-- One event goes to each listener with a handler, in the order of the list.
abbrev pub calls : Kbd → KbdEvent → List ℕ → List (ℕ × KbdEvent × ℕ)
calls s event [] = []
calls s event (x ∷ xs) =
    if (s.listeners x).handler == 0
    then calls s event xs
    else ((s.listeners x).handler, event, (s.listeners x).ctx) ∷ calls s event xs

abbrev pub all_calls : Kbd → List KbdEvent → List ℕ → List (ℕ × KbdEvent × ℕ)
all_calls s [] xs = []
all_calls s (e ∷ es) xs = calls s e xs ++ all_calls s es xs

abbrev pub also :
    Option (List (ℕ × KbdEvent × ℕ))
    → Option (List (ℕ × KbdEvent × ℕ))
    → Option (List (ℕ × KbdEvent × ℕ))
also none b = none
also (some a) none = none
also (some a) (some b) = some (a ++ b)

-- The calls that the interrupts of a sequence of bytes make.
abbrev pub run : (fuel : ℕ) → List ℕ → Kbd → Option (List (ℕ × KbdEvent × ℕ))
run fuel [] s = some []
run fuel (c ∷ cs) s = (let r = ps2_keyboard_irq fuel c s in also r.0 (run fuel cs r.1))

notify-calls :
    (fuel p : ℕ) (event : KbdEvent) (s : Kbd) (xs : List ℕ)
    → length xs < fuel
    → Chain s p xs
    → notify fuel p event s ≡ some (calls s event xs)
unfolding notify
notify-calls zero p event s xs h c = absurd (omega arith)
notify-calls (suc fuel) p event s [] h c = ground (arith, c)
notify-calls (suc fuel) p event s (x ∷ xs) h c =
    rw (c.0, nonnull, notify-calls fuel (s.listeners x).next event s xs (omega arith) c.2)
      (elim (Bool-cases ((s.listeners x).handler == 0)) [
        | inl e ↦ rw e refl
        | inr e ↦ rw (e, c.0) refl
      ])
  where
    nonnull : (x == 0) ≡ false
    nonnull = ground (arith, c.1)

irq-prefix :
    (fuel : ℕ) (code : ℕ) (s : Kbd)
    → (code == 0xE0) ≡ true
    → ps2_keyboard_irq fuel code s ≡ (some [], record s { e0_prefix = true })
unfolding ps2_keyboard_irq
irq-prefix fuel code s e = rw e refl

irq-key :
    (fuel code : ℕ) (s : Kbd) (xs : List ℕ)
    → length xs < fuel
    → code < 256
    → Chain s s.list xs
    → (code == 0xE0) ≡ false
    → ps2_keyboard_irq fuel code s
      ≡ (some (calls s (key s.e0_prefix code) xs), record s { e0_prefix = false })
unfolding ps2_keyboard_irq
irq-key fuel code s xs h byte c plain =
    rw
      (
        plain,
        bit_and-low code 7,
        released,
        notify-calls fuel s.list (key s.e0_prefix code) s xs h c,
      )
      refl
  where
    released : (bit_and code 0x80 == 0) ≡ ltb code 128
    released = ground (arith, bit_and-high code 1 7)

abbrev prefixed : Kbd → Bool → Kbd
prefixed s b = record s { e0_prefix = b }

Chain-prefixed :
    (s : Kbd) (b : Bool) (p : ℕ) (xs : List ℕ) → Chain s p xs → Chain (prefixed s b) p xs
Chain-prefixed s b p [] c = c
Chain-prefixed s b p (x ∷ xs) c = (c.0, c.1, Chain-prefixed s b (s.listeners x).next xs c.2)

calls-prefixed :
    (s : Kbd) (b : Bool) (event : KbdEvent) (xs : List ℕ)
    → calls (prefixed s b) event xs ≡ calls s event xs
calls-prefixed s b event [] = refl
calls-prefixed s b event (x ∷ xs) = rw (calls-prefixed s b event xs) refl

run-prefixed :
    (fuel : ℕ) (codes : List ℕ) (s : Kbd) (b : Bool) (xs : List ℕ)
    → length xs < fuel
    → All (λ c. c < 256) codes
    → Chain s s.list xs
    → run fuel codes (prefixed s b) ≡ some (all_calls s (decode b codes) xs)
run-prefixed fuel [] s b xs h bytes c = refl
run-prefixed fuel (code ∷ codes) s b xs h bytes c = elim (Bool-cases (code == 0xE0)) [
  | inl e ↦
      rw (irq-prefix fuel code (prefixed s b) e, e, run-prefixed fuel codes s true xs h bytes.1 c)
        refl
  | inr e ↦
      rw
        (
          irq-key fuel code (prefixed s b) xs h bytes.0 (Chain-prefixed s b s.list xs c) e,
          e,
          run-prefixed fuel codes s false xs h bytes.1 c,
          calls-prefixed s b (key b code) xs,
        )
        refl
]

-- For a well-formed list, the interrupts of a sequence of bytes call the handlers with the events that
-- the bytes stand for, each event to each listener in the order of their priorities, and no others;
-- the prefix byte makes no event and marks the next one. A fuel above the list's length is enough.
pub run-decode :
    (fuel : ℕ) (codes : List ℕ) (s : Kbd) (xs : List ℕ)
    → length xs < fuel
    → All (λ c. c < 256) codes
    → IsListeners s xs
    → run fuel codes s ≡ some (all_calls s (decode s.e0_prefix codes) xs)
run-decode fuel codes s xs h bytes is = run-prefixed fuel codes s s.e0_prefix xs h bytes is.chain
