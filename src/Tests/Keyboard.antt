-- ===== src/Tests/Keyboard.antt =====
-- ps2_keyboard.c with two listeners, at 100 and 200, and a third at 300 that is not registered yet.
use velox_os.Prelude.{ℕ, ◌≡◌, refl, true, false, some, List, [], ◌∷◌, arith, ◌==◌, if◌then◌else◌}
use velox_os.Arch.Keyboard.{Listener, Kbd, kbd_register_listener}
use velox_os.Arch.Keyboard.Order.{IsListeners}
use velox_os.Arch.Keyboard.Register.{kbd_register_listener-IsListeners}
use velox_os.Arch.Keyboard.Event.{run, decode, all_calls, run-decode}

abbrev listener : (priority next : ℕ) → Listener
listener priority next = record { handler = 7; ctx = priority; priority = priority; next = next }

abbrev kbd : Kbd
kbd = record {
  listeners =
      λ p. if p == 100 then listener 5 200 else if p == 200 then listener 3 0 else listener 4 0;
  list = 100;
  e0_prefix = false;
}

kbd-IsListeners : IsListeners kbd (100 ∷ 200 ∷ [])
kbd-IsListeners = record {
  chain = (refl, omega arith, (refl, omega arith, refl));
  distinct = (refl, (refl, tt));
  descending = (λ q m. ground (arith, m), (λ q m. absurd (ground (arith, m)), tt));
}

register_example :
    (s : Kbd) × (kbd_register_listener 9 300 kbd ≡ some (true, s))
    × IsListeners s (100 ∷ 300 ∷ 200 ∷ [])
register_example =
    kbd_register_listener-IsListeners 9 300 kbd (100 ∷ 200 ∷ []) (omega arith) (omega arith)
      (omega arith) refl kbd-IsListeners

-- Arrow up pressed and released, then the key A.
abbrev codes : List ℕ
codes = 0xE0 ∷ 0x48 ∷ 0xE0 ∷ 0xC8 ∷ 0x1E ∷ []

run_example : run 9 codes kbd ≡ some (all_calls kbd (decode false codes) (100 ∷ 200 ∷ []))
run_example =
    run-decode 9 codes kbd (100 ∷ 200 ∷ []) (omega arith)
      (omega arith, (omega arith, (omega arith, (omega arith, (omega arith, tt))))) kbd-IsListeners
