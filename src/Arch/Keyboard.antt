-- ===== src/Arch/Keyboard.antt =====
-- arch/x86_64/drivers/IO/ps2_keyboard.c: the scancode decoder and the list of listeners, linked
-- through the listeners. A pointer is a number and NULL is 0. `g_kbd_lock` makes each function one step.
pub mod Order
pub mod Register
pub mod Unregister
pub mod Event
use velox_os.Prelude.{
  ℕ, zero, suc, ◌-◌, ◌*◌, ◌^◌, Bool, true, false, ◌||◌, Option, none, some, List, [], ◌∷◌, ltb,
  ◌==◌, if◌then◌else◌, bit_and,
}

-- `kbd_listener_t`. The priority, an int, is held as its distance from the least int.
pub record Listener : Type 0 where
  pub handler : ℕ
  pub ctx : ℕ
  pub priority : ℕ
  pub next : ℕ

-- `kbd_event_t`
pub record KbdEvent : Type 0 where
  pub keycode : ℕ
  pub e0_prefix : Bool
  pub pressed : Bool

-- The listeners in memory, and the variables `g_kbd_list` and `g_e0_prefix`.
pub record Kbd : Type 0 where
  pub listeners : ℕ → Listener
  pub list : ℕ
  pub e0_prefix : Bool

-- A link, the target of a `pp`, is named by the listener whose `next` it is; 0 names `g_kbd_list`.
abbrev pub read_link : ℕ → Kbd → ℕ
read_link pp s = if pp == 0 then s.list else (s.listeners pp).next

abbrev pub set_next : ℕ → ℕ → Kbd → Kbd
set_next p n s = record s {
  listeners = λ q. if p == q then record (s.listeners p) { next = n } else s.listeners q;
}

abbrev pub write_link : ℕ → ℕ → Kbd → Kbd
write_link pp v s = if pp == 0 then record s { list = v } else set_next pp v s

-- How a walk along the list ends: at the listener itself, at a link, or out of fuel.
pub data Walk : Type 0 where
  found : ℕ → Walk
  stops : ℕ → Walk
  unfinished : Walk

-- The loop of `kbd_register_listener`, from the link `pp`.
unfoldable pub register_walk : (fuel pp listener : ℕ) → Kbd → Walk
register_walk zero pp listener s = unfinished
register_walk (suc fuel) pp listener s =
    let cur = read_link pp s in
    let rest = register_walk fuel cur listener s in
    if cur == 0
    then stops pp
    else if cur == listener
    then found pp
    else if ltb (s.listeners cur).priority (s.listeners listener).priority
    then stops pp
    else rest

-- `none`: out of fuel.
unfoldable pub kbd_register_listener : (fuel listener : ℕ) → Kbd → Option (Bool × Kbd)
unfolding register_walk
kbd_register_listener fuel listener s =
    if listener == 0 || ((s.listeners listener).handler == 0)
    then some (false, s)
    else elim (register_walk fuel 0 listener s) [
      | found pp ↦ some (false, s)
      | stops pp ↦ some (true, write_link pp listener (set_next listener (read_link pp s) s))
      | unfinished ↦ none
    ]

-- The loop of `kbd_unregister_listener`.
unfoldable pub unregister_walk : (fuel pp listener : ℕ) → Kbd → Walk
unregister_walk zero pp listener s = unfinished
unregister_walk (suc fuel) pp listener s =
    let cur = read_link pp s in
    let rest = unregister_walk fuel cur listener s in
    if cur == 0 then stops pp else if cur == listener then found pp else rest

unfoldable pub kbd_unregister_listener : (fuel listener : ℕ) → Kbd → Option Kbd
unfolding unregister_walk
kbd_unregister_listener fuel listener s =
    if listener == 0 then some s else elim (unregister_walk fuel 0 listener s) [
      | found pp ↦ some (set_next listener 0 (write_link pp (s.listeners listener).next s))
      | stops pp ↦ some s
      | unfinished ↦ none
    ]

-- The calls of the handlers, in order, from the listener `p`: handler, event, context.
unfoldable pub notify : (fuel p : ℕ) → KbdEvent → Kbd → Option (List (ℕ × KbdEvent × ℕ))
notify zero p event s = none
notify (suc fuel) p event s =
    let rest = notify fuel (s.listeners p).next event s in
    if p == 0 then some [] else if (s.listeners p).handler == 0 then rest else elim rest [
      | none ↦ none
      | some calls ↦ some (((s.listeners p).handler, event, (s.listeners p).ctx) ∷ calls)
    ]

-- `code` is the byte read from the port 0x60.
unfoldable pub ps2_keyboard_irq : (fuel code : ℕ) → Kbd → Option (List (ℕ × KbdEvent × ℕ)) × Kbd
unfolding notify
ps2_keyboard_irq fuel code s =
    if code == 0xE0
    then (some [], record s { e0_prefix = true })
    else (let event : KbdEvent = record {
      keycode = bit_and code 0x7F;
      e0_prefix = s.e0_prefix;
      pressed = bit_and code 0x80 == 0;
    } in
        (notify fuel s.list event s, record s { e0_prefix = false }))
