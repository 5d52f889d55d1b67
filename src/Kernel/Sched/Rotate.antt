-- ===== src/Kernel/Sched/Rotate.antt =====
-- Sequences of ticks of one CPU in kernel/sched.c.
use velox_os.Prelude.{
  ℕ, ◌≡◌, ◌≢◌, refl, ap, ◌∙◌, true, List, [], ◌∷◌, ◌++◌, arith, length, All, Bool-cases, inl, inr,
}
use mathlib.Core.Path.{subst}
use velox_os.Kernel.Sched.{Store, SchedCpu, is_runnable, tick_cpu}
use velox_os.Kernel.Sched.Queue.{mem}
use velox_os.Kernel.Sched.Tick.{running, rotated, IsReady, Ticked, tick_cpu-Ticked}

-- The ticks of one CPU, each with the frame it interrupts.
abbrev pub ticks : List ℕ → Store × SchedCpu → Store × SchedCpu
ticks [] s = s
ticks (frame ∷ frames) s = (let r = tick_cpu frame s in ticks frames (r.1, r.2))

append-append :
    (xs : List ℕ) (t : ℕ) (ys : List ℕ) (p : ℕ)
    → (xs ++ t ∷ ys) ++ p ∷ [] ≡ xs ++ t ∷ (ys ++ p ∷ [])
append-append [] t ys p = refl
append-append (x ∷ xs) t ys p = ap (λ l. x ∷ l) (append-append xs t ys p)

pub rotated-append :
    (h : Store) (p : ℕ) (xs : List ℕ) (t : ℕ) (ys : List ℕ)
    → rotated h p (xs ++ t ∷ ys) ≡ xs ++ t ∷ rotated h p ys
rotated-append h p xs t ys = elim (Bool-cases (is_runnable (h p).state)) [
  | inl e ↦ rw e (append-append xs t ys p)
  | inr e ↦ rw e refl
]

mem-middle : (xs : List ℕ) (t : ℕ) (ys : List ℕ) → mem t (xs ++ t ∷ ys) ≡ true
mem-middle [] t ys = ground arith
mem-middle (x ∷ xs) t ys = ground (arith, mem-middle xs t ys)

-- One tick brings the task `t` one place forward and keeps its frame.
forward :
    (h : Store) (cpu : SchedCpu) (x : ℕ) (before : List ℕ) (t : ℕ) (behind : List ℕ) (frame : ℕ)
    → frame ≢ 0
    → IsReady h cpu (x ∷ before ++ t ∷ behind)
    → IsReady
        (tick_cpu frame (h, cpu)).1
        (tick_cpu frame (h, cpu)).2
        (before ++ t ∷ rotated h (running cpu) behind)
      × ((tick_cpu frame (h, cpu)).1 t).frame ≡ (h t).frame
forward h cpu x before t behind frame nz ready = (
  subst (IsReady (tick_cpu frame (h, cpu)).1 (tick_cpu frame (h, cpu)).2)
      (rotated-append h (running cpu) before t behind) first.ready,
  ground (arith, first.saves.frames t, ready.absent, mem-middle before t behind),
)
  where
    first : Ticked h cpu frame x (before ++ t ∷ behind) (tick_cpu frame (h, cpu))
    first = tick_cpu-Ticked h cpu frame x (before ++ t ∷ behind) nz ready

-- On a CPU that is ready, a task `t` behind the tasks `before` gets the CPU at the tick that follows
-- `length before` ticks, whatever frames, not NULL, those interrupt, and that tick resumes it on the
-- frame it has saved now.
pub turn :
    (h : Store) (cpu : SchedCpu) (before : List ℕ) (t : ℕ) (behind frames : List ℕ) (frame : ℕ)
    → length frames ≡ length before
    → All (λ f. f ≢ 0) frames
    → frame ≢ 0
    → IsReady h cpu (before ++ t ∷ behind)
    → (tick_cpu frame (ticks frames (h, cpu))).0 ≡ (h t).frame
      × (tick_cpu frame (ticks frames (h, cpu))).2.current ≡ t
turn h cpu [] t behind [] frame e fz nz ready =
    (let r = tick_cpu-Ticked h cpu frame t behind nz ready in (r.out, r.current))
turn h cpu [] t behind (f ∷ fs) frame e fz nz ready = absurd (omega (arith, e))
turn h cpu (x ∷ before) t behind [] frame e fz nz ready = absurd (omega (arith, e))
turn h cpu (x ∷ before) t behind (f ∷ fs) frame e fz nz ready =
    (let moved = forward h cpu x before t behind f fz.0 ready in
      let r = tick_cpu f (h, cpu) in
      let later =
        turn r.1 r.2 before t (rotated h (running cpu) behind) fs frame (omega (arith, e)) fz.1 nz
          moved.0 in
      (later.0 ∙ moved.1, later.1))
