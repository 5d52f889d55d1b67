-- ===== src/Kernel/Sched/Tick.antt =====
-- The tick of kernel/sched.c on one CPU: what the switch does to the queue and to the tasks.
use velox_os.Prelude.{
  ℕ, ◌+◌, ◌∙◌, ◌≡◌, ◌≢◌, refl, sym, true, false, ◌||◌, List, [], ◌∷◌, ◌++◌, arith, ◌==◌,
  if◌then◌else◌, Bool-cases, inl, inr,
}
use mathlib.Core.Path.{subst}
use velox_os.Prelude.Words.{u64}
use velox_os.Kernel.Sched.{
  Store, write, SchedCpu, is_runnable, runq_push, runq_pop, switch_to, tick_cpu,
}
use velox_os.Kernel.Sched.Queue.{
  mem, mem-append, IsQueue, Chain-frame, runq_push-IsQueue, runq_pop-IsQueue,
}

-- The task that the CPU runs.
abbrev pub running : SchedCpu → ℕ
running cpu = if cpu.current == 0 then cpu.bootstrap else cpu.current

-- The CPU runs a task that is not in its queue `xs`; the tasks in the queue have saved frames.
pub record IsReady (h : Store) (cpu : SchedCpu) (xs : List ℕ) : Type 0 where
  pub queue : IsQueue h cpu xs
  pub nonnull : running cpu ≢ 0
  pub absent : mem (running cpu) xs ≡ false
  pub saved : (q : ℕ) → mem q xs ≡ true → (h q).frame ≢ 0

-- What a tick with the frame `frame` leaves of the tasks: that frame in the task `p`, nothing else.
pub record Saves (h g : Store) (p frame : ℕ) : Type 0 where
  pub frames : (q : ℕ) → (g q).frame ≡ (if p == q then frame else (h q).frame)
  pub states : (q : ℕ) → (g q).state ≡ (h q).state

-- The queue after the first task is taken: a zombie is not put back.
abbrev pub rotated : Store → ℕ → List ℕ → List ℕ
rotated h p xs = if is_runnable (h p).state then xs ++ p ∷ [] else xs

pub runq_push_keeps :
    (h : Store) (cpu : SchedCpu) (t q : ℕ)
    → ((runq_push t (h, cpu)).0 q).frame ≡ (h q).frame
      × ((runq_push t (h, cpu)).0 q).state ≡ (h q).state
unfolding runq_push
runq_push_keeps h cpu t q = (ground arith, ground arith)

runq_pop_keeps :
    (h : Store) (cpu : SchedCpu) (q : ℕ)
    → ((runq_pop (h, cpu)).1 q).frame ≡ (h q).frame
      × ((runq_pop (h, cpu)).1 q).state ≡ (h q).state
      × (runq_pop (h, cpu)).2.current ≡ cpu.current
unfolding runq_pop
runq_pop_keeps h cpu q = (ground arith, ground arith, ground arith)

-- Tasks in a queue keep their links when another field of a task changes.
pub IsQueue-save :
    (h : Store) (cpu : SchedCpu) (xs : List ℕ) (p frame : ℕ) (current ticks : ℕ)
    → IsQueue h cpu xs
    → IsQueue
        (write h p (record (h p) { frame = frame }))
        (record cpu { ticks = ticks; current = current })
        xs
IsQueue-save h cpu xs p frame current ticks q = record {
  chain =
      Chain-frame h (write h p (record (h p) { frame = frame })) cpu.runq_head xs
        (λ t m. ground arith) q.chain;
  last = q.last;
  distinct = q.distinct;
}

IsQueue-current :
    (h : Store) (cpu : SchedCpu) (xs : List ℕ) (current : ℕ)
    → IsQueue h cpu xs
    → IsQueue h (record cpu { current = current }) xs
IsQueue-current h cpu xs current q = record {
  chain = q.chain;
  last = q.last;
  distinct = q.distinct;
}

-- The switch to a task that is ready.
record Switched (h : Store) (cpu : SchedCpu) (next : ℕ) (xs : List ℕ) (r : ℕ × Store × SchedCpu)
    : Type 0 where
  out : r.0 ≡ (h next).frame
  current : r.2.current ≡ next
  queue : IsQueue r.1 r.2 (rotated h cpu.current xs)
  frames : (q : ℕ) → (r.1 q).frame ≡ (h q).frame
  states : (q : ℕ) → (r.1 q).state ≡ (h q).state

switch_to-Switched :
    (h : Store) (cpu : SchedCpu) (next frame : ℕ) (xs : List ℕ)
    → next ≢ 0
    → next ≢ cpu.current
    → (h next).frame ≢ 0
    → cpu.current ≢ 0
    → mem cpu.current xs ≡ false
    → IsQueue h cpu xs
    → Switched h cpu next xs (switch_to next frame (h, cpu))
unfolding switch_to
switch_to-Switched h cpu next frame xs nz ne fz cz m q =
    rw taken (elim (Bool-cases (is_runnable (h cpu.current).state)) [
      | inl e ↦ rw e record {
        out = (runq_push_keeps h cpu cpu.current next).0;
        current = refl;
        queue = rw e (
            IsQueue-current (runq_push cpu.current (h, cpu)).0 (runq_push cpu.current (h, cpu)).1
              (xs ++ cpu.current ∷ []) next (runq_push-IsQueue h cpu xs cpu.current cz m q));
        frames = λ t. (runq_push_keeps h cpu cpu.current t).0;
        states = λ t. (runq_push_keeps h cpu cpu.current t).1;
      }
      | inr e ↦ rw e record {
        out = refl;
        current = refl;
        queue = rw e (IsQueue-current h cpu xs next q);
        frames = λ t. refl;
        states = λ t. refl;
      }
    ])
  where
    taken : (next == 0 || (next == cpu.current || ((h next).frame == 0))) ≡ false
    taken = ground arith

-- What a tick does while `x` is the first task of the queue.
pub record Ticked (h : Store) (cpu : SchedCpu) (frame x : ℕ) (xs : List ℕ)
    (r : ℕ × Store × SchedCpu) : Type 0 where
  pub out : r.0 ≡ (h x).frame
  pub current : r.2.current ≡ x
  pub ready : IsReady r.1 r.2 (rotated h (running cpu) xs)
  pub saves : Saves h r.1 (running cpu) frame

-- The tick's state when it comes to the queue.
abbrev entered : ℕ → Store × SchedCpu → Store × SchedCpu
entered frame (h, cpu) = (
  write h (running cpu) (record (h (running cpu)) { frame = frame }),
  record cpu { ticks = u64 (cpu.ticks + 1); current = running cpu },
)

tick_cpu-entered :
    (h : Store) (cpu : SchedCpu) (frame : ℕ)
    → cpu.runq_head ≢ 0
    → tick_cpu frame (h, cpu)
      ≡ (let s = runq_pop (entered frame (h, cpu)) in switch_to s.0 frame (s.1, s.2))
unfolding tick_cpu
tick_cpu-entered h cpu frame nz = ground arith

rotated_at :
    (h g : Store) (p q : ℕ) (xs : List ℕ)
    → (h p).state ≡ (g q).state
    → p ≡ q
    → rotated h p xs ≡ rotated g q xs
rotated_at h g p q xs e f = rw (e, f) refl

pub mem-rotated :
    (h : Store) (q p : ℕ) (xs : List ℕ)
    → mem q (rotated h p xs) ≡ true
    → (mem q xs || (q == p)) ≡ true
mem-rotated h q p xs m = ground (arith, mem-append q xs p)

Switched-Ticked :
    (h : Store) (cpu : SchedCpu) (frame x : ℕ) (xs : List ℕ) (g : Store) (c : SchedCpu)
    (r : ℕ × Store × SchedCpu)
    → frame ≢ 0
    → IsReady h cpu (x ∷ xs)
    → Saves h g (running cpu) frame
    → c.current ≡ running cpu
    → Switched g c x xs r
    → Ticked h cpu frame x xs r
Switched-Ticked h cpu frame x xs g c r fz ready saves same sw = record {
  out = ground (arith, sw.out, saves.frames x, ready.absent);
  current = sw.current;
  ready = record {
    queue =
        subst (IsQueue r.1 r.2)
          (rotated_at g h c.current (running cpu) xs (rw same (saves.states (running cpu))) same)
          sw.queue;
    nonnull = λ e. nz (ground (arith, sw.current));
    absent = rw (runs_next) (elim (Bool-cases (mem x (rotated h (running cpu) xs))) [
      | inl e ↦
          absurd
            (ground (arith, mem-rotated h x (running cpu) xs e, ready.absent, ready.queue.distinct))
      | inr e ↦ e
    ]);
    saved = λ q m.
        ground
          (arith, sw.frames q, saves.frames q, mem-rotated h q (running cpu) xs m, ready.saved q);
  };
  saves = record {
    frames = λ q. sw.frames q ∙ saves.frames q;
    states = λ q. sw.states q ∙ saves.states q;
  };
}
  where
    nz : x ≢ 0
    nz = ready.queue.chain.1

    runs_next : running r.2 ≡ x
    runs_next = ground (arith, sw.current)

-- On a CPU that is ready and has queued tasks, a tick with a frame that is not NULL saves it in the
-- running task and changes no other frame, the first task of the queue runs on its own
-- saved frame, the task that ran is the last of the queue, unless it is a zombie, and the CPU is
-- ready again.
pub tick_cpu-Ticked :
    (h : Store) (cpu : SchedCpu) (frame x : ℕ) (xs : List ℕ)
    → frame ≢ 0
    → IsReady h cpu (x ∷ xs)
    → Ticked h cpu frame x xs (tick_cpu frame (h, cpu))
tick_cpu-Ticked h cpu frame x xs fz ready = rw (tick_cpu-entered h cpu frame (ground arith)) (
    Switched-Ticked h cpu frame x xs s.1 s.2 (switch_to s.0 frame (s.1, s.2)) fz ready saves same (
      rw (sym popped.0) (
        switch_to-Switched s.1 s.2 s.0 frame xs (ground (arith, popped.0, ready.queue.chain.1))
          (ground (arith, popped.0, same, ready.absent))
          (ground (arith, popped.0, saves.frames s.0, ready.saved s.0))
          (ground (arith, same, ready.nonnull)) (rw same (ground (arith, ready.absent))) popped.1)))
  where
    e : Store × SchedCpu
    e = entered frame (h, cpu)

    s : ℕ × Store × SchedCpu
    s = runq_pop e

    popped : s.0 ≡ x × IsQueue s.1 s.2 xs
    popped = runq_pop-IsQueue e.0 e.1 x xs (
        IsQueue-save h cpu (x ∷ xs) (running cpu) frame (running cpu) (u64 (cpu.ticks + 1))
          ready.queue)

    same : s.2.current ≡ running cpu
    same = (runq_pop_keeps e.0 e.1 0).2

    saves : Saves h s.1 (running cpu) frame
    saves = record {
      frames = λ q. (runq_pop_keeps e.0 e.1 q).0 ∙ ground arith;
      states = λ q. (runq_pop_keeps e.0 e.1 q).1 ∙ ground arith;
    }
