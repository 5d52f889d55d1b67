-- ===== src/Kernel/Sched/Cpus.antt =====
-- The CPUs of kernel/sched.c together, and a tick of one of them.
use velox_os.Prelude.{
  ℕ, ◌+◌, ◌<◌, ◌≡◌, ◌≢◌, refl, sym, ◌∙◌, Bool, true, false, ◌||◌, List, [], ◌∷◌, arith, ◌==◌,
  if◌then◌else◌, Bool-cases, inl, inr,
}
use mathlib.Core.Path.{subst}
use velox_os.Prelude.Words.{u64}
use velox_os.Kernel.Sched.{
  Store, SchedCpu, Sched, set_cpu, write, max_cpus, runq_push, runq_pop, switch_to, tick_cpu,
  sched_on_tick,
}
use velox_os.Kernel.Sched.Queue.{mem, last_of, Chain-frame}
use velox_os.Kernel.Sched.Tick.{
  running, rotated, mem-rotated, IsReady, IsQueue-save, Saves, Ticked, tick_cpu-Ticked,
}

-- The tasks of the CPU `i`, whose queue is `qs i`.
abbrev pub owns : Sched → (ℕ → List ℕ) → ℕ → ℕ → Bool
owns s qs i q = (q == running (s.cpus i)) || mem q (qs i)

-- Every CPU is ready, and no task belongs to two of them.
pub record IsSched (s : Sched) (qs : ℕ → List ℕ) : Type 0 where
  pub ready : (i : ℕ) → i < max_cpus → IsReady s.tasks (s.cpus i) (qs i)
  pub apart :
      (i j q : ℕ)
      → i < max_cpus
      → j < max_cpus
      → i ≢ j
      → owns s qs i q ≡ true
      → owns s qs j q ≡ false

pub runq_push_next :
    (h : Store) (cpu : SchedCpu) (t q : ℕ)
    → q ≢ t
    → q ≢ cpu.runq_tail
    → ((runq_push t (h, cpu)).0 q).next ≡ (h q).next
unfolding runq_push
runq_push_next h cpu t q n m = ground arith

pub mem-last_of : (x : ℕ) (xs : List ℕ) (q : ℕ) → mem q (x ∷ xs) ≡ false → q ≢ last_of x xs
mem-last_of x [] q m = ground arith
mem-last_of x (y ∷ ys) q m = mem-last_of y ys q (ground (arith, m))

-- A tick changes no link but those of the CPU's own tasks.
tick_cpu_next :
    (h : Store) (cpu : SchedCpu) (frame q : ℕ) (x : ℕ) (xs : List ℕ)
    → IsReady h cpu (x ∷ xs)
    → q ≢ running cpu
    → mem q (x ∷ xs) ≡ false
    → ((tick_cpu frame (h, cpu)).1 q).next ≡ (h q).next
unfolding tick_cpu switch_to runq_pop runq_push
tick_cpu_next h cpu frame q x xs ready n m =
    ground (arith, ready.queue.chain.0, ready.queue.last, mem-last_of x xs q m)

-- The queue after a tick that finds it as given.
abbrev pub after_tick : Store → ℕ → List ℕ → List ℕ
after_tick h p [] = []
after_tick h p (x ∷ xs) = rotated h p xs

-- What the rest of the system sees of a tick of the CPU with the queue `xs`.
record Seen (h : Store) (cpu : SchedCpu) (frame : ℕ) (xs : List ℕ) (r : ℕ × Store × SchedCpu)
    : Type 0 where
  ready : IsReady r.1 r.2 (after_tick h (running cpu) xs)
  saves : Saves h r.1 (running cpu) frame
  links : (q : ℕ) → (q == running cpu) || mem q xs ≡ false → (r.1 q).next ≡ (h q).next
  owned :
      (q : ℕ)
      → (q == running cpu) || mem q xs ≡ false
      → (q == running r.2) || mem q (after_tick h (running cpu) xs) ≡ false

Saves-write :
    (h : Store) (p frame : ℕ) → Saves h (write h p (record (h p) { frame = frame })) p frame
Saves-write h p frame = record { frames = λ q. ground arith; states = λ q. ground arith }

running_entered : (p b : ℕ) → p ≢ 0 → (if p == 0 then b else p) ≡ p
running_entered p b nz = ground arith

owned_idle :
    (cpu : SchedCpu) (q : ℕ)
    → running cpu ≢ 0
    → (q == running cpu) || false ≡ false
    → (q == (if running cpu == 0 then cpu.bootstrap else running cpu)) || false ≡ false
owned_idle cpu q nz m = rw (running_entered (running cpu) cpu.bootstrap nz) m

owned_rotated :
    (h : Store) (p q x : ℕ) (xs : List ℕ)
    → (q == p) || mem q (x ∷ xs) ≡ false
    → (q == x) || mem q (rotated h p xs) ≡ false
owned_rotated h p q x xs m = elim (Bool-cases (mem q (rotated h p xs))) [
  | inl e ↦ absurd (ground (arith, mem-rotated h q p xs e))
  | inr e ↦ rw e (ground arith)
]

tick_cpu-idle :
    (h : Store) (cpu : SchedCpu) (frame : ℕ)
    → IsReady h cpu []
    → Seen h cpu frame [] (tick_cpu frame (h, cpu))
unfolding tick_cpu
tick_cpu-idle h cpu frame ready = rw empty record {
  ready = record {
    queue =
        IsQueue-save h cpu [] (running cpu) frame (running cpu) (u64 (cpu.ticks + 1)) ready.queue;
    nonnull = λ e. ready.nonnull (ground arith);
    absent = refl;
    saved = λ q m. absurd (ground arith);
  };
  saves = Saves-write h (running cpu) frame;
  links = λ q m. ground arith;
  owned = λ q m. owned_idle cpu q ready.nonnull m;
}
  where
    empty : (cpu.runq_head == 0) ≡ true
    empty = ground (arith, ready.queue.chain)

tick_cpu-Seen :
    (h : Store) (cpu : SchedCpu) (frame : ℕ) (xs : List ℕ)
    → frame ≢ 0
    → IsReady h cpu xs
    → Seen h cpu frame xs (tick_cpu frame (h, cpu))
tick_cpu-Seen h cpu frame [] nz ready = tick_cpu-idle h cpu frame ready
tick_cpu-Seen h cpu frame (x ∷ xs) nz ready = record {
  ready = t.ready;
  saves = t.saves;
  links = λ q m. tick_cpu_next h cpu frame q x xs ready (ground (arith, m)) (ground (arith, m));
  owned = λ q m. rw runs (owned_rotated h (running cpu) q x xs m);
}
  where
    t : Ticked h cpu frame x xs (tick_cpu frame (h, cpu))
    t = tick_cpu-Ticked h cpu frame x xs nz ready

    runs : running (tick_cpu frame (h, cpu)).2 ≡ x
    runs = ground (arith, t.current, ready.queue.chain.1)

abbrev pub set_queue : (ℕ → List ℕ) → ℕ → List ℕ → ℕ → List ℕ
set_queue qs i q j = if i == j then q else qs j

pub IsReady-frame :
    (h g : Store) (cpu : SchedCpu) (xs : List ℕ)
    → ((q : ℕ) → mem q xs ≡ true → (g q).next ≡ (h q).next)
    → ((q : ℕ) → mem q xs ≡ true → (g q).frame ≡ (h q).frame)
    → IsReady h cpu xs
    → IsReady g cpu xs
IsReady-frame h g cpu xs links frames ready = record {
  queue = record {
    chain = Chain-frame h g cpu.runq_head xs links ready.queue.chain;
    last = ready.queue.last;
    distinct = ready.queue.distinct;
  };
  nonnull = ready.nonnull;
  absent = ready.absent;
  saved = λ q m e. ready.saved q m (sym (frames q m) ∙ e);
}

module _ (s : Sched) (qs : ℕ → List ℕ) (i : ℕ) (frame : ℕ) (r : ℕ × Store × SchedCpu) where
  abbrev stepped : Sched
  stepped = record s { tasks = r.1; cpus = set_cpu s.cpus i r.2 }

  abbrev queues : ℕ → List ℕ
  queues = set_queue qs i (after_tick s.tasks (running (s.cpus i)) (qs i))

  stepped-owns :
      (j q : ℕ)
      → Seen s.tasks (s.cpus i) frame (qs i) r
      → owns s qs j q ≡ false
      → owns stepped queues j q ≡ false
  stepped-owns j q seen o = elim (Bool-cases (i == j)) [
    | inl e ↦ rw e (seen.owned q (subst (λ k. owns s qs k q ≡ false) (ground arith) o))
    | inr e ↦ rw e o
  ]

  module _ (id : i < max_cpus) (sched : IsSched s qs)
      (seen : Seen s.tasks (s.cpus i) frame (qs i) r) where
    foreign :
        (j q : ℕ) → j < max_cpus → (i == j) ≡ false → mem q (qs j) ≡ true → owns s qs i q ≡ false
    foreign j q jd e m = sched.apart j i q jd id (ground arith) (ground arith)

    stepped-IsReady : (j : ℕ) → j < max_cpus → IsReady stepped.tasks (stepped.cpus j) (queues j)
    stepped-IsReady j jd = elim (Bool-cases (i == j)) [
      | inl e ↦ rw e seen.ready
      | inr e ↦ rw e (
          IsReady-frame s.tasks r.1 (s.cpus j) (qs j) (λ q m. seen.links q (foreign j q jd e m))
            (λ q m. ground (arith, seen.saves.frames q, foreign j q jd e m)) (sched.ready j jd))
    ]

    stepped-IsSched : IsSched stepped queues
    stepped-IsSched = record {
      ready = stepped-IsReady;
      apart = λ j k q jd kd n o. elim (Bool-cases (owns s qs j q)) [
        | inl e ↦ stepped-owns k q seen (sched.apart j k q jd kd n e)
        | inr e ↦ absurd (ground (arith, stepped-owns j q seen e, o))
      ];
    }

sched_on_tick-stepped :
    (s : Sched) (qs : ℕ → List ℕ) (i frame : ℕ)
    → i < max_cpus
    → sched_on_tick i frame s
      ≡ (let r = tick_cpu frame (s.tasks, s.cpus i) in (r.0, stepped s qs i frame r))
unfolding sched_on_tick
sched_on_tick-stepped s qs i frame id = ground arith

-- A tick of one CPU, with a frame that is not NULL, keeps the well-formedness of all 256 CPUs: it
-- rotates the queue of that CPU and leaves the others' queues as they are.
pub sched_on_tick-IsSched :
    (s : Sched) (qs : ℕ → List ℕ) (i frame : ℕ)
    → i < max_cpus
    → frame ≢ 0
    → IsSched s qs
    → IsSched
        (sched_on_tick i frame s).1
        (set_queue qs i (after_tick s.tasks (running (s.cpus i)) (qs i)))
sched_on_tick-IsSched s qs i frame id nz sched = rw (sched_on_tick-stepped s qs i frame id) (
    stepped-IsSched s qs i frame (tick_cpu frame (s.tasks, s.cpus i)) id sched
      (tick_cpu-Seen s.tasks (s.cpus i) frame (qs i) nz (sched.ready i id)))
