-- ===== src/Tests/Sched.antt =====
-- kernel/sched.c with two CPUs: 0 runs the task 100 with 200 and 300 queued, 1 runs its bootstrap task.
use velox_os.Prelude.{
  ℕ, zero, suc, ◌+◌, ◌-◌, ◌<◌, ◌≤◌, ◌≢◌, ◌≡◌, refl, true, false, List, [], ◌∷◌, some, arith, ◌==◌,
  if◌then◌else◌,
}
use velox_os.Kernel.Sched.{
  Task, Store, SchedCpu, Sched, runnable, tick_cpu, sched_on_tick, max_cpus,
}
use velox_os.Kernel.Sched.Spawn.{sched_spawn, stack_bytes, frame_bytes, memset_frame}
use velox_os.Kernel.Sched.Spawn.Held.{HeldSpec, held-sched_spawn}
use velox_os.Kernel.Sched.Queue.{IsQueue}
use velox_os.Kernel.Sched.Tick.{IsReady, Ticked, tick_cpu-Ticked}
use velox_os.Kernel.Sched.Rotate.{ticks, turn}
use velox_os.Kernel.Sched.Cpus.{IsSched, set_queue, owns, sched_on_tick-IsSched}
use velox_os.Kernel.Sched.Spawn.Correct.{Spawns, sched_spawn-Spawns, turn-sched_spawn}
use velox_os.Kernel.Sched.Init.{SchedGlobals, sched_init, IsStart, sched_init-IsSched}

abbrev pub task : (frame next : ℕ) → Task
task frame next = record {
  frame = frame;
  stack_base = 0;
  stack_size = 0;
  state = runnable;
  next = next;
}

abbrev pub tasks : Store
tasks p =
    if p == 100
    then task 0 0
    else if p == 200
    then task 2000 300
    else if p == 300
    then task 3000 0
    else task 7 0

abbrev pub cpu : ℕ → SchedCpu
cpu i =
    if i == 0
    then record { bootstrap = 1000; current = 100; runq_head = 200; runq_tail = 300; ticks = 5 }
    else record { bootstrap = 1000 + i; current = 0; runq_head = 0; runq_tail = 0; ticks = 0 }

abbrev queues : ℕ → List ℕ
queues i = if i == 0 then 200 ∷ 300 ∷ [] else []

abbrev sched : Sched
sched = record { tasks = tasks; frames = λ p. memset_frame; cpus = cpu }

cpu-IsQueue : IsQueue tasks (cpu 0) (200 ∷ 300 ∷ [])
cpu-IsQueue = record {
  chain = (refl, omega arith, (refl, omega arith, refl));
  last = refl;
  distinct = (refl, (refl, tt));
}

pub cpu-IsReady : IsReady tasks (cpu 0) (200 ∷ 300 ∷ [])
cpu-IsReady = record {
  queue = cpu-IsQueue;
  nonnull = omega arith;
  absent = refl;
  saved = λ q m. ground (arith, m);
}

idle-IsReady : (i : ℕ) → i ≢ 0 → IsReady tasks (cpu i) (queues i)
idle-IsReady i n = rw off record {
  queue = record { chain = refl; last = refl; distinct = tt };
  nonnull = omega arith;
  absent = refl;
  saved = λ q m. absurd (ground (arith, m));
}
  where
    off : (i == 0) ≡ false
    off = ground arith

sched-IsSched : IsSched sched queues
sched-IsSched = record { ready = all_ready; apart = λ i j q id jd n o. ground (arith, o, n) }
  where
    all_ready : (i : ℕ) → i < max_cpus → IsReady tasks (cpu i) (queues i)
    all_ready zero id = cpu-IsReady
    all_ready (suc i) id = idle-IsReady (suc i) (omega arith)

tick_example : Ticked tasks (cpu 0) 1000 200 (300 ∷ []) (tick_cpu 1000 (tasks, cpu 0))
tick_example = tick_cpu-Ticked tasks (cpu 0) 1000 200 (300 ∷ []) (omega arith) cpu-IsReady

turn_example :
    (tick_cpu 2222 (ticks (1111 ∷ []) (tasks, cpu 0))).0 ≡ 3000
    × (tick_cpu 2222 (ticks (1111 ∷ []) (tasks, cpu 0))).2.current ≡ 300
turn_example =
    turn tasks (cpu 0) (200 ∷ []) 300 [] (1111 ∷ []) 2222 refl (omega arith, tt) (omega arith)
      cpu-IsReady

sched_on_tick_example : IsSched (sched_on_tick 0 1000 sched).1 (set_queue queues 0 (300 ∷ 100 ∷ []))
sched_on_tick_example =
    sched_on_tick-IsSched sched queues 0 1000 (omega arith) (omega arith) sched-IsSched

no_owner : (j : ℕ) → j < max_cpus → owns sched queues j 400 ≡ false
no_owner j jd = ground arith

spawn_example : Spawns sched queues 11 22 33 400 65536 0 (sched_spawn 11 22 33 400 65536 0 sched)
spawn_example =
    sched_spawn-Spawns sched queues 11 22 33 400 65536 0 (omega arith) sched-IsSched (omega arith)
      (omega arith) (omega arith) (omega arith) no_owner

spawn_turn_example :
    (let s1 = (sched_spawn 11 22 33 400 65536 0 sched).2 in
      let r = tick_cpu 6666 (ticks (4444 ∷ 5555 ∷ []) (s1.tasks, s1.cpus 0)) in
      r.0 ≡ 65536 + stack_bytes - frame_bytes × r.2.current ≡ 400)
spawn_turn_example =
    turn-sched_spawn sched queues 11 22 33 400 65536 0 (4444 ∷ 5555 ∷ []) 6666 (omega arith)
      sched-IsSched (omega arith) (omega arith) (omega arith) (omega arith) no_owner refl
      (omega arith, (omega arith, tt)) (omega arith)

held_example : HeldSpec 22 400 0 0 (sched_spawn 11 22 33 400 0 0 sched)
held_example = held-sched_spawn 11 22 33 400 0 0 sched

abbrev boot : SchedGlobals
boot = record {
  sched = record {
    tasks = λ p. task 0 0;
    frames = λ p. memset_frame;
    cpus =
        λ i. record { bootstrap = 1000 + i; current = 0; runq_head = 0; runq_tail = 0; ticks = 0 };
  };
  is_ready = false;
  lapic_init_count = 0;
  cpu_count = 4;
}

boot-IsStart : IsStart boot.sched
boot-IsStart = record {
  idle = λ i id. record { head = refl; tail = refl; at_bootstrap = refl };
  nonnull = λ i id. omega arith;
  apart = λ i j id jd n. omega arith;
}

sched_init_example :
    IsSched (sched_init (some 62500) boot).sched (λ i. [])
    × (sched_init (some 62500) boot).is_ready ≡ true
    × 1 ≤ (sched_init (some 62500) boot).cpu_count
    × ((i : ℕ)
        → i < (sched_init (some 62500) boot).cpu_count
        → ((sched_init (some 62500) boot).sched.cpus i).current ≡ (boot.sched.cpus i).bootstrap)
sched_init_example = sched_init-IsSched (some 62500) boot refl boot-IsStart
