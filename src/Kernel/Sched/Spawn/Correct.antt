-- ===== src/Kernel/Sched/Spawn/Correct.antt =====
-- `sched_spawn` of kernel/sched.c on well-formed CPUs.
use velox_os.Prelude.{
  ℕ, ◌+◌, ◌-◌, ◌^◌, ◌<◌, ◌≡◌, ◌≢◌, refl, ◌∙◌, false, List, [], ◌∷◌, ◌++◌, arith, ◌==◌,
  if◌then◌else◌, length, All,
}
use velox_os.Prelude.Words.{u64, sub_u64}
use mathlib.Core.Path.{subst}
use velox_os.Kernel.Sched.{runnable, Task, Sched, Frame, max_cpus, tick_cpu}
use velox_os.Kernel.Sched.Spawn.{
  stack_bytes, frame_bytes, task_bytes, Call, kmalloc, vmalloc, Status, done, memset_frame, prepare,
  sched_spawn,
}
use velox_os.Kernel.Sched.Rotate.{ticks, turn}
use velox_os.Kernel.Sched.Tick.{runq_push_keeps, IsReady}
use velox_os.Kernel.Sched.Cpus.{owns, IsSched, set_queue}
use velox_os.Kernel.Sched.Spawn.Pushed.{stored, pushed, spawned, spawned-IsSched}

-- The frame of a new task: at the top of its stack.
unfoldable pub initial_frame : (trampoline entry arg : ℕ) → Frame
initial_frame trampoline entry arg = record {
  r15 = 0;
  r14 = 0;
  r13 = 0;
  r12 = 0;
  r11 = 0;
  r10 = 0;
  r9 = 0;
  r8 = 0;
  rbp = 0;
  rdi = entry;
  rsi = arg;
  rdx = 0;
  rcx = 0;
  rbx = 0;
  rax = 0;
  vector = 0;
  error_code = 0;
  rip = trampoline;
  cs = 0x08;
  rflags = 0x202;
}

abbrev new_task : (stack : ℕ) → Task
new_task stack = record {
  frame = sub_u64 (u64 (stack + stack_bytes)) frame_bytes;
  stack_base = stack;
  stack_size = stack_bytes;
  state = runnable;
  next = 0;
}

abbrev with_frame : Sched → (trampoline entry arg stack : ℕ) → Sched
with_frame s trampoline entry arg stack = record s {
  frames =
      λ p. if (new_task stack).frame == p then initial_frame trampoline entry arg else s.frames p;
}

with_frame-IsSched :
    (s : Sched) (qs : ℕ → List ℕ) (trampoline entry arg stack : ℕ)
    → IsSched s qs
    → IsSched (with_frame s trampoline entry arg stack) qs
with_frame-IsSched s qs trampoline entry arg stack sched = record {
  ready = sched.ready;
  apart = sched.apart;
}

sched_spawn-spawned :
    (s : Sched) (qs : ℕ → List ℕ) (trampoline entry arg task stack i : ℕ)
    → i < max_cpus
    → entry ≢ 0
    → task ≢ 0
    → stack ≢ 0
    → sched_spawn trampoline entry arg task stack i s ≡ (
      done,
      kmalloc task_bytes ∷ vmalloc stack_bytes ∷ [],
      spawned (with_frame s trampoline entry arg stack) qs i task (new_task stack),
    )
unfolding sched_spawn prepare memset_frame initial_frame
sched_spawn-spawned s qs trampoline entry arg task stack i id ez tz sz = ground arith

-- What a spawn that succeeds on the CPU `i` makes.
pub record Spawns (s : Sched) (qs : ℕ → List ℕ) (trampoline entry arg task stack i : ℕ)
    (r : Status × List Call × Sched) : Type 0 where
  pub status : r.0 ≡ done
  pub sched : IsSched r.2 (set_queue qs i (qs i ++ task ∷ []))
  pub at_top : (r.2.tasks task).frame ≡ stack + stack_bytes - frame_bytes
  pub contents : r.2.frames (r.2.tasks task).frame ≡ initial_frame trampoline entry arg

-- On well-formed CPUs, with a task that no CPU has and a stack that does not end beyond the address
-- space, the new task is the last in the queue of the CPU that spawns it, the CPUs stay well-formed,
-- and the task's frame, at the top of its stack, starts the trampoline with the entry and its argument.
pub sched_spawn-Spawns :
    (s : Sched) (qs : ℕ → List ℕ) (trampoline entry arg task stack i : ℕ)
    → i < max_cpus
    → IsSched s qs
    → entry ≢ 0
    → task ≢ 0
    → stack ≢ 0
    → stack + stack_bytes < 2 ^ 64
    → ((j : ℕ) → j < max_cpus → owns s qs j task ≡ false)
    → Spawns s qs trampoline entry arg task stack i
        (sched_spawn trampoline entry arg task stack i s)
sched_spawn-Spawns s qs trampoline entry arg task stack i id sched ez tz sz fits fresh =
    rw (sched_spawn-spawned s qs trampoline entry arg task stack i id ez tz sz) record {
      status = refl;
      sched =
          spawned-IsSched (with_frame s trampoline entry arg stack) qs i task (new_task stack) id
            (with_frame-IsSched s qs trampoline entry arg stack sched) tz (omega arith) fresh;
      at_top = top ∙ omega arith;
      contents = rw top (ground arith);
    }
  where
    top :
        ((pushed (with_frame s trampoline entry arg stack) qs i task (new_task stack)).0 task).frame
        ≡ (new_task stack).frame
    top =
        (runq_push_keeps
          (stored (with_frame s trampoline entry arg stack) qs i task (new_task stack)) (s.cpus i)
          task task).0
        ∙ ground arith

set_queue_self : (qs : ℕ → List ℕ) (i : ℕ) (q : List ℕ) → set_queue qs i q i ≡ q
set_queue_self qs i q = ground arith

-- On well-formed CPUs, with a task that no CPU has, an entry, a stack inside the address space, and
-- frames that are not NULL: after as many ticks of the CPU as tasks were queued there when the
-- spawn was made, the next tick leaves the CPU with the new task on the frame at the top of its stack.
pub turn-sched_spawn :
    (s : Sched) (qs : ℕ → List ℕ) (trampoline entry arg task stack i : ℕ) (frames : List ℕ)
    (frame : ℕ)
    → i < max_cpus
    → IsSched s qs
    → entry ≢ 0
    → task ≢ 0
    → stack ≢ 0
    → stack + stack_bytes < 2 ^ 64
    → ((j : ℕ) → j < max_cpus → owns s qs j task ≡ false)
    → length frames ≡ length (qs i)
    → All (λ f. f ≢ 0) frames
    → frame ≢ 0
    → (let s1 = (sched_spawn trampoline entry arg task stack i s).2 in
        let r = tick_cpu frame (ticks frames (s1.tasks, s1.cpus i)) in
        r.0 ≡ stack + stack_bytes - frame_bytes × r.2.current ≡ task)
turn-sched_spawn s qs trampoline entry arg task stack i frames frame id sched ez tz sz fits fresh e
      fz nz =
    (let made =
        sched_spawn-Spawns s qs trampoline entry arg task stack i id sched ez tz sz fits fresh in
      let s1 = (sched_spawn trampoline entry arg task stack i s).2 in
      let ran = turn s1.tasks (s1.cpus i) (qs i) task [] frames frame e fz nz (
        subst (IsReady s1.tasks (s1.cpus i)) (set_queue_self qs i (qs i ++ task ∷ []))
          (made.sched.ready i id)) in
      (ran.0 ∙ made.at_top, ran.1))
