-- ===== src/Kernel/Sched/Spawn.antt =====
-- `sched_spawn` of kernel/sched.c.
pub mod Held
pub mod Pushed
pub mod Correct
use velox_os.Prelude.{
  ℕ, zero, suc, ◌+◌, ◌-◌, ◌*◌, ◌/◌, ◌^◌, ◌≤◌, ◌<◌, ◌≡◌, ◌≢◌, refl, ◌∙◌, Bool, true, false, not,
  ◌||◌, ◌&&◌, List, [], ◌∷◌, ◌++◌, arith, Option, none, some, ◌==◌, leb, ltb, if◌then◌else◌, length,
  All, Bool-cases, ◌⊎◌, inl, inr,
}
use velox_os.Prelude.Words.{u64, sub_u64}
use velox_os.Kernel.Sched.{
  runnable, Task, Store, SchedCpu, Sched, Frame, set_cpu, write, max_cpus, runq_push, tick_cpu,
}

abbrev pub stack_bytes : ℕ
stack_bytes = 16 * 1024

abbrev pub frame_bytes : ℕ
frame_bytes = 20 * 8

abbrev pub task_bytes : ℕ
task_bytes = 40

-- The calls of the allocators, in order.
pub data Call : Type 0 where
  kmalloc : (size : ℕ) → Call
  kfree : (ptr : ℕ) → Call
  vmalloc : (size : ℕ) → Call
  vfree : (ptr size : ℕ) → Call

-- The C functions' -1 and 0.
pub data Status : Type 0 where
  failed done : Status

unfoldable pub memset_frame : Frame
memset_frame = record {
  r15 = 0;
  r14 = 0;
  r13 = 0;
  r12 = 0;
  r11 = 0;
  r10 = 0;
  r9 = 0;
  r8 = 0;
  rbp = 0;
  rdi = 0;
  rsi = 0;
  rdx = 0;
  rcx = 0;
  rbx = 0;
  rax = 0;
  vector = 0;
  error_code = 0;
  rip = 0;
  cs = 0;
  rflags = 0;
}

-- The task at `task` and its frame at the top of `stack`, once both blocks are there.
unfoldable pub prepare : (trampoline entry arg task stack : ℕ) → Sched → Sched
unfolding memset_frame
prepare trampoline entry arg task stack s =
    let top = u64 (stack + stack_bytes) in
    let frame = sub_u64 top frame_bytes in
    let contents = record memset_frame {
      rip = trampoline;
      cs = 0x08;
      rflags = 0x202;
      rdi = entry;
      rsi = arg;
    } in
    record s {
      frames = λ p. if frame == p then contents else s.frames p;
      tasks = write s.tasks task (record {
        frame = frame;
        stack_base = stack;
        stack_size = stack_bytes;
        state = runnable;
        next = 0;
      });
    }

-- `task` and `stack` are what kmalloc and vmalloc return; `trampoline` is the address of
-- `sched_thread_trampoline`, and `cpu_id` that of `cpu_self()`.
unfoldable pub sched_spawn :
    (trampoline entry arg task stack cpu_id : ℕ) → Sched → Status × List Call × Sched
unfolding prepare runq_push
sched_spawn trampoline entry arg task stack cpu_id s =
    if entry == 0
    then (failed, [], s)
    else if task == 0
    then (failed, kmalloc task_bytes ∷ [], s)
    else if stack == 0
    then (failed, kmalloc task_bytes ∷ vmalloc stack_bytes ∷ kfree task ∷ [], s)
    else (let ready = prepare trampoline entry arg task stack s in
        if leb max_cpus cpu_id
        then (
          failed,
          kmalloc task_bytes ∷ vmalloc stack_bytes ∷ vfree stack stack_bytes ∷ kfree task ∷ [],
          ready,
        )
        else (let (h, cpu) = runq_push task (ready.tasks, ready.cpus cpu_id) in
            (
              done,
              kmalloc task_bytes ∷ vmalloc stack_bytes ∷ [],
              record ready { tasks = h; cpus = set_cpu ready.cpus cpu_id cpu },
            )))
