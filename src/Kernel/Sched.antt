-- ===== src/Kernel/Sched.antt =====
-- kernel/sched.c: tasks in a store, one run queue for each CPU, linked through the tasks. A pointer
-- is a number and NULL is 0. `g_sched_lock` makes each function one step.
pub mod Queue
pub mod Tick
pub mod Rotate
pub mod Cpus
pub mod Spawn
pub mod Init
use velox_os.Prelude.{
  ℕ, ◌+◌, ◌-◌, ◌*◌, ◌^◌, Bool, true, false, not, ◌&&◌, ◌||◌, Option, none, some, List, [], ◌∷◌, leb,
  ltb, zero, suc, ◌==◌, if◌then◌else◌,
}
use velox_os.Prelude.Words.{u64, sub_u64}

pub data TaskState : Type 0 where
  runnable zombie : TaskState

abbrev pub is_runnable : TaskState → Bool
is_runnable runnable = true
is_runnable zombie = false

-- `sched_task_t`
pub record Task : Type 0 where
  pub frame : ℕ
  pub stack_base : ℕ
  pub stack_size : ℕ
  pub state : TaskState
  pub next : ℕ

abbrev pub Store : Type 0
Store = ℕ → Task

abbrev pub write : Store → ℕ → Task → Store
write h p t q = if p == q then t else h q

abbrev pub set_next : Store → ℕ → ℕ → Store
set_next h p n = write h p (record (h p) { next = n })

-- `sched_cpu_t`; `bootstrap` is the address of the field of that name.
pub record SchedCpu : Type 0 where
  pub bootstrap : ℕ
  pub current : ℕ
  pub runq_head : ℕ
  pub runq_tail : ℕ
  pub ticks : ℕ

unfoldable pub runq_push : ℕ → Store × SchedCpu → Store × SchedCpu
runq_push task (h, cpu) =
    let h1 = set_next h task 0 in
    if cpu.runq_head == 0
    then (h1, record cpu { runq_head = task; runq_tail = task })
    else (set_next h1 cpu.runq_tail task, record cpu { runq_tail = task })

-- The task, or 0.
unfoldable pub runq_pop : Store × SchedCpu → ℕ × Store × SchedCpu
runq_pop (h, cpu) =
    let task = cpu.runq_head in
    if task == 0
    then (0, h, cpu)
    else (let head = (h task).next in
        (
          task,
          set_next h task 0,
          record cpu { runq_head = head; runq_tail = if head == 0 then 0 else cpu.runq_tail },
        ))

abbrev pub max_cpus : ℕ
max_cpus = 256

-- The part of `sched_on_tick` that runs once a task is popped.
unfoldable pub switch_to : (next frame : ℕ) → Store × SchedCpu → ℕ × Store × SchedCpu
unfolding runq_push
switch_to next frame (h, cpu) =
    if next == 0 || (next == cpu.current || ((h next).frame == 0))
    then (frame, h, cpu)
    else (let (h1, cpu1) =
          if is_runnable (h cpu.current).state then runq_push cpu.current (h, cpu) else (h, cpu) in
        ((h1 next).frame, h1, record cpu1 { current = next }))

-- `sched_on_tick` on the CPU that takes the interrupt.
unfoldable pub tick_cpu : (frame : ℕ) → Store × SchedCpu → ℕ × Store × SchedCpu
unfolding runq_pop switch_to
tick_cpu frame (h, cpu) =
    let current = if cpu.current == 0 then cpu.bootstrap else cpu.current in
    let cpu1 = record cpu { ticks = u64 (cpu.ticks + 1); current = current } in
    let h1 = write h current (record (h current) { frame = frame }) in
    if cpu1.runq_head == 0
    then (frame, h1, cpu1)
    else (let (next, h2, cpu2) = runq_pop (h1, cpu1) in switch_to next frame (h2, cpu2))

-- `interrupt_frame_ring0`
pub record Frame : Type 0 where
  pub r15 : ℕ
  pub r14 : ℕ
  pub r13 : ℕ
  pub r12 : ℕ
  pub r11 : ℕ
  pub r10 : ℕ
  pub r9 : ℕ
  pub r8 : ℕ
  pub rbp : ℕ
  pub rdi : ℕ
  pub rsi : ℕ
  pub rdx : ℕ
  pub rcx : ℕ
  pub rbx : ℕ
  pub rax : ℕ
  pub vector : ℕ
  pub error_code : ℕ
  pub rip : ℕ
  pub cs : ℕ
  pub rflags : ℕ

-- The file's state: the tasks, the frames that were stored, and `g_sched_cpus`, which has 256 places; the
-- count of the CPUs that were found does not exceed that.
pub record Sched : Type 0 where
  pub tasks : Store
  pub frames : ℕ → Frame
  pub cpus : ℕ → SchedCpu

abbrev pub set_cpu : (ℕ → SchedCpu) → ℕ → SchedCpu → ℕ → SchedCpu
set_cpu cpus i c j = if i == j then c else cpus j

-- `cpu_id` is that of `cpu_self()`.
unfoldable pub sched_on_tick : (cpu_id frame : ℕ) → Sched → ℕ × Sched
unfolding tick_cpu
sched_on_tick cpu_id frame s =
    if leb max_cpus cpu_id
    then (frame, s)
    else (let (out, h, cpu) = tick_cpu frame (s.tasks, s.cpus cpu_id) in
        (out, record s { tasks = h; cpus = set_cpu s.cpus cpu_id cpu }))
