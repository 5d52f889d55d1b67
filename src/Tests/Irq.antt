-- ===== src/Tests/Irq.antt =====
-- The timer interrupt on the CPU 0 of Tests/Sched: the queued task 200 was saved by a reschedule interrupt.
use velox_os.Prelude.{ℕ, ◌≡◌, refl, true, Option, some, [], arith, ◌==◌, if◌then◌else◌}
use velox_os.Kernel.Sched.{Frame}
use velox_os.Kernel.Sched.Spawn.{memset_frame}
use velox_os.Arch.Irq.{World, vector_at, ipi_vector_resched, isr_handler}
use velox_os.Arch.Irq.Timer.{isr_handler-timer}
use velox_os.Tests.Sched.{tasks, cpu, cpu-IsReady}

-- The frame at 1000 is the timer's, all others a reschedule interrupt's.
abbrev saved : ℕ → Frame
saved p =
    if p == 1000
    then record memset_frame { vector = 0x20 }
    else record memset_frame { vector = 0xF1 }

abbrev world : World ℕ
world = record {
  handlers = λ v. 0;
  sched = record { tasks = tasks; frames = saved; cpus = cpu };
  rest = 0;
}

-- Handlers that change nothing.
abbrev idle : (handler frame : ℕ) → World ℕ → World ℕ
idle handler frame w = w

isr_handler_example :
    (out : ℕ) × (w' : World ℕ) × (vector : Option ℕ) × (isr_handler idle 0 true true 1000 world
      ≡ some (out, w', vector))
    × ((w'.sched.cpus 0).current
        ≡ (if vector_at world 2000 == ipi_vector_resched then 300 else 200))
    × (out ≡ (if vector_at world 2000 == ipi_vector_resched then 3000 else 2000))
isr_handler_example =
    isr_handler-timer idle 0 1000 200 300 [] true world (omega arith) (omega arith) refl refl
      cpu-IsReady
