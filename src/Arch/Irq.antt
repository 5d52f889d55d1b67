-- ===== src/Arch/Irq.antt =====
-- arch/x86_64/irq.c and the dispatch in arch/x86_64/isr_handler.c. A handler is its address, NULL is 0.
pub mod Timer
use velox_os.Prelude.{
  ℕ, ◌%◌, Bool, true, false, ◌||◌, ◌&&◌, Option, none, some, List, [], ◌∷◌, ltb, ◌==◌,
  if◌then◌else◌,
}
use velox_os.Kernel.Sched.{Frame, Sched, sched_on_tick}

-- `g_irq_handlers`
abbrev pub IrqTable : Type 0
IrqTable = ℕ → ℕ

unfoldable pub irq_register_handler : (vector handler : ℕ) → IrqTable → Bool × IrqTable
irq_register_handler vector handler t =
    if ltb vector 32 || (handler == 0)
    then (false, t)
    else (true, λ v. if vector == v then handler else t v)

unfoldable pub irq_unregister_handler : (vector : ℕ) → IrqTable → IrqTable
irq_unregister_handler vector t = if ltb vector 32 then t else λ v. if vector == v then 0 else t v

-- What an interrupt acts on; `rest` is the state of the handlers.
pub record World (K : Type 0) : Type 0 where
  pub handlers : IrqTable
  pub sched : Sched
  pub rest : K

abbrev pub vector_at : {K : Type 0} → World K → ℕ → ℕ
vector_at w frame = (w.sched.frames frame).vector

-- SCHED_TICK_VECTOR and IPI_VECTOR_RESCHED
abbrev pub sched_tick_vector : ℕ
sched_tick_vector = 0x20

abbrev pub ipi_vector_resched : ℕ
ipi_vector_resched = 0xF1

-- The two calls of `sched_on_tick` in `isr_handler`, each under its test.
unfoldable pub with_tick : {K : Type 0} → Bool → (cpu_id : ℕ) → ℕ × World K → ℕ × World K
with_tick true cpu_id (frame, w) =
    let (next, s) = sched_on_tick cpu_id frame w.sched in (next, record w { sched = s })
with_tick false cpu_id (frame, w) = (frame, w)

-- `isr_handler` behind `irq_dispatch`.
unfoldable pub after_dispatch :
    {K : Type 0}
    → (cpu_id : ℕ) (sched_is_ready lapic_ready : Bool) (frame : ℕ) → World K
    → ℕ × World K × Option ℕ
unfolding with_tick
after_dispatch cpu_id sched_is_ready lapic_ready frame w =
    let (frame1, w1) = with_tick (vector_at w frame == sched_tick_vector) cpu_id (frame, w) in
    let (frame2, w2) =
      with_tick ((vector_at w1 frame1 == ipi_vector_resched) && sched_is_ready) cpu_id
        (frame1, w1) in
    (frame2, w2, if lapic_ready then some (vector_at w2 frame2 % 256) else none)

-- `call` runs the handler at an address on a frame.
module _ {K : Type 0} (call : (handler frame : ℕ) → World K → World K) where
  unfoldable pub irq_dispatch : (frame : ℕ) → World K → World K
  irq_dispatch frame w =
      if frame == 0 || ltb (vector_at w frame) 32
      then w
      else (let handler = w.handlers (vector_at w frame) in
          if handler == 0 then w else call handler frame w)

  -- `none` is the panic. The last component is the vector given to `x86_lapic_handle_irq`, if the
  -- LAPIC is ready.
  unfoldable pub isr_handler :
      (cpu_id : ℕ) (sched_is_ready lapic_ready : Bool) (frame : ℕ)
      → World K
      → Option (ℕ × World K × Option ℕ)
  isr_handler cpu_id sched_is_ready lapic_ready frame w =
      if ltb (vector_at w frame) 32
      then none
      else some (after_dispatch cpu_id sched_is_ready lapic_ready frame (irq_dispatch frame w))
