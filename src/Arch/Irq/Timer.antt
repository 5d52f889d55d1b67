-- ===== src/Arch/Irq/Timer.antt =====
-- The timer interrupt: `isr_handler` of isr_handler.c with the scheduler of kernel/sched.c.
use velox_os.Prelude.{
  ℕ, ◌%◌, ◌<◌, ◌≡◌, ◌≢◌, refl, ap, ◌∙◌, Bool, true, false, ◌&&◌, Option, none, some, List, [], ◌∷◌,
  ltb, ◌==◌, if◌then◌else◌, arith, Bool-cases, inl, inr,
}
use mathlib.Core.Path.{subst}
use velox_os.Kernel.Sched.{Store, SchedCpu, Sched, max_cpus, set_cpu, tick_cpu, sched_on_tick}
use velox_os.Kernel.Sched.Tick.{IsReady, tick_cpu-Ticked, rotated, running}
use velox_os.Kernel.Sched.Rotate.{rotated-append}
use velox_os.Arch.Irq.{
  World, vector_at, sched_tick_vector, ipi_vector_resched, irq_dispatch, isr_handler, with_tick,
  after_dispatch,
}

abbrev after : Sched → (i : ℕ) → ℕ × Store × SchedCpu → Sched
after s i r = record s { tasks = r.1; cpus = set_cpu s.cpus i r.2 }

sched_on_tick-after :
    (s : Sched) (i frame : ℕ)
    → i < max_cpus
    → sched_on_tick i frame s ≡ (let r = tick_cpu frame (s.tasks, s.cpus i) in (r.0, after s i r))
unfolding sched_on_tick
sched_on_tick-after s i frame id = ground arith

-- One tick of the CPU `i`, on the scheduler's whole state.
one_tick :
    (s : Sched) (i frame x : ℕ) (xs : List ℕ)
    → i < max_cpus
    → frame ≢ 0
    → IsReady s.tasks (s.cpus i) (x ∷ xs)
    → (t : Sched) × (sched_on_tick i frame s ≡ ((s.tasks x).frame, t))
      × ((t.cpus i).current ≡ x)
      × IsReady t.tasks (t.cpus i) (rotated s.tasks (running (s.cpus i)) xs)
      × (t.frames ≡ s.frames)
      × ((q : ℕ) → q ≢ running (s.cpus i) → (t.tasks q).frame ≡ (s.tasks q).frame)
one_tick s i frame x xs id nz ready =
    (let r = tick_cpu frame (s.tasks, s.cpus i) in
      let first = tick_cpu-Ticked s.tasks (s.cpus i) frame x xs nz ready in
      let self : (i == i) ≡ true = ground arith in
      (
        after s i r,
        sched_on_tick-after s i frame id ∙ rw first.out refl,
        rw self first.current,
        rw self first.ready,
        refl,
        λ q other. ground (arith, first.saves.frames q),
      ))

ticked :
    {K : Type 0} (test : Bool) (i frame out : ℕ) (w : World K) (s1 : Sched)
    → test ≡ true
    → sched_on_tick i frame w.sched ≡ (out, s1)
    → with_tick test i (frame, w) ≡ (out, record w { sched = s1 })
unfolding with_tick
ticked test i frame out w s1 t e = rw (t, e) refl

unticked :
    {K : Type 0} (test : Bool) (i frame : ℕ) (w : World K)
    → test ≡ false
    → with_tick test i (frame, w) ≡ (frame, w)
unfolding with_tick
unticked test i frame w t = rw t refl

-- `after_dispatch` from what its two tests lead to.
halves :
    {K : Type 0} (i : ℕ) (lapic_ready : Bool) (f1 f2 f3 : ℕ) (w1 w2 w3 : World K)
    → with_tick (vector_at w1 f1 == sched_tick_vector) i (f1, w1) ≡ (f2, w2)
    → with_tick ((vector_at w2 f2 == ipi_vector_resched) && true) i (f2, w2) ≡ (f3, w3)
    → after_dispatch i true lapic_ready f1 w1
      ≡ (f3, w3, if lapic_ready then some (vector_at w3 f3 % 256) else none)
unfolding after_dispatch
halves i lapic_ready f1 f2 f3 w1 w2 w3 e g = rw (e, g) refl

module _ {K : Type 0} (call : (handler frame : ℕ) → World K → World K) where
  irq_dispatch-none :
      (frame : ℕ) (w : World K)
      → frame ≢ 0
      → vector_at w frame ≡ sched_tick_vector
      → w.handlers sched_tick_vector ≡ 0
      → irq_dispatch call frame w ≡ w
  unfolding irq_dispatch
  irq_dispatch-none frame w nz v none_set = ground (arith, v, none_set)

  handled :
      (i frame : ℕ) (lapic_ready : Bool) (w : World K)
      → frame ≢ 0
      → vector_at w frame ≡ sched_tick_vector
      → w.handlers sched_tick_vector ≡ 0
      → isr_handler call i true lapic_ready frame w
        ≡ some (after_dispatch i true lapic_ready frame w)
  unfolding isr_handler
  handled i frame lapic_ready w nz v none_set =
      rw (low, irq_dispatch-none frame w nz v none_set) refl
    where
      low : ltb (vector_at w frame) 32 ≡ false
      low = ground arith

  -- Once the scheduler is started, a timer interrupt without a handler of its own, while `x` and then
  -- `y` are queued on a CPU that is ready: the CPU goes on with `x`, on its saved frame, unless that
  -- frame was saved by a reschedule interrupt; then it has gone on to `y` at once.
  pub isr_handler-timer :
      (i frame x y : ℕ) (xs : List ℕ) (lapic_ready : Bool) (w : World K)
      → i < max_cpus
      → frame ≢ 0
      → vector_at w frame ≡ sched_tick_vector
      → w.handlers sched_tick_vector ≡ 0
      → IsReady w.sched.tasks (w.sched.cpus i) (x ∷ y ∷ xs)
      → (out : ℕ) × (w' : World K) × (vector : Option ℕ) × (isr_handler call i true lapic_ready
            frame w
          ≡ some (out, w', vector))
        × ((w'.sched.cpus i).current
            ≡ (if vector_at w (w.sched.tasks x).frame == ipi_vector_resched then y else x))
        × (out ≡ (
            if vector_at w (w.sched.tasks x).frame == ipi_vector_resched
            then (w.sched.tasks y).frame
            else (w.sched.tasks x).frame))
  isr_handler-timer i frame x y xs lapic_ready w id nz v none_set ready =
      (let (s1, e1, c1, ready1, f1, same1) = one_tick w.sched i frame x (y ∷ xs) id nz ready in
        let saved_x = (w.sched.tasks x).frame in
        let w1 : World K = record w { sched = s1 } in
        let on : (vector_at w frame == sched_tick_vector) ≡ true = ground (arith, v) in
        let first = ticked _ i frame saved_x w s1 on e1 in
        let vec : vector_at w1 saved_x ≡ vector_at w saved_x = ap (λ f. (f saved_x).vector) f1 in
        elim (Bool-cases (vector_at w saved_x == ipi_vector_resched)) [
          | inr plain ↦
              let still =
                unticked ((vector_at w1 saved_x == ipi_vector_resched) && true) i saved_x w1
                  (rw (vec, plain) refl) in
              (
                saved_x,
                w1,
                _,
                handled i frame lapic_ready w nz v none_set
                    ∙ ap some (halves i lapic_ready frame saved_x saved_x w w1 w1 first still),
                rw plain c1,
                rw plain refl,
              )
          | inl ipi ↦
              let rest : List ℕ = rotated w.sched.tasks (running (w.sched.cpus i)) xs in
              let ready2 : IsReady s1.tasks (s1.cpus i) (y ∷ rest) =
                subst (IsReady s1.tasks (s1.cpus i))
                  (rotated-append w.sched.tasks (running (w.sched.cpus i)) [] y xs) ready1 in
              let (s2, e2, c2, ready3, f2, same2) =
                one_tick s1 i saved_x y rest id (ready.saved x (ground arith)) ready2 in
              let again =
                ticked ((vector_at w1 saved_x == ipi_vector_resched) && true) i saved_x
                  (s1.tasks y).frame w1 s2 (rw (vec, ipi) refl) e2 in
              (
                (s1.tasks y).frame,
                record w { sched = s2 },
                _,
                handled i frame lapic_ready w nz v none_set
                    ∙ ap some (
                        halves i lapic_ready frame saved_x (s1.tasks y).frame w w1
                          (record w { sched = s2 }) first again),
                rw ipi c2,
                rw ipi (same1 y (ground (arith, ready.absent))),
              )
        ])
