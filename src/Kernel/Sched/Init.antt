-- ===== src/Kernel/Sched/Init.antt =====
-- The start of kernel/sched.c: `sched_init` and `sched_ap_init`.
use velox_os.Prelude.{
  ℕ, zero, suc, ◌+◌, ◌≤◌, ◌<◌, ◌≡◌, ◌≢◌, refl, Bool, true, false, ◌&&◌, [], arith, Option, none,
  some, ◌==◌, leb, ltb, if◌then◌else◌, Bool-cases, inl, inr,
}
use velox_os.Kernel.Sched.{runnable, SchedCpu, Sched, set_cpu, write, max_cpus}
use velox_os.Kernel.Sched.Tick.{running}
use velox_os.Kernel.Sched.Cpus.{IsSched}

-- The rest of the file's variables, and `g_cpu_count`.
pub record SchedGlobals : Type 0 where
  pub sched : Sched
  pub is_ready : Bool
  pub lapic_init_count : ℕ
  pub cpu_count : ℕ

unfoldable pub sched_init_cpu : (cpu_id : ℕ) → Sched → Sched
sched_init_cpu cpu_id s =
    let bootstrap = (s.cpus cpu_id).bootstrap in
    record s {
      tasks =
          write s.tasks bootstrap
            (record { frame = 0; stack_base = 0; stack_size = 0; state = runnable; next = 0 });
      cpus = set_cpu s.cpus cpu_id (record {
        bootstrap = bootstrap;
        current = bootstrap;
        runq_head = 0;
        runq_tail = 0;
        ticks = 0;
      });
    }

-- The loop over the CPUs, which starts at `i` and has `n` rounds.
unfoldable pub init_cpus : (n i : ℕ) → Sched → Sched
unfolding sched_init_cpu
init_cpus zero i s = s
init_cpus (suc n) i s = init_cpus n (i + 1) (sched_init_cpu i s)

-- SCHED_LAPIC_FALLBACK_COUNT
abbrev pub fallback_count : ℕ
fallback_count = 1000000

abbrev pub count_or_fallback : Option ℕ → ℕ
count_or_fallback none = fallback_count
count_or_fallback (some n) = n

-- `calibrated` is the count that the LAPIC's calibration gives, if it succeeds.
unfoldable pub sched_init : (calibrated : Option ℕ) → SchedGlobals → SchedGlobals
unfolding init_cpus
sched_init calibrated g =
    if g.is_ready
    then g
    else (let count = if g.cpu_count == 0 then 1 else g.cpu_count in
        record {
          sched = init_cpus count 0 g.sched;
          is_ready = true;
          lapic_init_count = count_or_fallback calibrated;
          cpu_count = count;
        })

unfoldable pub sched_ap_init : (cpu_id : ℕ) → SchedGlobals → SchedGlobals
unfolding sched_init_cpu
sched_ap_init cpu_id g = record g {
  sched =
      if ltb cpu_id g.cpu_count && ((g.sched.cpus cpu_id).current == 0)
      then sched_init_cpu cpu_id g.sched
      else g.sched;
  lapic_init_count = if g.lapic_init_count == 0 then fallback_count else g.lapic_init_count;
}

-- A CPU without tasks, not started yet or on its bootstrap task.
pub record IsIdle (cpu : SchedCpu) : Type 0 where
  pub head : cpu.runq_head ≡ 0
  pub tail : cpu.runq_tail ≡ 0
  pub at_bootstrap : running cpu ≡ cpu.bootstrap

-- The bootstrap tasks are at addresses of their own.
pub record IsStart (s : Sched) : Type 0 where
  pub idle : (i : ℕ) → i < max_cpus → IsIdle (s.cpus i)
  pub nonnull : (i : ℕ) → i < max_cpus → (s.cpus i).bootstrap ≢ 0
  pub apart :
      (i j : ℕ) → i < max_cpus → j < max_cpus → i ≢ j → (s.cpus i).bootstrap ≢ (s.cpus j).bootstrap

sched_init_cpu-IsStart : (i : ℕ) (s : Sched) → IsStart s → IsStart (sched_init_cpu i s)
unfolding sched_init_cpu
sched_init_cpu-IsStart i s start = record {
  idle = λ j jd. record {
    head = ground (arith, (start.idle j jd).head);
    tail = ground (arith, (start.idle j jd).tail);
    at_bootstrap = elim (Bool-cases (i == j)) [
      | inl e ↦ rw e (ground arith)
      | inr e ↦ rw e (start.idle j jd).at_bootstrap
    ];
  };
  nonnull = λ j jd. rw (kept j) (start.nonnull j jd);
  apart = λ j k jd kd n. rw (kept j, kept k) (start.apart j k jd kd n);
}
  where
    kept : (j : ℕ) → ((sched_init_cpu i s).cpus j).bootstrap ≡ (s.cpus j).bootstrap
    kept j = ground arith

init_cpus-IsStart : (n i : ℕ) (s : Sched) → IsStart s → IsStart (init_cpus n i s)
unfolding init_cpus
init_cpus-IsStart zero i s start = start
init_cpus-IsStart (suc n) i s start =
    init_cpus-IsStart n (i + 1) (sched_init_cpu i s) (sched_init_cpu-IsStart i s start)

IsStart-IsSched : (s : Sched) → IsStart s → IsSched s (λ i. [])
IsStart-IsSched s start = record {
  ready = λ i id. record {
    queue = record { chain = (start.idle i id).head; last = (start.idle i id).tail; distinct = tt };
    nonnull = rw (start.idle i id).at_bootstrap (start.nonnull i id);
    absent = refl;
    saved = λ q m. absurd (ground (arith, m));
  };
  apart = λ i j q id jd n o. ground (
    arith,
    (start.idle i id).at_bootstrap,
    (start.idle j jd).at_bootstrap,
    start.apart i j id jd n,
    o,
  );
}

init_cpus_current :
    (n i j : ℕ) (s : Sched)
    → ((init_cpus n i s).cpus j).current
      ≡ (if leb i j && ltb j (i + n) then (s.cpus j).bootstrap else (s.cpus j).current)
unfolding init_cpus sched_init_cpu
init_cpus_current zero i j s = ground arith
init_cpus_current (suc n) i j s = ground (arith, init_cpus_current n (i + 1) j (sched_init_cpu i s))

-- From zeroed variables whose bootstrap tasks are at distinct addresses, the initialisation makes
-- well-formed CPUs with empty queues, it sets the flag, and it has started every CPU below the count,
-- which is at least 1, on its bootstrap task.
pub sched_init-IsSched :
    (calibrated : Option ℕ) (g : SchedGlobals)
    → g.is_ready ≡ false
    → IsStart g.sched
    → IsSched (sched_init calibrated g).sched (λ i. [])
      × (sched_init calibrated g).is_ready ≡ true
      × 1 ≤ (sched_init calibrated g).cpu_count
      × ((i : ℕ)
          → i < (sched_init calibrated g).cpu_count
          → ((sched_init calibrated g).sched.cpus i).current ≡ (g.sched.cpus i).bootstrap)
unfolding sched_init
sched_init-IsSched calibrated g fresh start = rw fresh (
  IsStart-IsSched (init_cpus (if g.cpu_count == 0 then 1 else g.cpu_count) 0 g.sched)
      (init_cpus-IsStart (if g.cpu_count == 0 then 1 else g.cpu_count) 0 g.sched start),
  refl,
  ground arith,
  λ i id.
      ground (arith, init_cpus_current (if g.cpu_count == 0 then 1 else g.cpu_count) 0 i g.sched),
)
