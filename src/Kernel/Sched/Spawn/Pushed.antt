-- ===== src/Kernel/Sched/Spawn/Pushed.antt =====
-- The CPUs of kernel/sched.c after a new task is stored and pushed.
use velox_os.Prelude.{
  ℕ, ◌<◌, ◌≡◌, ◌≢◌, ◌∙◌, true, false, ◌||◌, ◌&&◌, List, [], ◌∷◌, ◌++◌, arith, ◌==◌, Bool-cases, inl,
  inr,
}
use mathlib.Core.Path.{subst}
use velox_os.Kernel.Sched.{Task, Store, SchedCpu, Sched, set_cpu, write, max_cpus, runq_push}
use velox_os.Kernel.Sched.Queue.{mem, mem-append, Chain, tail_of, runq_push-IsQueue}
use velox_os.Kernel.Sched.Tick.{running, runq_push_keeps, IsReady}
use velox_os.Kernel.Sched.Cpus.{
  owns, IsSched, set_queue, IsReady-frame, runq_push_next, mem-last_of,
}

mem_nonnull : (h : Store) (p q : ℕ) (xs : List ℕ) → Chain h p xs → mem q xs ≡ true → q ≢ 0
mem_nonnull h p q [] c m = absurd (ground (arith, m))
mem_nonnull h p q (x ∷ xs) c m = elim (Bool-cases (q == x)) [
  | inl e ↦ ground (arith, c.1)
  | inr e ↦ mem_nonnull h (h x).next q xs c.2 (ground arith)
]

-- A task that is not in a queue is not its tail.
not_tail : (q : ℕ) (xs : List ℕ) → q ≢ 0 → mem q xs ≡ false → q ≢ tail_of xs
not_tail q [] nz m = nz
not_tail q (x ∷ xs) nz m = mem-last_of x xs q m

module _ (s : Sched) (qs : ℕ → List ℕ) (i task : ℕ) (fields : Task) where
  abbrev pub stored : Store
  stored = write s.tasks task fields

  abbrev pub pushed : Store × SchedCpu
  pushed = runq_push task (stored, s.cpus i)

  abbrev pub spawned : Sched
  spawned = record s { tasks = pushed.0; cpus = set_cpu s.cpus i pushed.1 }

  abbrev queues : ℕ → List ℕ
  queues = set_queue qs i (qs i ++ task ∷ [])

  pushed_running : running pushed.1 ≡ running (s.cpus i)
  unfolding runq_push
  pushed_running = ground arith

  module _ (id : i < max_cpus) (sched : IsSched s qs) (nz : task ≢ 0) (fz : fields.frame ≢ 0)
      (fresh : (j : ℕ) → j < max_cpus → owns s qs j task ≡ false) where
    other-IsReady : (j : ℕ) → j < max_cpus → IsReady stored (s.cpus j) (qs j)
    other-IsReady j jd =
        IsReady-frame s.tasks stored (s.cpus j) (qs j) (λ q m. ground (arith, fresh j jd))
          (λ q m. ground (arith, fresh j jd)) (sched.ready j jd)

    pushed-IsReady : IsReady pushed.0 pushed.1 (qs i ++ task ∷ [])
    pushed-IsReady = record {
      queue =
          runq_push-IsQueue stored (s.cpus i) (qs i) task nz (ground (arith, fresh i id))
            before.queue;
      nonnull = rw pushed_running before.nonnull;
      absent =
          rw (pushed_running, mem-append (running (s.cpus i)) (qs i) task)
            (ground (arith, fresh i id, before.absent));
      saved = λ q m. ground (
        arith,
        runq_push_keeps stored (s.cpus i) task q,
        mem-append q (qs i) task,
        before.saved q,
        fz,
      );
    }
      where
        before : IsReady stored (s.cpus i) (qs i)
        before = other-IsReady i id

    -- The links of another CPU's tasks stay.
    foreign_links :
        (j q : ℕ)
        → j < max_cpus
        → (i == j) ≡ false
        → mem q (qs j) ≡ true
        → (pushed.0 q).next ≡ (s.tasks q).next
    foreign_links j q jd e m =
        runq_push_next stored (s.cpus i) task q (ground (arith, fresh j jd))
          (rw (other-IsReady i id).queue.last (not_tail q (qs i) q_nonnull (ground (arith, away))))
        ∙ ground (arith, fresh j jd)
      where
        away : owns s qs i q ≡ false
        away = sched.apart j i q jd id (ground arith) (ground arith)

        q_nonnull : q ≢ 0
        q_nonnull =
            mem_nonnull s.tasks (s.cpus j).runq_head q (qs j) (sched.ready j jd).queue.chain m

    spawned-IsReady : (j : ℕ) → j < max_cpus → IsReady pushed.0 (spawned.cpus j) (queues j)
    spawned-IsReady j jd = elim (Bool-cases (i == j)) [
      | inl e ↦ rw e pushed-IsReady
      | inr e ↦ rw e (
          IsReady-frame s.tasks pushed.0 (s.cpus j) (qs j) (λ q m. foreign_links j q jd e m)
            (λ q m. (runq_push_keeps stored (s.cpus i) task q).0 ∙ ground (arith, fresh j jd))
            (sched.ready j jd))
    ]

    owns_self :
        (q : ℕ)
        → ((q == running pushed.1) || mem q (qs i ++ task ∷ [])) ≡ (owns s qs i q || (q == task))
    owns_self q = rw (pushed_running, mem-append q (qs i) task) (ground arith)

    spawned-owns :
        (j q : ℕ)
        → j < max_cpus
        → owns spawned queues j q ≡ (owns s qs j q || ((i == j) && (q == task)))
    spawned-owns j q jd = elim (Bool-cases (i == j)) [
      | inl e ↦ rw e (
          subst
            (λ k.
              ((q == running pushed.1) || mem q (qs i ++ task ∷ []))
              ≡ (owns s qs k q || (q == task)))
            (ground arith) (owns_self q))
      | inr e ↦ rw e (ground arith)
    ]

    pub spawned-IsSched : IsSched spawned queues
    spawned-IsSched = record {
      ready = spawned-IsReady;
      apart = λ j k q jd kd n o. ground (
        arith,
        spawned-owns j q jd,
        spawned-owns k q kd,
        sched.apart j k q jd kd n,
        fresh j jd,
        fresh k kd,
      );
    }
