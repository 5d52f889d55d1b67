-- ===== src/Kernel/Sched/Queue.antt =====
-- The linked run queue of kernel/sched.c as a list of tasks.
use velox_os.Prelude.{
  ℕ, ◌≡◌, ◌≢◌, refl, Bool, true, false, ◌||◌, List, [], ◌∷◌, ◌++◌, arith, ◌==◌, if◌then◌else◌, sym,
}
use mathlib.Core.Path.{subst}
use velox_os.Kernel.Sched.{Store, set_next, SchedCpu, runq_push, runq_pop}

abbrev pub mem : ℕ → List ℕ → Bool
mem p [] = false
mem p (x ∷ xs) = (p == x) || mem p xs

-- From `p` the `next` pointers lead through the tasks `xs` to NULL.
abbrev pub Chain : Store → ℕ → List ℕ → Type 0
Chain h p [] = p ≡ 0
Chain h p (x ∷ xs) = (p ≡ x) × (x ≢ 0) × Chain h (h x).next xs

abbrev pub Distinct : List ℕ → Type 0
Distinct [] = Unit {0}
Distinct (x ∷ xs) = (mem x xs ≡ false) × Distinct xs

-- The last task of `x ∷ xs`.
abbrev pub last_of : ℕ → List ℕ → ℕ
last_of x [] = x
last_of x (y ∷ ys) = last_of y ys

abbrev pub tail_of : List ℕ → ℕ
tail_of [] = 0
tail_of (x ∷ xs) = last_of x xs

-- The queue of `cpu` holds the tasks `xs`.
pub record IsQueue (h : Store) (cpu : SchedCpu) (xs : List ℕ) : Type 0 where
  pub chain : Chain h cpu.runq_head xs
  pub last : cpu.runq_tail ≡ tail_of xs
  pub distinct : Distinct xs

-- A chain survives a change of tasks that are not on it.
pub Chain-frame :
    (h g : Store) (p : ℕ) (xs : List ℕ)
    → ((q : ℕ) → mem q xs ≡ true → (g q).next ≡ (h q).next)
    → Chain h p xs
    → Chain g p xs
Chain-frame h g p [] same c = c
Chain-frame h g p (x ∷ xs) same c =
    (c.0, c.1, rw (same x (ground arith)) (Chain-frame h g _ xs (λ q m. same q (ground arith)) c.2))

mem-last_of : (x : ℕ) (xs : List ℕ) → mem (last_of x xs) (x ∷ xs) ≡ true
mem-last_of x [] = ground arith
mem-last_of x (y ∷ ys) = ground (arith, mem-last_of y ys)

pub mem-append : (q : ℕ) (xs : List ℕ) (t : ℕ) → mem q (xs ++ t ∷ []) ≡ (mem q xs || (q == t))
mem-append q [] t = ground arith
mem-append q (x ∷ xs) t = ground (arith, mem-append q xs t)

Distinct-append : (xs : List ℕ) (t : ℕ) → Distinct xs → mem t xs ≡ false → Distinct (xs ++ t ∷ [])
Distinct-append [] t d m = (refl, tt)
Distinct-append (x ∷ xs) t d m =
    (ground (arith, mem-append x xs t), Distinct-append xs t d.1 (ground arith))

tail_of-append : (xs : List ℕ) (t : ℕ) → tail_of (xs ++ t ∷ []) ≡ t
tail_of-append [] t = refl
tail_of-append (x ∷ []) t = refl
tail_of-append (x ∷ y ∷ ys) t = tail_of-append (y ∷ ys) t

-- Linking `t`, whose `next` is NULL, behind the last task.
Chain-append :
    (h : Store) (p : ℕ) (x : ℕ) (xs : List ℕ) (t : ℕ)
    → t ≢ 0
    → (h t).next ≡ 0
    → mem t (x ∷ xs) ≡ false
    → Distinct (x ∷ xs)
    → Chain h p (x ∷ xs)
    → Chain (set_next h (last_of x xs) t) p (x ∷ xs ++ t ∷ [])
Chain-append h p x [] t nz e m d c = (c.0, c.1, (ground arith, nz, ground arith))
Chain-append h p x (y ∷ ys) t nz e m d c =
    (c.0, c.1, rw keeps (Chain-append h (h x).next y ys t nz e (ground arith) d.1 c.2))
  where
    keeps : (set_next h (last_of y ys) t x).next ≡ (h x).next
    keeps = ground (arith, mem-last_of y ys, d.0)

Chain-append_at :
    (h : Store) (p : ℕ) (x : ℕ) (xs : List ℕ) (t l : ℕ)
    → l ≡ last_of x xs
    → t ≢ 0
    → (h t).next ≡ 0
    → mem t (x ∷ xs) ≡ false
    → Distinct (x ∷ xs)
    → Chain h p (x ∷ xs)
    → Chain (set_next h l t) p (x ∷ xs ++ t ∷ [])
Chain-append_at h p x xs t l e nz n m d c =
    subst (λ v. Chain (set_next h v t) p (x ∷ xs ++ t ∷ [])) (sym e)
      (Chain-append h p x xs t nz n m d c)

-- The new tail after the first task is taken.
tail_of-pop :
    (h : Store) (p l x : ℕ) (xs : List ℕ)
    → Chain h p xs
    → l ≡ last_of x xs
    → (if p == 0 then 0 else l) ≡ tail_of xs
tail_of-pop h p l x [] c e = ground arith
tail_of-pop h p l x (y ∷ ys) c e = ground arith

Chain-null : (h : Store) (xs : List ℕ) → Chain h 0 xs → xs ≡ []
Chain-null h [] c = refl
Chain-null h (x ∷ xs) c = absurd (c.1 (omega arith))

abbrev QueueOf : Store × SchedCpu → List ℕ → Type 0
QueueOf s xs = IsQueue s.0 s.1 xs

-- Pushing a task, not NULL, that is not in a well-formed queue of distinct tasks appends it, and the
-- queue stays well-formed.
pub runq_push-IsQueue :
    (h : Store) (cpu : SchedCpu) (xs : List ℕ) (t : ℕ)
    → t ≢ 0
    → mem t xs ≡ false
    → IsQueue h cpu xs
    → QueueOf (runq_push t (h, cpu)) (xs ++ t ∷ [])
unfolding runq_push
runq_push-IsQueue h cpu [] t nz m q =
    rw empty record { chain = (refl, nz, ground arith); last = refl; distinct = (refl, tt) }
  where
    empty : (cpu.runq_head == 0) ≡ true
    empty = ground (arith, q.chain)
runq_push-IsQueue h cpu (x ∷ xs) t nz m q = rw nonempty record {
  chain =
      Chain-append_at (set_next h t 0) cpu.runq_head x xs t cpu.runq_tail q.last nz (ground arith) m
        q.distinct
        (Chain-frame h (set_next h t 0) cpu.runq_head (x ∷ xs) (λ p e. ground arith) q.chain);
  last = sym (tail_of-append (x ∷ xs) t);
  distinct = Distinct-append (x ∷ xs) t q.distinct m;
}
  where
    nonempty : (cpu.runq_head == 0) ≡ false
    nonempty = ground (arith, q.chain)

-- Popping from a well-formed queue that is not empty returns its first task and leaves the rest,
-- well-formed.
pub runq_pop-IsQueue :
    (h : Store) (cpu : SchedCpu) (x : ℕ) (xs : List ℕ)
    → IsQueue h cpu (x ∷ xs)
    → (runq_pop (h, cpu)).0 ≡ x × IsQueue (runq_pop (h, cpu)).1 (runq_pop (h, cpu)).2 xs
unfolding runq_pop
runq_pop-IsQueue h cpu x xs q = rw nonempty (
  q.chain.0,
  record {
    chain =
        subst (λ p. Chain (set_next h p 0) (h p).next xs) (sym q.chain.0)
          (Chain-frame h (set_next h x 0) (h x).next xs (λ p e. ground arith) q.chain.2);
    last = tail_of-pop h (h cpu.runq_head).next cpu.runq_tail x xs (rw q.chain.0 q.chain.2) q.last;
    distinct = q.distinct.1;
  },
)
  where
    nonempty : (cpu.runq_head == 0) ≡ false
    nonempty = ground (arith, q.chain)
