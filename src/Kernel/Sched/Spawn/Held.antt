-- ===== src/Kernel/Sched/Spawn/Held.antt =====
-- The blocks that `sched_spawn` of kernel/sched.c holds when it returns.
use velox_os.Prelude.{
  ℕ, ◌≡◌, ◌≢◌, ◌≤◌, ◌<◌, refl, Bool, false, ◌&&◌, List, [], ◌∷◌, arith, ◌==◌, leb, if◌then◌else◌,
  Bool-cases, ◌⊎◌, inl, inr,
}
use velox_os.Kernel.Sched.{Sched, max_cpus}
use velox_os.Kernel.Sched.Spawn.{
  Status, Call, kmalloc, kfree, vmalloc, vfree, failed, done, sched_spawn,
}

-- An allocated block: of the heap, or pages of the virtual allocator with the bytes asked for.
pub data Block : Type 0 where
  on_heap : (ptr : ℕ) → Block
  in_pages : (ptr size : ℕ) → Block

-- What `kfree` and `vfree` give back; pages are given back only with the size that they were
-- allocated with.
abbrev pub is_heap : (ptr : ℕ) → Block → Bool
is_heap p (on_heap q) = p == q
is_heap p (in_pages q n) = false

abbrev pub is_pages : (ptr size : ℕ) → Block → Bool
is_pages p n (on_heap q) = false
is_pages p n (in_pages q m) = (p == q) && (n == m)

-- The list without the first block of which the test holds.
abbrev pub remove : (Block → Bool) → List Block → List Block
remove test [] = []
remove test (x ∷ xs) = if test x then xs else x ∷ remove test xs

-- The blocks that stay allocated after the calls, when kmalloc returns `task` and vmalloc `stack`.
abbrev pub held : (task stack : ℕ) → List Call → List Block → List Block
held task stack [] live = live
held task stack (kmalloc n ∷ cs) live =
    held task stack cs (if task == 0 then live else on_heap task ∷ live)
held task stack (vmalloc n ∷ cs) live =
    held task stack cs (if stack == 0 then live else in_pages stack n ∷ live)
held task stack (kfree p ∷ cs) live = held task stack cs (remove (is_heap p) live)
held task stack (vfree p n ∷ cs) live = held task stack cs (remove (is_pages p n) live)

abbrev pub HeldSpec : (entry task stack cpu_id : ℕ) → Status × List Call × Sched → Type 0
HeldSpec entry task stack cpu_id (status, calls, s) =
    (status ≡ failed
      × held task stack calls [] ≡ []
      × ((entry ≡ 0) ⊎ (task ≡ 0) ⊎ (stack ≡ 0) ⊎ (256 ≤ cpu_id)))
    ⊎ (status ≡ done
        × held task stack calls [] ≡ in_pages stack 16384 ∷ on_heap task ∷ []
        × (entry ≢ 0)
        × (task ≢ 0)
        × (stack ≢ 0)
        × (cpu_id < 256))

-- A spawn that fails has freed every block it got, the task to the heap and the stack to the
-- virtual allocator with its size; one that succeeds holds the task and a stack of 16 KiB. It
-- succeeds if the entry is not NULL, both allocations succeed and the CPU is below 256.
pub held-sched_spawn :
    (trampoline entry arg task stack cpu_id : ℕ) (s : Sched)
    → HeldSpec entry task stack cpu_id (sched_spawn trampoline entry arg task stack cpu_id s)
unfolding sched_spawn
held-sched_spawn trampoline entry arg task stack cpu_id s = elim (Bool-cases (entry == 0)) [
  | inl e ↦ rw e (inl (refl, refl, inl (ground arith)))
  | inr e ↦ rw e (elim (Bool-cases (task == 0)) [
    | inl f ↦ rw f (inl (refl, ground arith, inr (inl (ground arith))))
    | inr f ↦ rw f (elim (Bool-cases (stack == 0)) [
      | inl g ↦ rw g (inl (refl, ground arith, inr (inr (inl (ground arith)))))
      | inr g ↦ rw g (elim (Bool-cases (leb max_cpus cpu_id)) [
        | inl i ↦ rw i (inl (refl, ground arith, inr (inr (inr (ground arith)))))
        | inr i ↦
            rw i (inr (refl, ground arith, ground arith, ground arith, ground arith, ground arith))
      ])
    ])
  ])
]
