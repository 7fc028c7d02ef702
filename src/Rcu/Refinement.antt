-- ===== src/Rcu/Refinement.antt =====
-- rcu/toy_impl against the kernel's RCU: each step of the samples with the toy primitives is a step
-- of the same samples with `synchronize_rcu`.
use mathlib.Core.Path.{subst}
use kernel_module_memo.Base.{ℕ, ◌≡◌, refl, Bool, false, some, ◌==◌, arith}
use kernel_module_memo.Base.Family.{update}
use kernel_module_memo.Rcu.Thread.{
  Ptr, Memory, Pc, Move, read_lock, dereference, load_a, read_unlock, finish, kmalloc,
  kmalloc_fails, spin_lock, fetch, copy, fill, publish, spin_unlock, synchronize, grace_over, kfree,
}
use kernel_module_memo.Rcu.Lock.{RwLock, synchronize_enter}
use kernel_module_memo.Rcu.System.{System, Step, pick, Reach, start, later}
use kernel_module_memo.Rcu.Roles.{reading}
use kernel_module_memo.Rcu.Invariant.{Inv, Reach-Inv, none_reading}
use kernel_module_memo.Rcu.Grace

-- The state of the kernel's RCU that a state of the toy stands for: the readers are the threads
-- inside, and nothing waits, since `toy_synchronize_rcu` gets its lock when no reader is left.
abbrev pub abstract : Memory → (ℕ → Pc) → Grace.Memory
abstract m pc = record {
  gbl_foo = m.gbl_foo;
  foo_mutex = m.foo_mutex;
  cell = m.cell;
  inside = λ j. reading (pc j) == 1;
  waits = λ _ _. false;
  pending = λ _. false;
}

abbrev pub abstract_system : System → Grace.System
abstract_system s = record { mem = abstract s.mem s.pc; pc = s.pc }

entered_alone : (l g : RwLock) → synchronize_enter l ≡ some g → l.readers ≡ 0
unfolding synchronize_enter
entered_alone l g e = ground arith

module _ {n : ℕ} {m : Memory} {pc : ℕ → Pc} (inv : Inv n m pc) (i : ℕ) where
  -- A move to memory `x`, where `x` has the readers and the waits only point by point.
  settle :
      {p p' : Pc} {x : Grace.Memory} (inside : ℕ → Bool)
      → Grace.Move Grace.by_synchronize_rcu i (abstract m pc) p x p'
      → ((j : ℕ) → x.inside j ≡ inside j)
      → ((q : Ptr) (j : ℕ) → x.waits q j ≡ false)
      → Grace.Move Grace.by_synchronize_rcu i
          (abstract m pc)
          p
          (record x { inside = inside; waits = λ _ _. false })
          p'
  settle {p} {p'} {x} inside mv h g =
      subst (λ y. Grace.Move Grace.by_synchronize_rcu i (abstract m pc) p y p')
        (λ t. record x { inside = λ j. h j t; waits = λ q j. g q j t }) mv

  pub Move-refines :
      {p p' : Pc} {m' : Memory}
      → Move m p m' p'
      → pc i ≡ p
      → Grace.Move Grace.by_synchronize_rcu i (abstract m pc) p (abstract m' (update pc i p')) p'
  Move-refines (read_lock g) e = settle _ Grace.Move.read_lock (λ j. ground arith) (λ q j. refl)
  Move-refines dereference e = settle _ Grace.Move.dereference (λ j. ground arith) (λ q j. refl)
  Move-refines (load_a x) e = settle _ (Grace.Move.load_a x) (λ j. ground arith) (λ q j. refl)
  Move-refines read_unlock e =
      settle _ Grace.Move.read_unlock (λ j. ground arith) (λ q j. ground arith)
  Move-refines finish e = settle _ Grace.Move.finish (λ j. ground arith) (λ q j. refl)
  Move-refines (kmalloc f junk v ne free) e =
      settle _ (Grace.Move.kmalloc f junk v ne free) (λ j. ground arith) (λ q j. refl)
  Move-refines (kmalloc_fails v) e =
      settle _ (Grace.Move.kmalloc_fails v) (λ j. ground arith) (λ q j. refl)
  Move-refines (spin_lock f) e = settle _ (Grace.Move.spin_lock f) (λ j. ground arith) (λ q j. refl)
  Move-refines fetch e = settle _ Grace.Move.fetch (λ j. ground arith) (λ q j. refl)
  Move-refines (copy x y) e = settle _ (Grace.Move.copy x y) (λ j. ground arith) (λ q j. refl)
  Move-refines (fill x) e = settle _ (Grace.Move.fill x) (λ j. ground arith) (λ q j. refl)
  Move-refines publish e = settle _ Grace.Move.publish (λ j. ground arith) (λ q j. refl)
  Move-refines spin_unlock e = settle _ Grace.Move.spin_unlock (λ j. ground arith) (λ q j. refl)
  Move-refines (synchronize {g} x) e =
      settle _ (Grace.Move.synchronize refl) (λ j. ground arith)
        (λ q j. ground (arith, none_reading inv i (entered_alone m.gp g x) j))
  Move-refines grace_over e =
      settle _ (Grace.Move.grace_over (λ j. refl)) (λ j. ground arith) (λ q j. refl)
  Move-refines (kfree x) e = settle _ (Grace.Move.kfree x) (λ j. ground arith) (λ q j. refl)

pub Step-refines :
    {n b c : ℕ} {o : Ptr} {s t : System}
    → Reach n o b c s
    → Step n s t
    → Grace.Step Grace.by_synchronize_rcu n (abstract_system s) (abstract_system t)
Step-refines r (pick i lt mv) = Grace.Step.pick i lt (Move-refines (Reach-Inv r) i mv refl)

-- The toy RCU is a correct implementation of the kernel's: each run of `sample_use.c` over the toy
-- primitives is a run of the same code over `synchronize_rcu` as the kernel documents it, in which
-- the threads stand at the same statements and the pointer, the spinlock and the heap are the same.
pub toy_refines :
    {n b c : ℕ} {o : Ptr} {s : System}
    → Reach n o b c s
    → Grace.Reach Grace.by_synchronize_rcu n o b c (abstract_system s)
toy_refines start = Grace.Reach.start
toy_refines (later r st) = Grace.Reach.later (toy_refines r) (Step-refines r st)

-- So what holds of the samples over the kernel's RCU holds of the toy.
pub Reach-Grace :
    {n b c : ℕ} {o : Ptr} {s : System}
    → Reach n o b c s
    → Grace.Invariant.Inv n b c (abstract s.mem s.pc) s.pc
Reach-Grace r = Grace.Invariant.Reach-Inv (toy_refines r)
