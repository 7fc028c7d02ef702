-- ===== src/Rcu/Tests.antt =====
-- Runs of the toy RCU, and its theorems at them: a reader and an updater, an updater alone, and an
-- updater that gets no memory.
use kernel_module_memo.Base.{
  ℕ, replicate, [], ◌∷◌, ◌≡◌, ◌≢◌, refl, true, false, none, some, arith, ◌⊎◌, ◌↔◌,
}
use kernel_module_memo.Base.Family.{update}
use kernel_module_memo.Rcu.Lock.{synchronize_enter}
use kernel_module_memo.Rcu.Schedule.{Call, get_a, update_a, starve_a, Run, run}
use kernel_module_memo.Rcu.Thread.{published, idle, IsSound, at_null, publish}
use kernel_module_memo.Rcu.System.{System, Steps, pick, rest}
use kernel_module_memo.Rcu.Safety.{no_use_after_free}
use kernel_module_memo.Rcu.Snapshot.{view, Publishes, atomic_register}
use kernel_module_memo.Rcu.Refinement.{abstract_system, toy_refines}
use kernel_module_memo.Rcu.Grace
use kernel_module_memo.Rcu.Progress.{CanMove, no_deadlock}
use kernel_module_memo.Rcu.Completion.{starved, calls_complete}
use kernel_module_memo.Rcu.Quiz.{
  Cpus, locked, writing, spinning, Reach, start, later, spin_lock_irqsave, write_lock, interrupt,
  IsStuck, IsDeadlock, IsStuck-IsDeadlock,
}
use kernel_module_memo.Rcu.Oom.{null_blocks_updates}

abbrev reader : ℕ × Call
reader = (1, get_a)

abbrev updater : ℕ × Call
updater = (0, update_a 2 7)

-- Thread 1 has entered its read-side critical section.
abbrev reading : Run 2
reading = run 2 (reader ∷ [])

-- Thread 1 looks at the first object, and thread 0 has filled its own with `a = 7`.
abbrev both : Run 2
both = run 2 (reader ∷ reader ∷ updater ∷ updater ∷ updater ∷ updater ∷ updater ∷ [])

-- Thread 0 has carried out `foo_update_a(7)`, and nobody is inside.
abbrev done : Run 2
done = run 2 (replicate 10 updater)

-- Thread 0 holds `foo_mutex` and no memory.
abbrev no_memory : Run 2
no_memory = run 2 (replicate 3 (0, starve_a 7))

done_memory : (done.mem.cell 1 ≡ none) × (done.mem.cell 2 ≡ some (record { a = 7; b = 3; c = 4 }))
unfolding run
done_memory = (refl, refl)

-- `synchronize_rcu` waits while a reader is inside.
reader_holds_up : synchronize_enter reading.mem.gp ≡ none
unfolding run synchronize_enter
reader_holds_up = refl

no_use_after_free_example : IsSound both.mem.cell (both.pc 1)
unfolding run
no_use_after_free_example = no_use_after_free both.reach 1 refl

done_idle : (i : ℕ) → done.pc i ≡ idle
unfolding run
done_idle i = ground arith

after_publish : System
after_publish = record {
  mem = record both.mem { gbl_foo = 2 };
  pc = update both.pc 0 (published 1);
}

atomic_register_example :
    (view after_publish ≡ view both.last) ⊎ Publishes 3 4 both.last after_publish
unfolding run after_publish
atomic_register_example = atomic_register both.reach (pick 0 (omega arith) publish)

null_blocks_updates_example :
    (no_memory.mem.foo_mutex ≡ true) × (no_memory.mem.gbl_foo ≡ no_memory.mem.gbl_foo)
unfolding run
null_blocks_updates_example = null_blocks_updates no_memory.reach 0 7 1 refl rest

toy_refines_example : Grace.Reach Grace.by_synchronize_rcu 2 1 3 4 (abstract_system done.last)
unfolding run
toy_refines_example = toy_refines done.reach

both_alive : (i : ℕ) → at_null (both.pc i) ≡ false
unfolding run
both_alive i = ground arith

no_deadlock_example : (j : ℕ) × (both.pc j ≢ idle) × CanMove both.mem (both.pc j)
unfolding run
no_deadlock_example = no_deadlock both.reach both_alive 1 (λ e. cc)

both_fed : (i : ℕ) → starved (both.pc i) ≡ false
unfolding run
both_fed i = ground arith

calls_complete_example : (t : System) × Steps 2 both.last t × ((i : ℕ) → t.pc i ≡ idle)
unfolding run
calls_complete_example = calls_complete both.reach both_fed

-- CPU 0 takes its lock, CPU 1 gets `rcu_gp_mutex` for writing, and is interrupted.
abbrev dead : Cpus
dead = record {
  gp = record { readers = 0; writing = true };
  problematic_lock = true;
  cpu0 = locked;
  cpu1 = writing;
  handler = spinning;
}

dead_reached : Reach dead
unfolding synchronize_enter
dead_reached =
    later (later (later start (spin_lock_irqsave refl refl)) (write_lock refl refl refl))
      (interrupt refl)

IsStuck-IsDeadlock_example : IsStuck dead ↔ IsDeadlock dead
IsStuck-IsDeadlock_example = IsStuck-IsDeadlock dead_reached
