-- ===== src/Rcu/Life/Tests.antt =====
-- The lives of small modules with one reader and one writer, from loading to unloading, and the
-- theorems at them.
use kernel_module_memo.Base.{
  ℕ, ◌<◌, ◌≡◌, ◌≢◌, ◌↔◌, refl, none, true, is_some, false, Bool, ap, arith, ℕ_discrete,
}
use kernel_module_memo.Rcu.Thread.{Foo, Pc, idle}
use kernel_module_memo.Rcu.Grace.{
  IsSoundWith, Variant, by_call_rcu, by_synchronize_rcu, Memory, Move,
}
use kernel_module_memo.Rcu.Life.{
  Threads, Life, Event, Lives, Events, start, later, heap, calling, running, top, freed,
  kthread_run, started, turn, call, work, back, leave, rmmod, kthread_stop, stopped, kfree,
}
use kernel_module_memo.Rcu.Life.Modules.{kernel_threads, act}
use kernel_module_memo.Rcu.Life.Safety.{threads-IsSound, IsOver, exit_leaves, exit_frees_all}
use kernel_module_memo.Rcu.Life.Completion.{exit_completes}
use kernel_module_memo.Rcu.Life.Values.{readers_below}

abbrev junk : Foo
junk = record { a = 900; b = 9; c = 9 }

abbrev is_idle : Pc → Bool
is_idle idle = true
is_idle _ = false

is_idle-ne : (p : Pc) → is_idle p ≡ false → p ≢ idle
is_idle-ne p e f = cc (ap is_idle f)

module _ (k : Variant) where
  abbrev module_of : Threads k 2 1 3 4
  module_of = kernel_threads 2 1 3 4 k

  -- A life so far.
  record Run : Type 0 where
    last : Life module_of 1
    lives : Lives module_of 1 last

  abbrev next : (r : Run) → {l : Life module_of 1} → Event module_of 1 r.last l → Run
  next r e = record { last = _; lives = later r.lives e }

  -- Both threads are created, and both sleep; the writer's random number is 1007.
  abbrev asleep : Run
  unfolding ℕ_discrete
  asleep =
      let r1 = next (record { last = _; lives = start }) (kthread_run refl (omega arith)) in
      let r2 = next r1 (kthread_run refl (omega arith)) in
      let r3 = next r2 (started refl) in
      let r4 = next r3 (turn 0 5 refl refl) in next r4 (turn 1 1007 refl refl)

  -- A step of the call in which a thread is.
  abbrev works :
      (r : Run) (i : ℕ)
      → i < 2
      → r.last.stage i ≡ calling
      → is_idle (r.last.sys.pc i) ≡ false
      → {m : Memory} {p : Pc} → Move k i r.last.sys.mem (r.last.sys.pc i) m p
      → Run
  works r i lt e busy mv = next r (work i lt e (is_idle-ne _ busy) (act mv))

  -- The writer has published 7, behind `spin_unlock`.
  abbrev replaced : Run
  unfolding ℕ_discrete
  replaced =
      let w1 =
        next asleep
          (call 1 (omega arith) refl (_, refl) (act (Move.kmalloc 2 junk 7 (omega arith) refl))) in
      let w2 = works w1 1 (omega arith) refl refl (Move.spin_lock refl) in
      let w3 = works w2 1 (omega arith) refl refl Move.fetch in
      let w4 = works w3 1 (omega arith) refl refl (Move.copy refl refl) in
      let w5 = works w4 1 (omega arith) refl refl (Move.fill refl) in
      let w6 = works w5 1 (omega arith) refl refl Move.publish in
      works w6 1 (omega arith) refl refl Move.spin_unlock

  -- The reader has got 7.
  abbrev got : Run
  unfolding ℕ_discrete
  got =
      let r1 = next replaced (call 0 (omega arith) refl refl (act Move.read_lock)) in
      let r2 = works r1 0 (omega arith) refl refl Move.dereference in
      let r3 = works r2 0 (omega arith) refl refl (Move.load_a refl) in
      works r3 0 (omega arith) refl refl Move.read_unlock

  -- The exit function, when both threads are at the top of their loops.
  abbrev exits :
      (r : Run) → r.last.phase ≡ running → r.last.stage 0 ≡ top → r.last.stage 1 ≡ top → Run
  unfolding ℕ_discrete
  exits r e top_0 top_1 =
      let r1 = next (next r (rmmod e)) (kthread_stop refl (omega arith)) in
      let r2 = next (next r1 (leave 0 top_0 refl)) (stopped refl (omega arith) refl) in
      let r3 = next r2 (kthread_stop refl (omega arith)) in
      let r4 = next (next r3 (leave 1 top_1 refl)) (stopped refl (omega arith) refl) in
      next r4 (kfree refl)

-- With `call_rcu`, no callback runs before the end of the exit function.
abbrev unloaded_early : Run by_call_rcu
unfolding ℕ_discrete
unloaded_early =
    let r1 = works by_call_rcu (got by_call_rcu) 0 (omega arith) refl refl Move.finish in
    let r2 = works by_call_rcu r1 1 (omega arith) refl refl (Move.call_rcu refl refl) in
    let r3 = next by_call_rcu (next by_call_rcu r2 (back 0 refl refl)) (back 1 refl refl) in
    exits by_call_rcu r3 refl refl refl

-- With `synchronize_rcu`.
abbrev waiting : Run by_synchronize_rcu
unfolding ℕ_discrete
waiting =
    let r1 =
      works by_synchronize_rcu (got by_synchronize_rcu) 0 (omega arith) refl refl Move.finish in
    works by_synchronize_rcu r1 1 (omega arith) refl refl (Move.synchronize refl)

no_waits : (j : ℕ) → waiting.last.sys.mem.waits 1 j ≡ false
unfolding ℕ_discrete
no_waits j = ground arith

abbrev unloaded : Run by_synchronize_rcu
unfolding ℕ_discrete
unloaded =
    let r1 =
      works by_synchronize_rcu waiting 1 (omega arith) refl refl (Move.grace_over no_waits) in
    let r2 = works by_synchronize_rcu r1 1 (omega arith) refl refl (Move.kfree refl) in
    let r3 =
      next by_synchronize_rcu (next by_synchronize_rcu r2 (back 0 refl refl)) (back 1 refl refl) in
    exits by_synchronize_rcu r3 refl refl refl

threads-IsSound_example :
    IsSoundWith by_call_rcu
      (heap (module_of by_call_rcu) 1 (got by_call_rcu).last)
      ((got by_call_rcu).last.sys.pc 0)
unfolding ℕ_discrete
threads-IsSound_example = threads-IsSound (module_of by_call_rcu) 1 (got by_call_rcu).lives 0 refl

readers_below_example : ◌<◌ 7 100
unfolding ℕ_discrete
readers_below_example = readers_below (module_of by_call_rcu) 1 0 7 (got by_call_rcu).lives refl

exit_leaves_example :
    IsOver (module_of by_call_rcu) 1 unloaded_early.last
    × ((p : ℕ)
        → (is_some (heap (module_of by_call_rcu) 1 unloaded_early.last p) ≡ true)
          ↔ (unloaded_early.last.sys.mem.pending p ≡ true))
unfolding ℕ_discrete unloaded_early
exit_leaves_example = exit_leaves (module_of by_call_rcu) 1 unloaded_early.lives refl

exit_frees_all_example : heap (module_of by_synchronize_rcu) 1 unloaded.last 2 ≡ none
unfolding ℕ_discrete unloaded
exit_frees_all_example = exit_frees_all (module_of by_synchronize_rcu) 1 unloaded.lives refl 2

-- Both threads sleep, and the exit function begins.
abbrev stopped_asleep : Run by_synchronize_rcu
unfolding ℕ_discrete
stopped_asleep = next by_synchronize_rcu (asleep by_synchronize_rcu) (rmmod refl)

exit_completes_example :
    (l : Life (module_of by_synchronize_rcu) 1) × Events
      (module_of by_synchronize_rcu)
      1
      stopped_asleep.last
      l
    × (l.phase ≡ freed)
unfolding ℕ_discrete stopped_asleep
exit_completes_example =
    exit_completes (module_of by_synchronize_rcu) 1 0 stopped_asleep.lives refl (λ i. refl)
