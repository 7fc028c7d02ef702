-- ===== src/Rcu/Grace/Tests.antt =====
-- A run of sample_call_rcu.c with the kernel's RCU, and the theorems at it: thread 1 reads while
-- thread 0 updates, and the old object outlives the reader.
use kernel_module_memo.Base.{ℕ, ◌<◌, ◌≡◌, refl, some, true, arith, ℕ_discrete}
use kernel_module_memo.Base.Family.{update}
use kernel_module_memo.Rcu.Thread.{Foo, Pc, idle, published}
use kernel_module_memo.Rcu.Roles.{IsLive, reading}
use kernel_module_memo.Rcu.Grace.{
  IsSoundWith, Memory, Move, by_call_rcu, System, Step, pick, reclaimed, Reach, start, later,
}
use kernel_module_memo.Rcu.Grace.Safety.{no_early_kfree}
use kernel_module_memo.Rcu.Grace.Snapshot.{Others, here, next, reads_snapshot}
use kernel_module_memo.Rcu.Grace.Progress.{grace_periods_end}

abbrev junk : Foo
junk = record { a = 9; b = 9; c = 9 }

-- A state that ends a run, with the run.
record Run : Type 0 where
  last : System
  open last use *
  reach : Reach by_call_rcu 2 1 3 4 last

abbrev begun : Run
begun = record { last = _; reach = start }

abbrev then_moves :
    (r : Run) (i : ℕ) → i < 2 → {m : Memory} {p : Pc} → Move by_call_rcu i r.mem (r.pc i) m p → Run
then_moves r i lt mv = record { last = _; reach = later r.reach (pick i lt mv) }

abbrev inside : Run
unfolding ℕ_discrete
inside =
    then_moves (then_moves begun 1 (omega arith) Move.read_lock) 1 (omega arith) Move.dereference

abbrev filled : Run
unfolding ℕ_discrete
filled =
    let r1 = then_moves inside 0 (omega arith) (Move.kmalloc 2 junk 7 (omega arith) refl) in
    let r2 = then_moves r1 0 (omega arith) (Move.spin_lock refl) in
    let r3 = then_moves r2 0 (omega arith) Move.fetch in
    let r4 = then_moves r3 0 (omega arith) (Move.copy refl refl) in
    then_moves r4 0 (omega arith) (Move.fill refl)

-- Thread 0 has carried out `foo_update_a(7)`, and thread 1 still looks at the old object.
abbrev called : Run
unfolding ℕ_discrete
called =
    let r1 = then_moves filled 0 (omega arith) Move.publish in
    let r2 = then_moves r1 0 (omega arith) Move.spin_unlock in
    then_moves r2 0 (omega arith) (Move.call_rcu refl refl)

-- Thread 1 is outside again.
abbrev quiet : Run
unfolding ℕ_discrete
quiet =
    let r1 = then_moves called 1 (omega arith) (Move.load_a refl) in
    let r2 = then_moves r1 1 (omega arith) Move.read_unlock in
    then_moves r2 1 (omega arith) Move.finish

quiet_idle : (i : ℕ) → quiet.pc i ≡ idle
unfolding ℕ_discrete
quiet_idle i = ground arith

quiet_reading : (i : ℕ) → reading (quiet.pc i) ≡ 0
unfolding ℕ_discrete
quiet_reading i = ground arith

-- While thread 1 is inside, the callback is not due.
called_waits : called.mem.waits 1 1 ≡ true
unfolding ℕ_discrete
called_waits = refl

no_early_kfree_example : IsSoundWith by_call_rcu called.mem.cell (called.pc 1)
unfolding ℕ_discrete
no_early_kfree_example = no_early_kfree called.reach 1 refl

after_publish : System
after_publish = record {
  mem = record filled.mem { gbl_foo = 2 };
  pc = update filled.pc 0 (published 1);
}

grace_periods_end_example :
    IsLive quiet.mem.cell 1
    × Step by_call_rcu 2 quiet.last (record quiet.last { mem = reclaimed quiet.mem 1 })
unfolding ℕ_discrete
grace_periods_end_example = grace_periods_end quiet.reach quiet_reading 1 refl

-- Thread 1 is behind `rcu_read_lock`.
abbrev entering : Run
unfolding ℕ_discrete
entering = then_moves begun 1 (omega arith) Move.read_lock

-- What thread 0 does while thread 1 looks at the first object.
record Meanwhile : Type 0 where
  now : System
  others : Others by_call_rcu 2 1 inside.last now

abbrev then_updates :
    (w : Meanwhile)
    → {m : Memory} {p : Pc} → Move by_call_rcu 0 w.now.mem (w.now.pc 0) m p
    → Meanwhile
then_updates w mv = record { now = _; others = next 0 w.others (omega arith) (omega arith) mv }

abbrev updated : Meanwhile
unfolding ℕ_discrete inside
updated =
    let w1 =
      then_updates (record { now = _; others = here }) (Move.kmalloc 2 junk 7 (omega arith) refl) in
    let w2 = then_updates (then_updates w1 (Move.spin_lock refl)) Move.fetch in
    let w3 = then_updates (then_updates w2 (Move.copy refl refl)) (Move.fill refl) in
    then_updates (then_updates (then_updates w3 Move.publish) Move.spin_unlock)
      (Move.call_rcu refl refl)

reads_snapshot_example : entering.mem.cell 1 ≡ some (record { a = 5; b = 3; c = 4 })
unfolding ℕ_discrete entering inside updated
reads_snapshot_example =
    reads_snapshot {v = 5} entering.reach (omega arith) refl updated.others (Move.load_a refl)
