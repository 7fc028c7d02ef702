-- ===== src/Rcu/Invariant/Locks.antt =====
-- A move of one thread keeps what `Inv` says of `rcu_gp_mutex`.
use kernel_module_memo.Base.{ℕ, ◌<◌, ◌≡◌, refl, true, arith, dec_lt}
use kernel_module_memo.Base.Family.{update, total, total-update, le-total}
use kernel_module_memo.Rcu.Lock.{
  toy_rcu_read_lock, toy_rcu_read_unlock, synchronize_enter, synchronize_leave,
}
use kernel_module_memo.Rcu.Thread.{
  Memory, Pc, Move, read_lock, read_unlock, synchronize, grace_over,
}
use kernel_module_memo.Rcu.Invariant.Defs.{excluding, Inv}
use kernel_module_memo.Rcu.Roles.{reading}

module _ {n : ℕ} {m : Memory} {pc : ℕ → Pc} (inv : Inv n m pc) (i : ℕ) where
  -- With no reader counted, no thread is in a read-side critical section.
  pub none_reading : m.gp.readers ≡ 0 → (j : ℕ) → reading (pc j) ≡ 0
  none_reading z j = elim (dec_lt j n) [
    | yes lt ↦ omega (arith, le-total reading n j pc lt, inv.readers)
    | no ge ↦ ground (arith, inv.parked j)
  ]

  Move-write_held :
      {p p' : Pc} {m' : Memory}
      → Move m p m' p'
      → pc i ≡ p
      → (j : ℕ) → excluding (update pc i p' j) ≡ true
      → m'.gp.writing ≡ true
  unfolding toy_rcu_read_lock toy_rcu_read_unlock synchronize_enter synchronize_leave
  Move-write_held (read_lock g) e j x = ground (arith, inv.write_held j)
  Move-write_held (synchronize g) e j x = ground (arith, inv.write_held j)
  Move-write_held grace_over e j x = ground (arith, inv.write_held j, inv.write_one i j)
  Move-write_held mv e j x = ground (arith, inv.write_held j)

  Move-write_one :
      {p p' : Pc} {m' : Memory}
      → Move m p m' p'
      → pc i ≡ p
      → (j k : ℕ) → excluding (update pc i p' j) ≡ true
      → excluding (update pc i p' k) ≡ true
      → j ≡ k
  unfolding synchronize_enter
  Move-write_one (read_lock g) e j k x y = ground (arith, inv.write_one j k)
  Move-write_one (synchronize g) e j k x y =
      ground (arith, inv.write_one j k, inv.write_held j, inv.write_held k)
  Move-write_one mv e j k x y = ground (arith, inv.write_one j k)

  Move-write_alone :
      {p p' : Pc} {m' : Memory}
      → Move m p m' p'
      → pc i ≡ p
      → m'.gp.writing ≡ true
      → m'.gp.readers ≡ 0
  unfolding toy_rcu_read_lock toy_rcu_read_unlock synchronize_enter synchronize_leave
  Move-write_alone (read_lock g) e w = ground (arith, inv.write_alone)
  Move-write_alone read_unlock e w = ground (arith, inv.write_alone)
  Move-write_alone (synchronize g) e w = ground (arith, inv.write_alone)
  Move-write_alone grace_over e w = ground (arith, inv.write_alone)
  Move-write_alone mv e w = inv.write_alone w

  Move-readers :
      {p p' : Pc} {m' : Memory}
      → Move m p m' p'
      → i < n
      → pc i ≡ p
      → m'.gp.readers ≡ total reading n (update pc i p')
  unfolding toy_rcu_read_lock toy_rcu_read_unlock synchronize_enter synchronize_leave
  Move-readers {p'} (read_lock g) lt e =
      ground (arith, inv.readers, total-update reading n i pc p' lt)
  Move-readers {p'} (synchronize g) lt e =
      ground (arith, inv.readers, total-update reading n i pc p' lt)
  Move-readers {p'} mv lt e = ground (arith, inv.readers, total-update reading n i pc p' lt)

  pub Move-Inv : {p' : Pc} {m' : Memory} → i < n → Move m (pc i) m' p' → Inv n m' (update pc i p')
  Move-Inv lt mv = record {
    parked = λ j ge. ground (arith, inv.parked j);
    readers = Move-readers mv lt refl;
    write_held = Move-write_held mv refl;
    write_one = Move-write_one mv refl;
    write_alone = Move-write_alone mv refl;
  }
