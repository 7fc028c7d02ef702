-- ===== src/Tuse/Readers/Locks.antt =====
-- The lock of the input queue, in every reachable state of the readers of old/tuse/dev.c.
use kernel_module_memo.Base.{ℕ, ◌+◌, ◌≤◌, ◌<◌, ◌≡◌, ◌≢◌, Bool, true, false, arith, refl, ℕ_discrete}
use kernel_module_memo.Base.Family.{total, total-update, le-total, two-total, total_const}
use kernel_module_memo.Kernel.Heap.{Ptr}
use kernel_module_memo.Tuse.Readers.{
  Memory, Request, Pc, idle, checking, woken, err_unlock, taken, Move, begin, lock_waitq,
  would_block, no_wait, sleep, wake, signal, no_device, give_up, list_del_pending, unlock_waitq,
  too_large, lock_tpq, list_add, list_added, list_moved, stays, list_deleted, corrupt, unlock_tpq,
  copy, goto_out_end, list_move_tail, unlock_moved, list_del_out, unlock_out, request_end, System,
  Step, pick, arrive, connect_iq, connect_pq, Reach, start, later,
}

-- Whether a thread is between `spin_lock(&tiq->waitq.lock)` and its unlock.
abbrev pub inside : Pc → ℕ
inside (checking b n) = 1
inside (woken b n) = 1
inside err_unlock = 1
inside (taken b n p) = 1
inside _ = 0

abbrev pub held : Bool → ℕ
held true = 1
held false = 0

-- The lock is held as often as a thread is inside.
abbrev pub IsLocked : ℕ → System → Type 0
IsLocked n s = total inside n s.pc ≡ held s.mem.waitq_lock

held-le : (b : Bool) → held b ≤ 1
held-le true = omega arith
held-le false = omega arith

held_lem : (b : Bool) → held b ≢ 0 → b ≡ true
held_lem true h = refl
held_lem false h = absurd (h refl)

module _ {requests : Ptr → Request} where
  Move-balance :
      {m m' : Memory} {p p' : Pc}
      → Move requests m p m' p'
      → inside p ≤ held m.waitq_lock
      → inside p' + held m.waitq_lock ≡ inside p + held m'.waitq_lock
  Move-balance (begin b n) h = ground arith
  Move-balance (lock_waitq e) h = ground arith
  Move-balance (would_block e) h = ground arith
  Move-balance (no_wait e) h = ground arith
  Move-balance (sleep e f) h = ground arith
  Move-balance (wake e f) h = ground arith
  Move-balance (signal e) h = ground arith
  Move-balance (no_device e) h = ground arith
  Move-balance give_up h = ground arith
  Move-balance (list_del_pending e f) h = ground arith
  Move-balance unlock_waitq h = ground arith
  Move-balance (too_large lt) h = ground arith
  Move-balance (lock_tpq le e) h = ground arith
  Move-balance list_add h = ground arith
  Move-balance list_added h = ground arith
  Move-balance unlock_tpq h = ground arith
  Move-balance (copy err) h = ground arith
  Move-balance (goto_out_end e) h = ground arith
  Move-balance (list_move_tail e) h = ground arith
  Move-balance list_moved h = ground arith
  Move-balance unlock_moved h = ground arith
  Move-balance (stays e) h = ground arith
  Move-balance (list_del_out e) h = ground arith
  Move-balance list_deleted h = ground arith
  Move-balance unlock_out h = ground arith
  Move-balance request_end h = ground arith

  Step-IsLocked : {n : ℕ} {s t : System} → Step requests n s t → IsLocked n s → IsLocked n t
  Step-IsLocked {n} {s} (pick i lt {there} mv) h =
      let some_inside = le-total inside n i s.pc lt in
      let sum = total-update inside n i s.pc there lt in
      let balance = Move-balance mv (omega (arith, some_inside, h)) in
      omega (arith, sum, balance, h)
  Step-IsLocked (arrive p e) h = h
  Step-IsLocked (connect_iq c k e) h = h
  Step-IsLocked (connect_pq c) h = h
  Step-IsLocked (corrupt io processing e) h = h

  pub Reach-IsLocked : {n : ℕ} {s : System} → Reach requests n s → IsLocked n s
  Reach-IsLocked {n} start = total_const inside n idle refl
  Reach-IsLocked (later r st) = Step-IsLocked st (Reach-IsLocked r)

  -- In every reachable state, for any number of readers, whatever is queued and however the queues are
  -- connected meanwhile: when a thread is between `spin_lock(&tiq->waitq.lock)` and the unlock that
  -- belongs to it, the lock is held, and no other thread is there. Sleeping threads have let go of it.
  pub waitq_alone :
      {n : ℕ} {s : System} (i j : ℕ)
      → Reach requests n s
      → i < n
      → j < n
      → inside (s.pc i) ≡ 1
      → inside (s.pc j) ≡ 1
      → (s.mem.waitq_lock ≡ true) × (i ≡ j)
  waitq_alone {n} {s} i j r lt lt' e f =
      let locked = Reach-IsLocked r in
      let some_inside = le-total inside n i s.pc lt in
      (
        held_lem s.mem.waitq_lock (omega (arith, locked, some_inside, e)),
        elim (ℕ_discrete i j) [
          | yes same ↦ same
          | no apart ↦
              let twice = two-total inside n i j s.pc idle refl lt lt' apart in
              absurd (omega (arith, twice, locked, e, f, held-le s.mem.waitq_lock))
        ],
      )
