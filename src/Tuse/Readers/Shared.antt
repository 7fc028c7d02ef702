-- ===== src/Tuse/Readers/Shared.antt =====
-- The lock of the processing queue, as the readers of old/tuse/dev.c take and release it.
use kernel_module_memo.Base.{ℕ, ◌≤◌, ◌<◌, ◌≡◌, refl, Bool, true, false, List, ◌∷◌, arith}
use kernel_module_memo.Kernel.Heap.{Ptr}
use kernel_module_memo.Tuse.Readers.{
  Request, idle, adding, begin, lock_waitq, no_wait, list_del_pending, unlock_waitq, lock_tpq,
  System, Reach,
}
use kernel_module_memo.Tuse.Readers.Runs.{MovesTo, go}

-- The queue is connected, its lock is free, and these requests wait.
abbrev IsOpen : List Ptr → System → Type 0
IsOpen ps s = (s.mem.iq_connected ≡ true) × (s.mem.waitq_lock ≡ false) × (s.mem.pending ≡ ps)

module _ {requests : Ptr → Request} {n : ℕ} (i : ℕ) (lt : i < n) where
  -- A read begins, and gets as far as the lock.
  reads :
      {s : System} (b : Bool) (nbytes : ℕ) (p : Ptr) (ps : List Ptr)
      → Reach requests n s
      → s.pc i ≡ idle
      → IsOpen (p ∷ ps) s
      → s.mem.tpq_lock ≡ false
      → (requests p).len ≤ nbytes
      → (t : System) × Reach requests n t
        × MovesTo i (adding p) s t
        × IsOpen ps t
        × (t.mem.tpq_lock ≡ true)
  reads b nbytes p ps r e (connected, unlocked, queue) free fits =
      let r1 = go i lt r e (begin b nbytes) in
      let r2 = go i lt r1 (ground arith) (lock_waitq {b = b} {n = nbytes} unlocked) in
      let r3 = go i lt r2 (ground arith) (no_wait {b = b} {n = nbytes} (ground arith)) in
      let r4 = go i lt r3 (ground arith) (list_del_pending {b = b} {n = nbytes} connected queue) in
      let r5 = go i lt r4 (ground arith) (unlock_waitq {b = b} {n = nbytes} {p = p}) in
      let r6 = go i lt r5 (ground arith) (lock_tpq {b = b} {n = nbytes} fits free) in
      (_, r6, (ground arith, λ j ne. ground arith), (connected, refl, refl), refl)
