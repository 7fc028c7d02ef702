-- ===== src/Tuse/Readers/Progress.antt =====
-- Which readers of old/tuse/dev.c can go on, in every reachable state.
use kernel_module_memo.Base.{
  ℕ, ◌+◌, ◌≤◌, ◌<◌, ◌≡◌, ◌⊎◌, refl, ap, Bool, true, false, not, ◌&&◌, Bool-cases, none, List, ◌∷◌,
  inl, inr, arith, dec_lt,
}
use kernel_module_memo.Base.Family.{total, total-update, total_below}
use kernel_module_memo.Kernel.Heap.{Ptr}
use kernel_module_memo.Tuse.Readers.{
  Memory, Request, Pc, idle, restart, checking, sleeping, woken, err_unlock, taken, sized, adding,
  inserting, moving, removing, added, copying, copied, moved, out_end, left, ending, Move, begin,
  lock_waitq, would_block, no_wait, sleep, wake, signal, no_device, give_up, list_del_pending,
  unlock_waitq, too_large, lock_tpq, list_add, list_added, list_moved, stays, list_deleted, corrupt,
  unlock_tpq, copy, goto_out_end, list_move_tail, unlock_moved, list_del_out, unlock_out,
  request_end, System, Step, pick, arrive, connect_iq, connect_pq, Reach, start, later, condition,
  request_pending, fails,
}
use kernel_module_memo.Tuse.Readers.Locks.{inside, held, Reach-IsLocked}
use kernel_module_memo.Tuse.Readers.Waiting.{is_woken, finds_request}

-- Whether a thread is between `spin_lock(&tpq->lock)` and the unlock that belongs to it.
abbrev pub adds : Pc → ℕ
adds (adding p) = 1
adds (inserting p) = 1
adds (added p) = 1
adds _ = 0

-- The lock of the processing queue is held only while a thread is there.
abbrev IsOwned : ℕ → System → Type 0
IsOwned n s = held s.mem.tpq_lock ≤ total adds n s.pc

-- Between a `spin_lock` and the `spin_unlock` that belongs to it.
abbrev pub HoldsLock : Pc → Type 0
HoldsLock p = (0 < inside p) ⊎ (0 < adds p)

-- In a call of `tuse_dev_do_read`, and not asleep in it.
abbrev pub is_running : Pc → Bool
is_running idle = false
is_running (sleeping b n) = false
is_running _ = true

-- A thread at this place can make a step.
abbrev pub CanMove : (Ptr → Request) → Memory → Pc → Type 0
CanMove requests m p = (m' : Memory) × (there : Pc) × Move requests m p m' there

neither : (p : Pc) → (0 < inside p) ⊎ (0 < adds p) → inside p ≡ 0 → adds p ≡ 0 → ⊥
neither p (inl h) x y = omega arith
neither p (inr h) x y = omega arith

owner_runs : (p : Pc) → (0 < inside p) ⊎ (0 < adds p) → is_running p ≡ true
owner_runs p h = ground arith

module _ {requests : Ptr → Request} where
  Move-adds :
      {m m' : Memory} {p p' : Pc}
      → Move requests m p m' p'
      → held m'.tpq_lock + adds p ≤ held m.tpq_lock + adds p' ⊎ (held m'.tpq_lock ≡ 0)
  Move-adds (begin b n) = inl (ground arith)
  Move-adds (lock_waitq e) = inl (ground arith)
  Move-adds (would_block e) = inl (ground arith)
  Move-adds (no_wait e) = inl (ground arith)
  Move-adds (sleep e f) = inl (ground arith)
  Move-adds (wake e f) = inl (ground arith)
  Move-adds (signal e) = inl (ground arith)
  Move-adds (no_device e) = inl (ground arith)
  Move-adds give_up = inl (ground arith)
  Move-adds (list_del_pending e f) = inl (ground arith)
  Move-adds unlock_waitq = inl (ground arith)
  Move-adds (too_large lt) = inl (ground arith)
  Move-adds (lock_tpq le e) = inl (ground arith)
  Move-adds list_add = inl (ground arith)
  Move-adds list_added = inl (ground arith)
  Move-adds unlock_tpq = inr refl
  Move-adds (copy err) = inl (ground arith)
  Move-adds (goto_out_end e) = inl (ground arith)
  Move-adds (list_move_tail e) = inl (ground arith)
  Move-adds list_moved = inl (ground arith)
  Move-adds unlock_moved = inr refl
  Move-adds (stays e) = inl (ground arith)
  Move-adds (list_del_out e) = inl (ground arith)
  Move-adds list_deleted = inl (ground arith)
  Move-adds unlock_out = inr refl
  Move-adds request_end = inl (ground arith)

  Step-IsOwned : {n : ℕ} {s t : System} → Step requests n s t → IsOwned n s → IsOwned n t
  Step-IsOwned {n} {s} (pick i lt {there} mv) h =
      let sum = total-update adds n i s.pc there lt in
      elim (Move-adds mv) [ inl le ↦ omega (arith, sum, le, h) | inr e ↦ omega (arith, e) ]
  Step-IsOwned (arrive p e) h = h
  Step-IsOwned (connect_iq c k e) h = h
  Step-IsOwned (connect_pq c) h = h
  Step-IsOwned (corrupt io processing e) h = h

  Reach-IsOwned : {n : ℕ} {s : System} → Reach requests n s → IsOwned n s
  Reach-IsOwned start = omega arith
  Reach-IsOwned (later r st) = Step-IsOwned st (Reach-IsOwned r)

  -- What a thread can do, if it finds what it has waited for, and the locks that it needs are free.
  moves :
      (m : Memory) (p : Pc)
      → is_running p ≡ true
      → (is_woken p ≡ true
          → m.iq_connected ≡ true
          → (q : Ptr) × (qs : List Ptr) × (m.pending ≡ q ∷ qs))
      → (inside p ≡ 0 → adds p ≡ 0 → (m.waitq_lock ≡ false) × (m.tpq_lock ≡ false))
      → CanMove requests m p
  moves m idle e finds free = cc
  moves m (restart b n) e finds free = (_, _, lock_waitq (free refl refl).0)
  moves m (checking b n) e finds free =
      elim (Bool-cases (b && m.iq_connected && not (request_pending m))) [
        | inl blocks ↦ (_, _, would_block blocks)
        | inr no_block ↦ elim (Bool-cases (condition m)) [
          | inl now ↦ (_, _, no_wait now)
          | inr not_now ↦ (_, _, sleep no_block not_now)
        ]
      ]
  moves m (sleeping b n) e finds free = cc
  moves m (woken b n) e finds free = elim (Bool-cases m.iq_connected) [
    | inl connected ↦ (_, _, list_del_pending connected (finds refl connected).2)
    | inr gone ↦ (_, _, no_device gone)
  ]
  moves m err_unlock e finds free = (_, _, give_up)
  moves m (taken b n q) e finds free = (_, _, unlock_waitq)
  moves m (sized b n q) e finds free = elim (dec_lt n (requests q).len) [
    | yes large ↦ (_, _, too_large large)
    | no fits ↦ (_, _, lock_tpq (omega arith) (free refl refl).1)
  ]
  moves m (adding q) e finds free = (_, _, list_add)
  moves m (inserting q) e finds free = (_, _, list_added)
  moves m (added q) e finds free = (_, _, unlock_tpq)
  moves m (copying q) e finds free = (_, _, copy none)
  moves m (copied err q) e finds free = elim (Bool-cases (fails m err (requests q))) [
    | inl failed ↦ (_, _, goto_out_end failed)
    | inr fine ↦ (_, _, list_move_tail fine)
  ]
  moves m (moving q) e finds free = (_, _, list_moved)
  moves m moved e finds free = (_, _, unlock_moved)
  moves m (out_end q) e finds free = elim (Bool-cases (requests q).private) [
    | inl kept ↦ (_, _, stays kept)
    | inr listed ↦ (_, _, list_del_out listed)
  ]
  moves m (removing q) e finds free = (_, _, list_deleted)
  moves m (left q) e finds free = (_, _, unlock_out)
  moves m (ending q) e finds free = (_, _, request_end)

  -- A thread that holds a lock can go on.
  by_owner :
      {n : ℕ} {s : System}
      → Reach requests n s
      → s.mem.interrupts ≡ 0
      → (i k : ℕ) → k < n
      → HoldsLock (s.pc k)
      → (j : ℕ) × (j < n)
        × (is_running (s.pc j) ≡ true)
        × CanMove requests s.mem (s.pc j)
        × ((j ≡ i) ⊎ (HoldsLock (s.pc j)))
  by_owner {s} r calm i k lt h =
      let runs = owner_runs (s.pc k) h in
      (
        k,
        lt,
        runs,
        moves s.mem (s.pc k) runs (λ w c. finds_request k r lt w c calm)
            (λ x y. absurd (neither (s.pc k) h x y)),
        inr h,
      )

  -- In every reachable state without interrupts, while a reader is in `tuse_dev_do_read` and not asleep,
  -- a reader that is so can make a step: the readers do not deadlock. It is that reader itself, or one
  -- that is between a `spin_lock` and the `spin_unlock` that belongs to it.
  pub readers_go_on :
      {n : ℕ} {s : System} (i : ℕ)
      → Reach requests n s
      → s.mem.interrupts ≡ 0
      → i < n
      → is_running (s.pc i) ≡ true
      → (j : ℕ) × (j < n)
        × (is_running (s.pc j) ≡ true)
        × CanMove requests s.mem (s.pc j)
        × ((j ≡ i) ⊎ (HoldsLock (s.pc j)))
  readers_go_on {n} {s} i r calm lt e = elim (Bool-cases s.mem.waitq_lock) [
    | inl busy ↦
        let locked = Reach-IsLocked r in
        let one = ap held busy in
        let (k, lt', heavy) = total_below inside n s.pc (omega (arith, locked, one)) in
        by_owner r calm i k lt' (inl heavy)
    | inr open_lem ↦ elim (Bool-cases s.mem.tpq_lock) [
      | inl busy ↦
          let owned = Reach-IsOwned r in
          let one = ap held busy in
          let (k, lt', heavy) = total_below adds n s.pc (omega (arith, owned, one)) in
          by_owner r calm i k lt' (inr heavy)
      | inr free ↦ (
        i,
        lt,
        e,
        moves s.mem (s.pc i) e (λ w c. finds_request i r lt w c calm) (λ x y. (open_lem, free)),
        inl refl,
      )
    ]
  ]
