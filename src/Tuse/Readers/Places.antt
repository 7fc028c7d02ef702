-- ===== src/Tuse/Readers/Places.antt =====
-- Where the queued requests are, in every reachable state of the readers of old/tuse/dev.c.
use kernel_module_memo.Base.{
  ℕ, ◌+◌, ◌≤◌, ◌<◌, ◌≡◌, refl, ap, false, List, [], ◌∷◌, ◌++◌, ◌==◌, if◌then◌else◌, arith,
  ℕ_discrete,
}
use kernel_module_memo.Base.Family.{total, total-update, le-total, two-total, total_const}
use kernel_module_memo.Kernel.Heap.{Ptr}
use kernel_module_memo.Tuse.Readers.{
  Memory, Request, Pc, idle, taken, sized, adding, inserting, moving, removing, added, copying,
  copied, out_end, left, ending, Move, begin, lock_waitq, would_block, no_wait, sleep, wake, signal,
  no_device, give_up, list_del_pending, unlock_waitq, too_large, lock_tpq, list_add, list_added,
  list_moved, stays, list_deleted, corrupt, unlock_tpq, copy, goto_out_end, list_move_tail,
  unlock_moved, list_del_out, unlock_out, request_end, System, Step, pick, arrive, connect_iq,
  connect_pq, Reach, start, later,
}

-- How often a request stands in a list.
abbrev pub count : Ptr → List Ptr → ℕ
count q [] = 0
count q (p ∷ ps) = (if p == q then 1 else 0) + count q ps

pub count-append : (q : Ptr) (ps rs : List Ptr) → count q (ps ++ rs) ≡ count q ps + count q rs
count-append q [] rs = omega arith
count-append q (p ∷ ps) rs = let rest = count-append q ps rs in omega (arith, rest)

-- Whether a thread has taken the request off the queue, and not yet passed it on.
abbrev pub in_hand : Ptr → Pc → ℕ
in_hand q (taken b n p) = if p == q then 1 else 0
in_hand q (sized b n p) = if p == q then 1 else 0
in_hand q (adding p) = if p == q then 1 else 0
in_hand q (inserting p) = if p == q then 1 else 0
in_hand q (added p) = if p == q then 1 else 0
in_hand q (copying p) = if p == q then 1 else 0
in_hand q (copied err p) = if p == q then 1 else 0
in_hand q (moving p) = if p == q then 1 else 0
in_hand q (out_end p) = if p == q then 1 else 0
in_hand q (removing p) = if p == q then 1 else 0
in_hand q (left p) = if p == q then 1 else 0
in_hand q (ending p) = if p == q then 1 else 0
in_hand q _ = 0

-- How often a request waits to be read, waits for its reply, or has been passed to `request_end`.
-- The list `io` is not counted.
abbrev pub in_lists : Ptr → Memory → ℕ
in_lists q m = count q m.pending + (count q m.processing + count q m.ended)

-- All places of the request together.
abbrev places : Ptr → ℕ → System → ℕ
places q n s = total (in_hand q) n s.pc + in_lists q s.mem

module _ {requests : Ptr → Request} (q : Ptr) where
  Move-in_lists :
      {m m' : Memory} {p p' : Pc}
      → Move requests m p m' p'
      → in_hand q p' + in_lists q m' ≡ in_hand q p + in_lists q m
  Move-in_lists (begin b n) = refl
  Move-in_lists (lock_waitq e) = refl
  Move-in_lists (would_block e) = refl
  Move-in_lists (no_wait e) = refl
  Move-in_lists (sleep e f) = refl
  Move-in_lists (wake e f) = refl
  Move-in_lists (signal e) = refl
  Move-in_lists (no_device e) = refl
  Move-in_lists give_up = refl
  Move-in_lists (list_del_pending e f) = let split = ap (count q) f in omega (arith, split)
  Move-in_lists unlock_waitq = refl
  Move-in_lists {m} (too_large {p} lt) =
      let more = count-append q m.ended (p ∷ []) in omega (arith, more)
  Move-in_lists (lock_tpq le e) = refl
  Move-in_lists list_add = refl
  Move-in_lists list_added = refl
  Move-in_lists unlock_tpq = refl
  Move-in_lists (copy err) = refl
  Move-in_lists (goto_out_end e) = refl
  Move-in_lists (list_move_tail e) = refl
  Move-in_lists {m} (list_moved {p}) =
      let more = count-append q m.processing (p ∷ []) in omega (arith, more)
  Move-in_lists unlock_moved = refl
  Move-in_lists (stays e) = refl
  Move-in_lists (list_del_out e) = refl
  Move-in_lists list_deleted = refl
  Move-in_lists unlock_out = refl
  Move-in_lists {m} (request_end {p}) =
      let more = count-append q m.ended (p ∷ []) in omega (arith, more)

  -- A race is never undone.
  Move-raced :
      {m m' : Memory} {p p' : Pc} → Move requests m p m' p' → m'.raced ≡ false → m.raced ≡ false
  Move-raced list_add h = ground arith
  Move-raced (list_move_tail e) h = ground arith
  Move-raced (list_del_out e) h = ground arith
  Move-raced (begin b n) h = h
  Move-raced mv h = h

  Step-raced :
      {n : ℕ} {s t : System} → Step requests n s t → t.mem.raced ≡ false → s.mem.raced ≡ false
  Step-raced (pick i lt mv) h = Move-raced mv h
  Step-raced (arrive p e) h = h
  Step-raced (connect_iq c k e) h = h
  Step-raced (connect_pq c) h = h
  Step-raced (corrupt io processing e) h = h

  Step-places :
      {n : ℕ} {s t : System}
      → Step requests n s t
      → s.mem.raced ≡ false
      → places q n s ≡ count q s.arrived
      → places q n t ≡ count q t.arrived
  Step-places {n} {s} (pick i lt {m} {there} mv) calm h =
      let sum = total-update (in_hand q) n i s.pc there lt in
      let kept = Move-in_lists mv in omega (arith, sum, kept, h)
  Step-places {s} (arrive p e) calm h =
      let queued = count-append q s.mem.pending (p ∷ []) in
      let counted = count-append q s.arrived (p ∷ []) in omega (arith, queued, counted, h)
  Step-places (connect_iq c k e) calm h = h
  Step-places (connect_pq c) calm h = h
  Step-places (corrupt io processing e) calm h = cc

  -- In every reachable state in which no two threads have been within a change of `io` or
  -- `processing` at once, for any number of readers, each request has been queued as often as it
  -- is in one of these places, all taken together: waiting to be read, in the hand of a reader,
  -- waiting for its reply, or ended.
  pub places-arrived :
      {n : ℕ} {s : System}
      → Reach requests n s
      → s.mem.raced ≡ false
      → total (in_hand q) n s.pc + in_lists q s.mem ≡ count q s.arrived
  places-arrived {n} start calm =
      let none_there = total_const (in_hand q) n idle refl in omega (arith, none_there)
  places-arrived (later r st) calm =
      let before = Step-raced st calm in Step-places st before (places-arrived r before)

  -- In every reachable state, a request that has been queued at most once, and that a reader has
  -- taken and not yet passed on, is in no other reader's hand, and it is neither pending, nor in
  -- `processing`, nor has `request_end` been called for it, as long as no two threads have
  -- been within a change of `io` or `processing` at once. (It may be in `io`, which the theorem says
  -- nothing of.)
  pub taken_once :
      {n : ℕ} {s : System} (i j : ℕ)
      → Reach requests n s
      → i < n
      → j < n
      → s.mem.raced ≡ false
      → count q s.arrived ≤ 1
      → in_hand q (s.pc i) ≡ 1
      → in_hand q (s.pc j) ≡ 1
      → (i ≡ j) × (in_lists q s.mem ≡ 0)
  taken_once {n} {s} i j r lt lt' calm once e f =
      let all = places-arrived r calm in
      let some_hand = le-total (in_hand q) n i s.pc lt in
      (
        elim (ℕ_discrete i j) [
          | yes same ↦ same
          | no apart ↦
              let twice = two-total (in_hand q) n i j s.pc idle refl lt lt' apart in
              absurd (omega (arith, twice, all, once, e, f))
        ],
        omega (arith, all, some_hand, once, e),
      )
