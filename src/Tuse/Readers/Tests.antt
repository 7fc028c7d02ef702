-- ===== src/Tuse/Readers/Tests.antt =====
-- The theorems on several readers, with two of them and requests of 48 bytes.
use kernel_module_memo.Base.Family.{update, total}
use kernel_module_memo.Base.{
  ℕ, ◌+◌, ◌++◌, ℕ_discrete, ◌<◌, ◌≡◌, ◌⊎◌, List, refl, true, false, [], ◌∷◌, arith,
}
use kernel_module_memo.Kernel.Heap.{Ptr}
use kernel_module_memo.Tuse.Readers.{
  Request, System, quiet, idle, restart, checking, woken, taken, begin, lock_waitq, no_wait,
  list_del_pending, pick, arrive, Reach, start, later,
}
use kernel_module_memo.Tuse.Readers.Waiting.{finds_request}
use kernel_module_memo.Tuse.Readers.Progress.{is_running, HoldsLock, CanMove, readers_go_on}
use kernel_module_memo.Tuse.Readers.Places.{in_lists, in_hand, count, taken_once}
use kernel_module_memo.Tuse.Readers.Order.{taken_in_order}

abbrev requests : Ptr → Request
requests p = record { len = 48; isreply = true; private = false }

-- Three requests wait.
abbrev queued : System
queued = record quiet {
  mem = record quiet.mem { pending = 1 ∷ 2 ∷ 3 ∷ [] };
  arrived = 1 ∷ 2 ∷ 3 ∷ [];
}

queued-Reach : Reach requests 2 queued
queued-Reach = later (later (later start (arrive 1 refl)) (arrive 2 refl)) (arrive 3 refl)

-- Thread 0 is behind its wait, and holds the lock.
abbrev woken_up : System
woken_up = record {
  mem = record queued.mem { waitq_lock = true };
  pc =
      update (update (update (λ _. idle) 0 (restart false 100)) 0 (checking false 100)) 0
        (woken false 100);
  arrived = 1 ∷ 2 ∷ 3 ∷ [];
}

woken_up-Reach : Reach requests 2 woken_up
unfolding ℕ_discrete
woken_up-Reach =
    later
      (later (later queued-Reach (pick 0 (omega arith) (begin false 100)))
        (pick 0 (omega arith) (lock_waitq refl)))
      (pick 0 (omega arith) (no_wait refl))

finds_request_example : (p : Ptr) × (ps : List Ptr) × (woken_up.mem.pending ≡ p ∷ ps)
unfolding ℕ_discrete
finds_request_example = finds_request 0 woken_up-Reach (omega arith) refl refl refl

readers_go_on_example :
    (j : ℕ) × (j < 2)
    × (is_running (woken_up.pc j) ≡ true)
    × CanMove requests woken_up.mem (woken_up.pc j)
    × ((j ≡ 0) ⊎ (HoldsLock (woken_up.pc j)))
unfolding ℕ_discrete
readers_go_on_example = readers_go_on 0 woken_up-Reach refl (omega arith) refl

-- It has taken the first request.
abbrev at_work : System
at_work = record {
  mem = record woken_up.mem { pending = 2 ∷ 3 ∷ [] };
  pc = update woken_up.pc 0 (taken false 100 1);
  arrived = 1 ∷ 2 ∷ 3 ∷ [];
}

at_work-Reach : Reach requests 2 at_work
unfolding ℕ_discrete
at_work-Reach = later woken_up-Reach (pick 0 (omega arith) (list_del_pending refl refl))

taken_once_example : (◌≡◌ {A = ℕ} 0 0) × (in_lists 1 at_work.mem ≡ 0)
unfolding ℕ_discrete
taken_once_example =
    taken_once 1 0 0 at_work-Reach (omega arith) (omega arith) refl (omega arith) refl refl

taken_in_order_example :
    (front : List Ptr) × (at_work.arrived ≡ front ++ at_work.mem.pending)
    × ((q : Ptr)
        → count q front
          ≡ total (in_hand q) 2 at_work.pc
            + (count q at_work.mem.processing + count q at_work.mem.ended))
unfolding ℕ_discrete
taken_in_order_example = taken_in_order at_work-Reach refl
