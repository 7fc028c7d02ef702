-- ===== src/Tuse/Readers/Order.antt =====
-- The order in which the readers of old/tuse/dev.c take the requests.
use kernel_module_memo.Base.{
  ℕ, ◌+◌, ◌≡◌, refl, false, sym, ap, ◌∙◌, List, [], ◌∷◌, ◌++◌, append_assoc, arith,
}
use kernel_module_memo.Base.Family.{total}
use kernel_module_memo.Kernel.Heap.{Ptr}
use kernel_module_memo.Tuse.Readers.{
  Memory, Request, Pc, Move, begin, lock_waitq, would_block, no_wait, sleep, wake, signal,
  no_device, give_up, list_del_pending, unlock_waitq, too_large, lock_tpq, list_add, list_added,
  list_moved, stays, list_deleted, corrupt, unlock_tpq, copy, goto_out_end, list_move_tail,
  unlock_moved, list_del_out, unlock_out, request_end, System, Step, pick, arrive, connect_iq,
  connect_pq, Reach, start, later,
}
use kernel_module_memo.Tuse.Readers.Places.{count, count-append, in_hand, places-arrived}

-- What has left the front of a list.
abbrev Front : List Ptr → List Ptr → Type 0
Front before after = (front : List Ptr) × (before ≡ front ++ after)

module _ {requests : Ptr → Request} where
  Move-Front : {m m' : Memory} {p p' : Pc} → Move requests m p m' p' → Front m.pending m'.pending
  Move-Front (begin b n) = ([], refl)
  Move-Front (lock_waitq e) = ([], refl)
  Move-Front (would_block e) = ([], refl)
  Move-Front (no_wait e) = ([], refl)
  Move-Front (sleep e f) = ([], refl)
  Move-Front (wake e f) = ([], refl)
  Move-Front (signal e) = ([], refl)
  Move-Front (no_device e) = ([], refl)
  Move-Front give_up = ([], refl)
  Move-Front (list_del_pending {p} e f) = (p ∷ [], f)
  Move-Front unlock_waitq = ([], refl)
  Move-Front (too_large lt) = ([], refl)
  Move-Front (lock_tpq le e) = ([], refl)
  Move-Front list_add = ([], refl)
  Move-Front list_added = ([], refl)
  Move-Front unlock_tpq = ([], refl)
  Move-Front (copy err) = ([], refl)
  Move-Front (goto_out_end e) = ([], refl)
  Move-Front (list_move_tail e) = ([], refl)
  Move-Front list_moved = ([], refl)
  Move-Front unlock_moved = ([], refl)
  Move-Front (stays e) = ([], refl)
  Move-Front (list_del_out e) = ([], refl)
  Move-Front list_deleted = ([], refl)
  Move-Front unlock_out = ([], refl)
  Move-Front request_end = ([], refl)

  Step-Front :
      {n : ℕ} {s t : System}
      → Step requests n s t
      → Front s.arrived s.mem.pending
      → Front t.arrived t.mem.pending
  Step-Front (pick i lt {m} mv) (front, e) =
      let (taken, f) = Move-Front mv in
      (front ++ taken, e ∙ ap (λ ps. front ++ ps) f ∙ sym (append_assoc front taken m.pending))
  Step-Front {s} (arrive p free) (front, e) =
      (front, ap (λ ps. ps ++ (p ∷ [])) e ∙ append_assoc front s.mem.pending (p ∷ []))
  Step-Front (connect_iq c k free) h = h
  Step-Front (connect_pq c) h = h
  Step-Front (corrupt io processing e) h = h

  Reach-Front : {n : ℕ} {s : System} → Reach requests n s → Front s.arrived s.mem.pending
  Reach-Front start = ([], refl)
  Reach-Front (later r st) = Step-Front st (Reach-Front r)

  -- The readers take the requests in the order in which they were queued: in every reachable state in
  -- which no two threads have been within a change of `io` or `processing` at once, for any number of
  -- readers, the requests that have been queued are, in their order, some that have
  -- left the queue and then those that are pending. Each request is, as often as it has left the
  -- queue, in the hand of a reader, in `processing`, or passed to `request_end`, all taken together.
  pub taken_in_order :
      {n : ℕ} {s : System}
      → Reach requests n s
      → s.mem.raced ≡ false
      → (front : List Ptr) × (s.arrived ≡ front ++ s.mem.pending)
        × ((q : Ptr)
            → count q front
              ≡ total (in_hand q) n s.pc + (count q s.mem.processing + count q s.mem.ended))
  taken_in_order {s} r calm =
      let (front, e) = Reach-Front r in
      (
        front,
        e,
        λ q.
            let all = places-arrived q r calm in
            let split = ap (count q) e ∙ count-append q front s.mem.pending in
            omega (arith, all, split),
      )
