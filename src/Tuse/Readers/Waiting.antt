-- ===== src/Tuse/Readers/Waiting.antt =====
-- What a reader of old/tuse/dev.c finds behind its wait, whatever the other readers do.
use kernel_module_memo.Base.{
  ℕ, ◌<◌, ◌≡◌, ◌≢◌, refl, ap, ◌∙◌, sym, Bool, true, false, List, [], ◌∷◌, ◌++◌, inl, inr, ◌⊎◌,
  arith, ℕ_discrete,
}
use mathlib.Core.Logic.{if_pos, if_neg}
use kernel_module_memo.Base.Family.{le-total}
use kernel_module_memo.Kernel.Heap.{Ptr}
use kernel_module_memo.Tuse.Readers.{
  condition, some_pending, woken, Memory, Request, Pc, Move, begin, lock_waitq, would_block,
  no_wait, sleep, wake, signal, no_device, give_up, list_del_pending, unlock_waitq, too_large,
  lock_tpq, list_add, list_added, list_moved, stays, list_deleted, corrupt, unlock_tpq, copy,
  goto_out_end, list_move_tail, unlock_moved, list_del_out, unlock_out, request_end, System, Step,
  pick, arrive, connect_iq, connect_pq, Reach, start, later,
}
use kernel_module_memo.Tuse.Readers.Locks.{inside, held, Reach-IsLocked, waitq_alone}

abbrev pub is_woken : Pc → Bool
is_woken (woken b n) = true
is_woken _ = false

woken-inside : (p : Pc) → is_woken p ≡ true → inside p ≡ 1
woken-inside p e = ground arith

some_more : (ps : List Ptr) (p : Ptr) → some_pending (ps ++ (p ∷ [])) ≡ true
some_more [] p = refl
some_more (q ∷ qs) p = refl

-- Whoever is behind the wait, what it has waited for is so.
abbrev IsReady : ℕ → System → Type 0
IsReady n s = (j : ℕ) → j < n → is_woken (s.pc j) ≡ true → condition s.mem ≡ true

first : (ps : List Ptr) → some_pending ps ≡ true → (q : Ptr) × (qs : List Ptr) × (ps ≡ q ∷ qs)
first [] e = cc
first (q ∷ qs) e = (q, qs, refl)

module _ {requests : Ptr → Request} where
  -- A move changes the condition behind the wait only.
  Move-condition :
      {m m' : Memory} {p p' : Pc}
      → Move requests m p m' p'
      → (condition m' ≡ condition m) ⊎ (is_woken p ≡ true)
  Move-condition (begin b n) = inl refl
  Move-condition (lock_waitq e) = inl refl
  Move-condition (would_block e) = inl refl
  Move-condition (no_wait e) = inl refl
  Move-condition (sleep e f) = inl refl
  Move-condition (wake e f) = inl refl
  Move-condition (signal e) = inl refl
  Move-condition (no_device e) = inl refl
  Move-condition give_up = inl refl
  Move-condition (list_del_pending e f) = inr refl
  Move-condition unlock_waitq = inl refl
  Move-condition (too_large lt) = inl refl
  Move-condition (lock_tpq le e) = inl refl
  Move-condition list_add = inl refl
  Move-condition list_added = inl refl
  Move-condition unlock_tpq = inl refl
  Move-condition (copy err) = inl refl
  Move-condition (goto_out_end e) = inl refl
  Move-condition (list_move_tail e) = inl refl
  Move-condition list_moved = inl refl
  Move-condition unlock_moved = inl refl
  Move-condition (stays e) = inl refl
  Move-condition (list_del_out e) = inl refl
  Move-condition list_deleted = inl refl
  Move-condition unlock_out = inl refl
  Move-condition request_end = inl refl

  Move-woken :
      {m m' : Memory} {p p' : Pc}
      → Move requests m p m' p'
      → is_woken p' ≡ true
      → condition m' ≡ true
  Move-woken (begin b n) h = cc
  Move-woken (lock_waitq e) h = cc
  Move-woken (would_block e) h = cc
  Move-woken (no_wait e) h = e
  Move-woken (sleep e f) h = cc
  Move-woken (wake e f) h = f
  Move-woken (signal e) h = cc
  Move-woken (no_device e) h = cc
  Move-woken give_up h = cc
  Move-woken (list_del_pending e f) h = cc
  Move-woken unlock_waitq h = cc
  Move-woken (too_large lt) h = cc
  Move-woken (lock_tpq le e) h = cc
  Move-woken list_add h = cc
  Move-woken list_added h = cc
  Move-woken unlock_tpq h = cc
  Move-woken (copy err) h = cc
  Move-woken (goto_out_end e) h = cc
  Move-woken (list_move_tail e) h = cc
  Move-woken list_moved h = cc
  Move-woken unlock_moved h = cc
  Move-woken (stays e) h = cc
  Move-woken (list_del_out e) h = cc
  Move-woken list_deleted h = cc
  Move-woken unlock_out h = cc
  Move-woken request_end h = cc

  others_ready :
      {n : ℕ} {s : System} {m' : Memory} {there : Pc} (i j : ℕ)
      → Reach requests n s
      → i < n
      → j < n
      → i ≢ j
      → Move requests s.mem (s.pc i) m' there
      → is_woken (s.pc j) ≡ true
      → condition s.mem ≡ true
      → condition m' ≡ true
  others_ready {s} i j r lt lt' apart mv w h = elim (Move-condition mv) [
    | inl same ↦ same ∙ h
    | inr moves ↦
        absurd (
          apart
            (waitq_alone i j r lt lt' (woken-inside (s.pc i) moves) (woken-inside (s.pc j) w)).1)
  ]

  Step-IsReady :
      {n : ℕ} {s t : System} → Reach requests n s → Step requests n s t → IsReady n s → IsReady n t
  Step-IsReady {n} {s} r (pick i lt {m} {there} mv) h j lt' w = elim (ℕ_discrete i j) [
    | yes here ↦ Move-woken mv (ap is_woken (sym (if_pos (ℕ_discrete i j) here there (s.pc j))) ∙ w)
    | no apart ↦
        let same = ap is_woken (sym (if_neg (ℕ_discrete i j) apart there (s.pc j))) ∙ w in
        others_ready i j r lt lt' apart mv same (h j lt' same)
  ]
  Step-IsReady {s} r (arrive p e) h j lt w = ground (arith, some_more s.mem.pending p)
  Step-IsReady {n} {s} r (connect_iq c k e) h j lt w =
      let locked = Reach-IsLocked r in
      let there = le-total inside n j s.pc lt in
      let one = woken-inside (s.pc j) w in
      let free = ap held e in absurd (omega (arith, locked, there, one, free))
  Step-IsReady r (connect_pq c) h j lt w = h j lt w
  Step-IsReady r (corrupt io processing e) h j lt w = h j lt w

  Reach-IsReady : {n : ℕ} {s : System} → Reach requests n s → IsReady n s
  Reach-IsReady start j lt w = cc
  Reach-IsReady (later r st) j lt w = Step-IsReady r st (Reach-IsReady r) j lt w

  -- In every reachable state without interrupts, a reader that is behind its wait on a connected queue
  -- finds a request in it, whatever the other readers do: `list_entry` is never used on an empty list.
  pub finds_request :
      {n : ℕ} {s : System} (i : ℕ)
      → Reach requests n s
      → i < n
      → is_woken (s.pc i) ≡ true
      → s.mem.iq_connected ≡ true
      → s.mem.interrupts ≡ 0
      → (p : Ptr) × (ps : List Ptr) × (s.mem.pending ≡ p ∷ ps)
  finds_request {s} i r lt w connected quiet_lem =
      first s.mem.pending (ground (arith, Reach-IsReady r i lt w))
