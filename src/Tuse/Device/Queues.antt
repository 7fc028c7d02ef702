-- ===== src/Tuse/Device/Queues.antt =====
-- What a read does to the queues: oversized requests, an empty queue, the locks.
use kernel_module_memo.Base.{
  ℕ, zero, suc, ◌≤◌, ◌<◌, ◌≡◌, refl, sym, ap, ◌∙◌, Bool, true, false, not, ◌||◌, Option, none, some,
  List, [], ◌∷◌, ◌++◌, length, append_nil, append_assoc, ltb, arith, if◌then◌else◌, ◌==◌,
}
use kernel_module_memo.Kernel.Run.{Ret, fail, eagain, enodev, Errno, Run, ok, oops}
use kernel_module_memo.Tuse.Request.{Req, is_pending}
use kernel_module_memo.Tuse.Copy.{Page, Cursor}
use kernel_module_memo.Tuse.State.{Input, Device, request_pending, clear_flag}
use kernel_module_memo.Tuse.Device.{
  took, gave_up, woken, on_taken, returned, too_large, take_request, deliver, do_read, request_end,
}

-- A queue of a connection, whose lock this thread does not hold.
abbrev pub queue : List Req → ℕ → ℕ → Input
queue pending interrupts stray = record {
  connected = true;
  pending = pending;
  interrupts = interrupts;
  waitq = record { held = false; stray = stray };
}

abbrev pub disconnected : List Req → ℕ → ℕ → Input
disconnected pending n k = record (queue pending n k) { connected = false }

-- The wait returns at once where its condition holds.
abbrev pub Waits : (Input → Option Errno × Input) → Type 0
Waits wait = (q : Input) → not q.connected || request_pending q ≡ true → wait q ≡ (none, q)

abbrev pub AllLarge : ℕ → List Req → Type 0
AllLarge nbytes [] = Unit
AllLarge nbytes (r ∷ rs) = (nbytes < r.in_len) × AllLarge nbytes rs

-- The replies to requests that are too large.
abbrev pub refused : List Req → List Req
refused [] = []
refused (r ∷ rs) = too_large (clear_flag is_pending r) ∷ refused rs

module _ {Iter : Type 0} (load : Page → (offset size : ℕ) → List ℕ)
    (fill : Cursor Iter → Option Errno × Cursor Iter) (header : Req → List ℕ)
    (wait : Input → Option Errno × Input) (waits : Waits wait) (nonblock : Bool) (nbytes : ℕ) where
  -- The queue while this thread holds its lock.
  abbrev inside : List Req → ℕ → ℕ → Input
  inside pending n k = record (queue pending n k) { waitq = record { held = true; stray = k } }

  take_first_lem :
      (may_wait : Bool) (r : Req) (rs : List Req) (n k : ℕ) (d : Device Iter)
      → take_request wait may_wait (record d { iq = queue (r ∷ rs) n k })
        ≡ ok (took (clear_flag is_pending r)) (record d { iq = queue rs n k })
  unfolding take_request woken
  take_first_lem true r rs n k d =
      ap (λ w. woken w.0 (record d { iq = w.1 })) (waits (inside (r ∷ rs) n k) refl)
  take_first_lem false r rs n k d =
      ap (λ w. woken w.0 (record d { iq = w.1 })) (waits (inside (r ∷ rs) n k) refl)

  -- One turn of the loop of `tuse_dev_do_read`, from the result of its first part on.
  abbrev turn : ℕ → Req → Device Iter → Run (Device Iter) (Option Ret)
  turn fuel r d =
      if ltb nbytes r.in_len
      then do_read load fill header wait nonblock nbytes fuel (request_end (too_large r) d)
      else returned (deliver load fill header r d)

  do_read-suc :
      (fuel : ℕ) (r : Req) (rs : List Req) (n k : ℕ) (d : Device Iter)
      → do_read load fill header wait nonblock nbytes
          (suc fuel)
          (record d { iq = queue (r ∷ rs) n k })
        ≡ turn fuel (clear_flag is_pending r) (record d { iq = queue rs n k })
  unfolding do_read
  do_read-suc fuel r rs n k d =
      ap
        (on_taken load fill header wait nonblock nbytes
          (do_read load fill header wait nonblock nbytes fuel))
        (take_first_lem nonblock r rs n k d)

  turn_large :
      (fuel : ℕ) (r : Req) (d : Device Iter)
      → nbytes < r.in_len
      → turn fuel r d
        ≡ do_read load fill header wait nonblock nbytes fuel (request_end (too_large r) d)
  turn_large fuel r d h = rw (let e : ltb nbytes r.in_len ≡ true = ground arith in e)

  turn_fits :
      (fuel : ℕ) (r : Req) (d : Device Iter)
      → r.in_len ≤ nbytes
      → turn fuel r d ≡ returned (deliver load fill header r d)
  turn_fits fuel r d h = rw (let e : ltb nbytes r.in_len ≡ false = ground arith in e)

  -- The delivery of `r` when these requests have been ended.
  abbrev delivered :
      Req → List Req → ℕ → ℕ → Device Iter → List Req → Run (Device Iter) (Option Ret)
  delivered r rest n k d ended = returned (
      deliver load fill header (clear_flag is_pending r)
        (record d { iq = queue rest n k; ended = ended }))

  -- On a connected queue whose lock is free, with a wait that returns at once where its condition
  -- holds: when every request before `r` is larger than the reader's buffer and `r` is not, a read
  -- on enough fuel takes them all off the queue, ends each with -EIO (or -E2BIG for SETXATTR), and
  -- returns what the delivery of `r` returns.
  pub do_read_skips :
      (larger : List Req) (r : Req) (rest : List Req) (n k fuel : ℕ) (d : Device Iter)
      → AllLarge nbytes larger
      → r.in_len ≤ nbytes
      → length larger < fuel
      → do_read load fill header wait nonblock nbytes fuel
          (record d { iq = queue (larger ++ (r ∷ rest)) n k })
        ≡ returned (
            deliver load fill header
              (clear_flag is_pending r)
              (record d { iq = queue rest n k; ended = d.ended ++ refused larger }))
  do_read_skips [] r rest n k zero d all fits le = elim le [ ]
  do_read_skips (l ∷ ls) r rest n k zero d all fits le = elim le [ ]
  do_read_skips [] r rest n k (suc fuel) d all fits le =
      do_read-suc fuel r rest n k d
      ∙ turn_fits fuel (clear_flag is_pending r) (record d { iq = queue rest n k }) fits
      ∙ ap (delivered r rest n k d) (sym (append_nil d.ended))
  do_read_skips (l ∷ ls) r rest n k (suc fuel) d all fits le =
      let l' = clear_flag is_pending l in
      do_read-suc fuel l (ls ++ (r ∷ rest)) n k d
      ∙ turn_large fuel l' (record d { iq = queue (ls ++ (r ∷ rest)) n k }) all.0
      ∙ do_read_skips ls r rest n k fuel (request_end (too_large l') d) all.1 fits (omega arith)
      ∙ ap (delivered r rest n k d) (append_assoc d.ended (too_large l' ∷ []) (refused ls))

  disconnected_take :
      (may_wait : Bool) (pending : List Req) (n k : ℕ) (d : Device Iter)
      → take_request wait may_wait (record d { iq = disconnected pending n k })
        ≡ ok (gave_up enodev) (record d { iq = disconnected pending n k })
  unfolding take_request woken
  disconnected_take true pending n k d =
      ap (λ w. woken w.0 (record d { iq = w.1 }))
        (waits (record (inside pending n k) { connected = false }) refl)
  disconnected_take false pending n k d =
      ap (λ w. woken w.0 (record d { iq = w.1 }))
        (waits (record (inside pending n k) { connected = false }) refl)

  -- While the lock of the queue is free, and the wait returns at once where its condition holds: a
  -- non-blocking read of a connected queue without requests and interrupts fails with -EAGAIN; a
  -- read of a queue that is not connected fails with -ENODEV, whatever is in it. Both leave the
  -- device as it was, with the lock of the queue released.
  pub do_read_unavailable :
      (pending : List Req) (n k fuel : ℕ) (d : Device Iter)
      → (do_read load fill header wait true nbytes (suc fuel) (record d { iq = queue [] 0 k })
          ≡ ok (some (fail eagain)) (record d { iq = queue [] 0 k }))
        × (do_read load fill header wait nonblock nbytes
              (suc fuel)
              (record d { iq = disconnected pending n k })
            ≡ ok (some (fail enodev)) (record d { iq = disconnected pending n k }))
  unfolding do_read take_request
  do_read_unavailable pending n k fuel d = (
    refl,
    ap
        (on_taken load fill header wait nonblock nbytes
          (do_read load fill header wait nonblock nbytes fuel))
        (disconnected_take nonblock pending n k d),
  )

  interrupt_take :
      (may_wait : Bool) (m k : ℕ) (d : Device Iter)
      → take_request wait may_wait (record d { iq = queue [] (suc m) k }) ≡ oops
  unfolding take_request woken
  interrupt_take true m k d =
      let busy : not (suc m == 0) ≡ true = ground arith in
      rw busy (ap (λ w. woken w.0 (record d { iq = w.1 })) (waits (inside [] (suc m) k) busy))
  interrupt_take false m k d =
      let busy : not (suc m == 0) ≡ true = ground arith in
      ap (λ w. woken w.0 (record d { iq = w.1 })) (waits (inside [] (suc m) k) busy)

  -- If the wait returns at once where its condition holds, a connected queue whose lock is free,
  -- with an interrupt and no request, lets the reader past the wait, to take a request out of the
  -- empty list, which is a fault.
  pub interrupt_faults :
      (m k fuel : ℕ) (d : Device Iter)
      → do_read load fill header wait nonblock nbytes
          (suc fuel)
          (record d { iq = queue [] (suc m) k })
        ≡ oops
  unfolding do_read
  interrupt_faults m k fuel d =
      ap
        (on_taken load fill header wait nonblock nbytes
          (do_read load fill header wait nonblock nbytes fuel))
        (interrupt_take nonblock m k d)
