-- ===== src/Tuse/Device.antt =====
-- Reading requests from the device: `tuse_dev_open`, `tuse_dev_read` and `tuse_dev_do_read` of
-- old/tuse/dev.c. Between its lock sections no other thread changes the queues, save in the wait.
pub mod Queues
pub mod Delivery
mod Tests
use kernel_module_memo.Base.{
  ℕ, zero, suc, ◌+◌, ◌-◌, ◌^◌, Bool, true, false, not, ◌&&◌, ◌||◌, Option, none, some, List, [],
  ◌∷◌, ◌++◌, ltb, if◌then◌else◌, ◌==◌,
}
use kernel_module_memo.Kernel.Run.{
  Ret, done, fail, Errno, eio, e2big, eagain, enodev, eperm, einval, Run, ok, oops, Cmd, pure,
  fault, ◌>>=◌, ◌>>◌,
}
use kernel_module_memo.Tuse.Request.{Flag, Flags, Req, isreply, locked, is_pending, sent, private}
use kernel_module_memo.Tuse.Copy.{
  Page, Cursor, Log, Copy, Loop, out_of_fuel, finished, copy_init, copy_finish, copy_one,
}
use kernel_module_memo.Tuse.State.{
  can_lock, locked_of, unlocked_of, Input, Device, request_pending, clear_flag, set_flag, is_locked,
  is_sent, fuse_setxattr, minus_eio, minus_e2big, header_size,
}

-- What `nbytes < reqsize` puts into the reply.
abbrev pub too_large : Req → Req
too_large r = record r { out_error = if r.opcode == fuse_setxattr then minus_e2big else minus_eio }

-- The first part of `tuse_dev_do_read`: it gives up, or it takes a request off the queue.
pub data Taken : Type 0 where
  gave_up : (error : Errno) → Taken
  took : (r : Req) → Taken

-- The result of the delivery as that of the loop on fuel.
abbrev pub returned : {S : Type 0} → Run S Ret → Run S (Option Ret)
returned oops = oops
returned (ok ret s) = ok (some ret) s

module _ {Iter : Type 0} where
  -- `request_end`, whose body is empty: `ended` is the log of its calls, and no state of the program.
  abbrev pub request_end : Req → Device Iter → Device Iter
  request_end r d = record d { ended = d.ended ++ (r ∷ []) }

  unlock_waitq : Device Iter → Device Iter
  unlock_waitq d = record d { iq = record d.iq { waitq = unlocked_of d.iq.waitq } }

  -- `err_unlock`
  err_unlock : Errno → Cmd (Device Iter) Taken
  unfolding unlock_waitq
  err_unlock e d = ok (gave_up e) (unlock_waitq d)

  -- `list_entry(tiq->pending.next, ...)`, where an empty list has no request to take.
  take_first : List Req → Cmd (Device Iter) Taken
  unfolding unlock_waitq
  take_first [] d = oops
  take_first (r ∷ rs) d =
      ok (took (clear_flag is_pending r))
        (unlock_waitq (record d { iq = record d.iq { pending = rs } }))

  -- Behind the wait, which says whether it was interrupted.
  pub woken : Option Errno → Cmd (Device Iter) Taken
  unfolding err_unlock take_first
  woken (some e) = err_unlock e
  woken none = λ d. (if d.iq.connected then take_first d.iq.pending else err_unlock enodev) d

  waiting : (Input → Option Errno × Input) → Bool → Input → Cmd (Device Iter) Taken
  unfolding err_unlock woken
  waiting wait nonblock q d =
      if nonblock && q.connected && not (request_pending q)
      then err_unlock eagain (record d { iq = q })
      else woken (wait q).0 (record d { iq = (wait q).1 })

  -- `wait` is `wait_event_interruptible_exclusive_locked`: its result, and the queue behind it.
  unfoldable pub take_request :
      (wait : Input → Option Errno × Input) (nonblock : Bool) → Cmd (Device Iter) Taken
  unfolding waiting
  take_request wait nonblock d =
      if can_lock d.iq.waitq
      then waiting wait nonblock (record d.iq { waitq = locked_of d.iq.waitq }) d
      else oops

  -- `out_end`, for the request at the head of `io`, which the list below does not hold.
  unfoldable pub out_end : Ret → Req → Cmd (Device Iter) Ret
  out_end ret r d =
      let io = if r.flags private then r ∷ d.pq.io else d.pq.io in
      ok ret
        (request_end r (record d { pq = record d.pq { io = io; lock = unlocked_of d.pq.lock } }))

  -- Behind the copy; `reqsize` is the request's `len`.
  unfoldable pub copied : Option Errno → (reqsize : ℕ) → Req → Cmd (Device Iter) Ret
  unfolding out_end
  copied err reqsize r d = if not d.pq.connected then out_end (fail enodev) r d else elim err [
    | some e ↦ out_end (fail e) (record r { out_error = minus_eio }) d
    | none ↦
        if not (r.flags isreply)
        then out_end (done reqsize) r d
        else ok (done reqsize) (record d {
          pq = record d.pq {
            processing = d.pq.processing ++ (set_flag is_sent r ∷ []);
            lock = unlocked_of d.pq.lock;
          };
        })
  ]

  module _ (load : Page → (offset size : ℕ) → List ℕ)
      (fill : Cursor Iter → Option Errno × Cursor Iter) (header : Req → List ℕ) where
    -- The result of the copy; with the fuel given it does not run out.
    pub copy_end : Loop → Req → Cmd (Device Iter) Ret
    unfolding copied
    copy_end out_of_fuel r d = oops
    copy_end (finished err) r d =
        copied err r.in_len (clear_flag is_locked r) (record d { copy = copy_finish d.copy })

    pub copy_header : Run (Copy Iter) Loop → Req → Cmd (Device Iter) Ret
    unfolding copy_end
    copy_header oops r d = oops
    copy_header (ok l c) r d = copy_end l r (record d { copy = c })

    -- A request that fits: `list_add` under the lock, then the copy; `header r` are the bytes of
    -- `in->h`.
    unfoldable pub deliver : Req → Cmd (Device Iter) Ret
    unfolding copy_header
    deliver r d =
        if can_lock d.pq.lock
        then copy_header (copy_one load fill header_size (header r) header_size d.copy) r d
        else oops

    module _ (wait : Input → Option Errno × Input) (nonblock : Bool) (nbytes : ℕ) where
      -- Behind the first part; `restart` is the label.
      pub on_taken :
          (restart : Cmd (Device Iter) (Option Ret))
          → Run (Device Iter) Taken
          → Run (Device Iter) (Option Ret)
      unfolding deliver
      on_taken restart oops = oops
      on_taken restart (ok (gave_up e) d) = ok (some (fail e)) d
      on_taken restart (ok (took r) d) =
          if ltb nbytes r.in_len
          then restart (request_end (too_large r) d)
          else returned (deliver r d)

      -- `tuse_dev_do_read`; one unit of fuel for each pass from `restart` on.
      unfoldable pub do_read : ℕ → Cmd (Device Iter) (Option Ret)
      unfolding take_request on_taken
      do_read zero d = ok none d
      do_read (suc fuel) d = on_taken (do_read fuel) (take_request wait nonblock d)

-- `struct file`, as far as the device uses it: `private_data`, which is its `struct tuse_dev`.
pub record File (Iter : Type 0) : Type 0 where
  pub private_data : Option (Device Iter)
  pub nonblock : Bool

-- `tuse_dev_open`
unfoldable pub dev_open : {Iter : Type 0} → Cmd (File Iter) Ret
dev_open f = ok (done 0) (record f { private_data = none })

module _ {Iter : Type 0} (load : Page → (offset size : ℕ) → List ℕ)
    (fill : Cursor Iter → Option Errno × Cursor Iter) (header : Req → List ℕ)
    (wait : Input → Option Errno × Input) where
  -- With a device: `tuse_copy_init`, then `tuse_dev_do_read`.
  read_from :
      (fuel : ℕ) (is_iovec : Bool) (iter : Iter) (nbytes : ℕ)
      → Device Iter
      → Cmd (File Iter) (Option Ret)
  unfolding do_read
  read_from fuel is_iovec iter nbytes d f =
      if not is_iovec
      then ok (some (fail einval)) f
      else elim (do_read load fill header wait f.nonblock nbytes fuel
          (record d { copy = record d.copy { cursor = copy_init true iter } })) [
            | oops ↦ oops
            | ok ret d' ↦ ok ret (record f { private_data = some d' })
          ]

  -- `tuse_dev_read`, for an iterator over `nbytes` bytes.
  unfoldable pub dev_read :
      (fuel : ℕ) (is_iovec : Bool) (iter : Iter) (nbytes : ℕ) → Cmd (File Iter) (Option Ret)
  unfolding read_from
  dev_read fuel is_iovec iter nbytes f = elim f.private_data [
    | none ↦ ok (some (fail eperm)) f
    | some d ↦ read_from fuel is_iovec iter nbytes d f
  ]
