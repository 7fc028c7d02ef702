-- ===== src/Tuse/Device/Delivery.antt =====
-- The delivery of one request: its result, the queues, the bytes copied, and the lock.
use kernel_module_memo.Base.{
  ℕ, ◌+◌, ◌≡◌, refl, ap, ◌∙◌, Bool, true, false, Option, none, some, Bool-cases, List, [], ◌∷◌,
  ◌++◌, take, arith, ◌⊎◌, inl, inr,
}
use kernel_module_memo.Kernel.Run.{Ret, done, fail, enodev, Errno, Run, ok, oops, Ends}
use kernel_module_memo.Tuse.Request.{Req, isreply}
use kernel_module_memo.Tuse.Copy.{Page, Cursor, Copy, Loop, out_of_fuel, finished, copy_finish}
use kernel_module_memo.Tuse.Copy.Whole.{Fills, IsReady, Stores, copy_one_all}
use kernel_module_memo.Tuse.State.{
  Processing, Device, clear_flag, set_flag, is_locked, is_sent, header_size,
}
use kernel_module_memo.Tuse.Device.{copied, copy_end, copy_header, deliver, out_end}

-- A processing queue whose lock this thread does not hold, and has misused `stray` times.
abbrev pub free_queue : Bool → List Req → List Req → ℕ → Processing
free_queue connected processing io stray = record {
  connected = connected;
  lock = record { held = false; stray = stray };
  processing = processing;
  io = io;
}

-- A request that has been handed over: to wait for its reply, or, if it has none, to `request_end`.
abbrev pub HandedOver : {Iter : Type 0} → Req → List Req → List Req → Device Iter → Type 0
HandedOver r processing ended d =
    ((r.flags isreply ≡ true)
      × (d.pq.processing ≡ processing ++ (set_flag is_sent r ∷ []))
      × (d.ended ≡ ended))
    ⊎ ((r.flags isreply ≡ false) × (d.pq.processing ≡ processing) × (d.ended ≡ ended ++ (r ∷ [])))

-- What comes of the delivery of `r`, whose header has the bytes `val`.
abbrev pub Delivered :
    {Iter : Type 0}
    → Req
    → List ℕ
    → List ℕ
    → Bool
    → List Req
    → List Req
    → Ret
    → Device Iter
    → Type 0
Delivered r val stored connected processing ended ret d =
    ((connected ≡ true)
      × (ret ≡ done r.in_len)
      × (d.copy.log.stored ≡ stored ++ take header_size val)
      × HandedOver (clear_flag is_locked r) processing ended d)
    ⊎ ((e : Errno) × (ret ≡ fail e) × (d.pq.processing ≡ processing))

finish-stored : {Iter : Type 0} → (s : Copy Iter) → (copy_finish s).log.stored ≡ s.log.stored
unfolding copy_finish
finish-stored s = ground arith

module _ {Iter : Type 0} (load : Page → (offset size : ℕ) → List ℕ)
    (fill : Cursor Iter → Option Errno × Cursor Iter) (header : Req → List ℕ) (d : Device Iter)
    (processing io : List Req) (k : ℕ) where
  abbrev at : Bool → Copy Iter → Device Iter
  at connected c = record d { pq = free_queue connected processing io k; copy = c }

  abbrev After : Req → List ℕ → List ℕ → Bool → Ret → Device Iter → Type 0
  After r val stored connected ret d' =
      (d'.pq.lock.stray ≡ k + 1) × Delivered r val stored connected processing d.ended ret d'

  by_reply :
      (r : Req) (val stored : List ℕ) (c : Copy Iter)
      → c.log.stored ≡ stored ++ take header_size val
      → Ends
          (After r val stored true)
          (copied none r.in_len (clear_flag is_locked r) (at true (copy_finish c)))
  unfolding copied out_end
  by_reply r val stored c h = elim (Bool-cases (r.flags isreply)) [
    | inl e ↦ rw e (refl, inl (refl, refl, finish-stored c ∙ h, inl (e, refl, refl)))
    | inr e ↦ rw e (refl, inl (refl, refl, finish-stored c ∙ h, inr (e, refl, refl)))
  ]

  by_end :
      (connected : Bool) (r : Req) (val stored : List ℕ) (c : Copy Iter) (l : Loop)
      → Stores stored val header_size l c
      → Ends (After r val stored connected) (copy_end load fill header l r (at connected c))
  unfolding copy_end copied out_end
  by_end connected r val stored c out_of_fuel (n, h, inl (e, f)) = cc
  by_end connected r val stored c out_of_fuel (n, h, inr (x, e, f)) = cc
  by_end false r val stored c (finished err) s = (refl, inr (enodev, refl, refl))
  by_end true r val stored c (finished (some e)) s = (refl, inr (e, refl, refl))
  by_end true r val stored c (finished none) (n, h, inr (x, e, f)) = cc
  by_end true r val stored c (finished none) (n, h, inl (e, f)) =
      by_reply r val stored c (h ∙ ap (λ m. stored ++ take m val) f)

  by_copy :
      (connected : Bool) (r : Req) (val stored : List ℕ) (c : Copy Iter)
      (copy : Run (Copy Iter) Loop)
      → Ends (Stores stored val header_size) copy
      → Ends (After r val stored connected) (copy_header load fill header copy r (at connected c))
  unfolding copy_header
  by_copy connected r val stored c oops h = h
  by_copy connected r val stored c (ok l c') h = by_end connected r val stored c' l h

  -- If `tuse_copy_fill` fails or gives a page with room, the cursor is for writing and has a page
  -- wherever it has room, and the lock of the processing queue is free,
  -- the delivery of a request ends without a fault, and on every path it has unlocked that lock once
  -- without holding it. It returns the request's length only on a connected queue, when all bytes of
  -- the header have been copied; then the request waits for its reply with FR_SENT set, or has been
  -- ended if it has none. Else it returns an error, and no request waits that did not before.
  pub deliver_lem :
      (connected : Bool) (r : Req)
      → Fills fill
      → IsReady d.copy.cursor
      → Ends
          (λ ret d'.
            (d'.pq.lock.stray ≡ k + 1)
            × Delivered r (header r) d.copy.log.stored connected processing d.ended ret d')
          (deliver load fill header r (record d { pq = free_queue connected processing io k }))
  unfolding deliver
  deliver_lem connected r fills ready =
      by_copy connected r (header r) d.copy.log.stored d.copy _
        (copy_one_all load fill fills header_size (header r) header_size d.copy (omega arith) ready)
