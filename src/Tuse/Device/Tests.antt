-- ===== src/Tuse/Device/Tests.antt =====
-- The device's theorems at a concrete reader, with pages of 16 bytes and a queue of three requests.
use kernel_module_memo.Base.{
  ℕ, ◌+◌, ◌≡◌, refl, Bool, true, false, not, ◌||◌, Option, none, some, List, [], ◌∷◌, replicate,
  arith, if◌then◌else◌,
}
use kernel_module_memo.Kernel.Run.{eintr, Errno, Ends}
use kernel_module_memo.Tuse.Request.{Req, inline, isreply, Flag, request_init, is_pending}
use kernel_module_memo.Tuse.Copy.{Page, Cursor, Copy, copy_init, copy_one}
use kernel_module_memo.Tuse.Copy.Whole.{Fills, Stores, copy_one_all}
use kernel_module_memo.Tuse.State.{Input, Device, clear_flag, request_pending}
use kernel_module_memo.Tuse.Device.{deliver, do_read, returned}
use kernel_module_memo.Tuse.Device.Queues.{queue, Waits, refused, do_read_skips}
use kernel_module_memo.Tuse.Device.Delivery.{free_queue, Delivered, deliver_lem}

abbrev load : Page → (offset size : ℕ) → List ℕ
load pg offset size = []

abbrev fill : Cursor ℕ → Option Errno × Cursor ℕ
fill c = (none, record c { pg = some 7; len = 16; offset = 0 })

fills : Fills fill
fills c e = (omega arith, refl, refl)

abbrev header : Req → List ℕ
header r = replicate 40 1

abbrev wait : Input → Option Errno × Input
wait q = if not q.connected || request_pending q then (none, q) else (some eintr, q)

waits : Waits wait
waits q e = rw e refl

abbrev is_reply : Flag → Bool
is_reply isreply = true
is_reply _ = false

abbrev asks : ℕ → Req
asks len = record (request_init inline inline 0) {
  in_len = len;
  flags = λ f. is_reply f || is_pending f;
}

abbrev idle : Copy ℕ
idle = record {
  cursor = copy_init true 0;
  log = record {
    stored = [];
    taken = [];
    memcpys = [];
    buf_lens = [];
    dirtied = [];
    released = [];
  };
}

abbrev device : Device ℕ
device = record { iq = queue [] 0 0; pq = free_queue true [] [] 0; copy = idle; ended = [] }

deliver_lem_example :
    Ends
      (λ ret d'.
        (d'.pq.lock.stray ≡ 0 + 1) × Delivered (asks 48) (replicate 40 1) [] true [] [] ret d')
      (deliver load fill header (asks 48) device)
deliver_lem_example =
    deliver_lem load fill header device [] [] 0 true (asks 48) fills (refl, λ h. elim h [ ])

do_read_skips_example :
    do_read load fill header wait true 60 9
      (record device { iq = queue (asks 100 ∷ asks 70 ∷ asks 48 ∷ asks 90 ∷ []) 0 0 })
    ≡ returned (
        deliver load fill header (clear_flag is_pending (asks 48)) (record device {
          iq = queue (asks 90 ∷ []) 0 0;
          ended = refused (asks 100 ∷ asks 70 ∷ []);
        }))
do_read_skips_example =
    do_read_skips load fill header wait waits true 60 (asks 100 ∷ asks 70 ∷ []) (asks 48)
      (asks 90 ∷ []) 0 0 9 device (omega arith, (omega arith, tt)) (omega arith) (omega arith)

copy_one_all_example :
    Ends (Stores [] (replicate 40 1) 40) (copy_one load fill 40 (replicate 40 1) 40 idle)
copy_one_all_example =
    copy_one_all load fill fills 40 (replicate 40 1) 40 idle (omega arith) (refl, λ h. elim h [ ])
