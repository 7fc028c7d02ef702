-- ===== src/Tuse/Readers.antt =====
-- `tuse_dev_do_read` of old/tuse/dev.c for any number of threads on one device, in steps of one lock
-- operation or one change of a list each. A change of `io` or `processing` is two steps, its beginning
-- and its end, since the code makes some of them without the lock of these lists: when two threads are
-- within such a change at once, the lists hold anything from then on. A statement that would fault,
-- such as taking a request off an empty queue, is no step. Requests are known by their addresses, and
-- the lists hold addresses.
pub mod Locks
pub mod Places
pub mod Order
pub mod Runs
pub mod Shared
pub mod Waiting
pub mod Progress
mod Tests
use kernel_module_memo.Base.{
  ℕ, ◌+◌, ◌-◌, ◌≤◌, ◌<◌, ◌≡◌, Bool, true, false, not, ◌&&◌, ◌||◌, Option, none, some, List, [], ◌∷◌,
  ◌++◌, ◌==◌, if◌then◌else◌,
}
use kernel_module_memo.Base.Family.{update}
use kernel_module_memo.Kernel.Run.{Errno}
use kernel_module_memo.Kernel.Heap.{Ptr}

-- The queues of `struct tuse_iqueue` and `struct tuse_pqueue` with their locks, and the requests that
-- `request_end`, which is empty, has been called for.
pub record Memory : Type 0 where
  pub iq_connected : Bool
  pub pending : List Ptr
  pub interrupts : ℕ
  pub waitq_lock : Bool
  pub pq_connected : Bool
  pub io : List Ptr
  pub processing : List Ptr
  pub tpq_lock : Bool
  -- How many threads are within a change of `io` or `processing`, and whether two ever were at once.
  pub changing : ℕ
  pub raced : Bool
  pub ended : List Ptr

-- What the code looks at in a request: its length, FR_ISREPLY and FR_PRIVATE.
pub record Request : Type 0 where
  pub len : ℕ
  pub isreply : Bool
  pub private : Bool

-- Where a thread is, with what its locals hold.
pub data Pc : Type 0 where
  idle : Pc
  restart : (nonblock : Bool) (nbytes : ℕ) → Pc  -- at the label
  checking : (nonblock : Bool) (nbytes : ℕ) → Pc  -- behind `spin_lock(&tiq->waitq.lock)`
  sleeping : (nonblock : Bool) (nbytes : ℕ) → Pc  -- in the wait, which has let go of the lock
  woken : (nonblock : Bool) (nbytes : ℕ) → Pc  -- behind the wait, which returned 0
  err_unlock : Pc  -- at the label
  taken : (nonblock : Bool) (nbytes : ℕ) (req : Ptr) → Pc  -- behind `list_del_init`
  sized : (nonblock : Bool) (nbytes : ℕ) (req : Ptr) → Pc  -- behind `spin_unlock(&tiq->waitq.lock)`
  adding : (req : Ptr) → Pc  -- behind `spin_lock(&tpq->lock)`
  inserting : (req : Ptr) → Pc  -- in `list_add`
  added : (req : Ptr) → Pc  -- behind `list_add`
  copying : (req : Ptr) → Pc  -- behind `spin_unlock(&tpq->lock)`
  copied : (err : Option Errno) (req : Ptr) → Pc  -- behind `tuse_copy_finish`
  moving : (req : Ptr) → Pc  -- in `list_move_tail`
  moved : Pc  -- behind `list_move_tail`
  out_end : (req : Ptr) → Pc  -- at the label
  removing : (req : Ptr) → Pc  -- in `list_del_init` there
  left : (req : Ptr) → Pc  -- behind `list_del_init` there
  ending : (req : Ptr) → Pc  -- behind `spin_unlock` there

abbrev pub some_pending : List Ptr → Bool
some_pending [] = false
some_pending (p ∷ ps) = true

-- `request_pending`
abbrev pub request_pending : Memory → Bool
request_pending m = some_pending m.pending || not (m.interrupts == 0)

-- `list_del`
abbrev pub list_del : Ptr → List Ptr → List Ptr
list_del p [] = []
list_del p (q ∷ qs) = if q == p then qs else q ∷ list_del p qs

-- A thread begins to change `io` or `processing`, and it ends that.
abbrev pub begins : Memory → Memory
begins m = record m { changing = m.changing + 1; raced = m.raced || not (m.changing == 0) }

abbrev pub ends : Memory → Memory
ends m = record m { changing = m.changing - 1 }

-- What the readers wait for.
abbrev pub condition : Memory → Bool
condition m = not m.iq_connected || request_pending m

-- What is wrong, if anything, behind the copy.
abbrev pub fails : Memory → Option Errno → Request → Bool
fails m (some e) r = true
fails m none r = not m.pq_connected || not r.isreply

-- The device and its readers, with the requests that have been queued, in their order.
pub record System : Type 0 where
  pub mem : Memory
  pub pc : ℕ → Pc
  pub arrived : List Ptr

-- A device that nothing has been queued on and nobody reads.
abbrev pub quiet : System
quiet = record {
  mem = record {
    iq_connected = true;
    pending = [];
    interrupts = 0;
    waitq_lock = false;
    pq_connected = true;
    io = [];
    processing = [];
    tpq_lock = false;
    changing = 0;
    raced = false;
    ended = [];
  };
  pc = λ _. idle;
  arrived = [];
}

module _ (requests : Ptr → Request) where
  -- One step of a thread.
  pub data Move (m : Memory) : Pc → Memory → Pc → Type 0 where
    begin : (b : Bool) (n : ℕ) → Move m idle m (restart b n)
    lock_waitq :
        {b : Bool} {n : ℕ}
        → m.waitq_lock ≡ false
        → Move m (restart b n) (record m { waitq_lock = true }) (checking b n)
    would_block :
        {b : Bool} {n : ℕ}
        → b && m.iq_connected && not (request_pending m) ≡ true
        → Move m (checking b n) m err_unlock
    no_wait : {b : Bool} {n : ℕ} → condition m ≡ true → Move m (checking b n) m (woken b n)
    sleep :
        {b : Bool} {n : ℕ}
        → b && m.iq_connected && not (request_pending m) ≡ false
        → condition m ≡ false
        → Move m (checking b n) (record m { waitq_lock = false }) (sleeping b n)
    wake :
        {b : Bool} {n : ℕ}
        → m.waitq_lock ≡ false
        → condition m ≡ true
        → Move m (sleeping b n) (record m { waitq_lock = true }) (woken b n)
    signal :
        {b : Bool} {n : ℕ}
        → m.waitq_lock ≡ false
        → Move m (sleeping b n) (record m { waitq_lock = true }) err_unlock
    no_device : {b : Bool} {n : ℕ} → m.iq_connected ≡ false → Move m (woken b n) m err_unlock
    give_up : Move m err_unlock (record m { waitq_lock = false }) idle
    list_del_pending :
        {b : Bool} {n : ℕ} {p : Ptr} {ps : List Ptr}
        → m.iq_connected ≡ true
        → m.pending ≡ p ∷ ps
        → Move m (woken b n) (record m { pending = ps }) (taken b n p)
    unlock_waitq :
        {b : Bool} {n : ℕ} {p : Ptr}
        → Move m (taken b n p) (record m { waitq_lock = false }) (sized b n p)
    too_large :
        {b : Bool} {n : ℕ} {p : Ptr}
        → n < (requests p).len
        → Move m (sized b n p) (record m { ended = m.ended ++ (p ∷ []) }) (restart b n)
    lock_tpq :
        {b : Bool} {n : ℕ} {p : Ptr}
        → (requests p).len ≤ n
        → m.tpq_lock ≡ false
        → Move m (sized b n p) (record m { tpq_lock = true }) (adding p)
    list_add : {p : Ptr} → Move m (adding p) (begins m) (inserting p)
    list_added : {p : Ptr} → Move m (inserting p) (ends (record m { io = p ∷ m.io })) (added p)
    unlock_tpq : {p : Ptr} → Move m (added p) (record m { tpq_lock = false }) (copying p)
    copy : {p : Ptr} (err : Option Errno) → Move m (copying p) m (copied err p)
    goto_out_end :
        {p : Ptr} {err : Option Errno}
        → fails m err (requests p) ≡ true
        → Move m (copied err p) m (out_end p)
    list_move_tail :
        {p : Ptr} {err : Option Errno}
        → fails m err (requests p) ≡ false
        → Move m (copied err p) (begins m) (moving p)
    list_moved :
        {p : Ptr}
        → Move m
            (moving p)
            (ends (record m { io = list_del p m.io; processing = m.processing ++ (p ∷ []) }))
            moved
    unlock_moved : Move m moved (record m { tpq_lock = false }) idle
    stays : {p : Ptr} → (requests p).private ≡ true → Move m (out_end p) m (left p)
    list_del_out :
        {p : Ptr} → (requests p).private ≡ false → Move m (out_end p) (begins m) (removing p)
    list_deleted :
        {p : Ptr} → Move m (removing p) (ends (record m { io = list_del p m.io })) (left p)
    unlock_out : {p : Ptr} → Move m (left p) (record m { tpq_lock = false }) (ending p)
    request_end : {p : Ptr} → Move m (ending p) (record m { ended = m.ended ++ (p ∷ []) }) idle

  -- Thread `i`, of threads 0 to `n - 1`, makes one move; or another thread queues a request, connects or
  -- disconnects the input queue or queues interrupts, under the lock of that queue, or connects or
  -- disconnects the processing queue; or two threads have changed the lists of that queue at once,
  -- which may then hold anything.
  pub data Step (n : ℕ) (s : System) : System → Type 0 where
    pick :
        (i : ℕ)
        → i < n
        → {m : Memory} {there : Pc} → Move s.mem (s.pc i) m there
        → Step n s (record s { mem = m; pc = update s.pc i there })
    arrive :
        (p : Ptr)
        → s.mem.waitq_lock ≡ false
        → Step n s (record s {
          mem = record s.mem { pending = s.mem.pending ++ (p ∷ []) };
          arrived = s.arrived ++ (p ∷ []);
        })
    connect_iq :
        (connected : Bool) (interrupts : ℕ)
        → s.mem.waitq_lock ≡ false
        → Step n s
            (record s { mem = record s.mem { iq_connected = connected; interrupts = interrupts } })
    connect_pq :
        (connected : Bool) → Step n s (record s { mem = record s.mem { pq_connected = connected } })
    corrupt :
        (io processing : List Ptr)
        → s.mem.raced ≡ true
        → Step n s (record s { mem = record s.mem { io = io; processing = processing } })

  pub data Reach (n : ℕ) : System → Type 0 where
    start : Reach n quiet
    later : {s t : System} → Reach n s → Step n s t → Reach n t
