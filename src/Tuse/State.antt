-- ===== src/Tuse/State.antt =====
-- What a read of the device works on: the locks, queues and copy of `struct tuse_dev`
-- (old/tuse/tuse_i.h), and the flags of a request.
use kernel_module_memo.Base.{
  ℕ, ◌+◌, ◌-◌, ◌^◌, Bool, true, false, not, ◌&&◌, ◌||◌, List, [], ◌∷◌, if◌then◌else◌, ◌==◌,
}
use kernel_module_memo.Tuse.Request.{Flag, Req, locked, sent}
use kernel_module_memo.Tuse.Copy.{Copy}

-- A spin lock: whether this thread holds it, and how often it unlocked it without holding it.
pub record Lock : Type 0 where
  pub held : Bool
  pub stray : ℕ

-- Taking a lock that this thread holds already would spin for ever.
abbrev pub can_lock : Lock → Bool
can_lock l = not l.held

abbrev pub locked_of : Lock → Lock
locked_of l = record l { held = true }

abbrev pub unlocked_of : Lock → Lock
unlocked_of l = if l.held then record l { held = false } else record l { stray = l.stray + 1 }

-- The input queue (`struct tuse_iqueue`) and the processing queue (`struct tuse_pqueue`), with the
-- requests that `request_end` has been called for.
pub record Input : Type 0 where
  pub connected : Bool
  pub pending : List Req
  pub interrupts : ℕ
  pub waitq : Lock

pub record Processing : Type 0 where
  pub connected : Bool
  pub lock : Lock
  pub processing : List Req
  pub io : List Req

pub record Device (Iter : Type 0) : Type 0 where
  pub iq : Input
  pub pq : Processing
  pub copy : Copy Iter
  pub ended : List Req

-- `request_pending`
abbrev pub some_request : List Req → Bool
some_request [] = false
some_request (r ∷ rs) = true

abbrev pub request_pending : Input → Bool
request_pending q = some_request q.pending || not (q.interrupts == 0)

abbrev pub clear_flag : (Flag → Bool) → Req → Req
clear_flag is r = record r { flags = λ f. not (is f) && r.flags f }

abbrev pub set_flag : (Flag → Bool) → Req → Req
set_flag is r = record r { flags = λ f. is f || r.flags f }

abbrev pub is_locked : Flag → Bool
is_locked locked = true
is_locked _ = false

abbrev pub is_sent : Flag → Bool
is_sent sent = true
is_sent _ = false

-- `FUSE_SETXATTR`, and -EIO and -E2BIG as the bits of an `int32_t`.
abbrev pub fuse_setxattr : ℕ
fuse_setxattr = 4

abbrev pub minus_eio : ℕ
minus_eio = 2 ^ 32 - 5

abbrev pub minus_e2big : ℕ
minus_e2big = 2 ^ 32 - 7

-- `sizeof(struct tuse_in_header)`
abbrev pub header_size : ℕ
header_size = 40
