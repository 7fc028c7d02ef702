-- ===== src/Tuse/Conn.antt =====
-- Connections and devices, with their reference counts: old/tuse/inode.c.
pub mod References
use kernel_module_memo.Base.{
  ℕ, zero, suc, ◌+◌, ◌-◌, Bool, true, false, Option, none, some, if◌then◌else◌, ◌==◌,
}
use kernel_module_memo.Kernel.Run.{Ret, done, fail, Run, ok, oops, Cmd, pure, fault, ◌>>=◌, ◌>>◌}
use kernel_module_memo.Kernel.Heap.{Ptr, Heap}
use kernel_module_memo.Tuse.Request.{Object, request_free}

-- `struct tuse_iqueue`, as far as `tuse_iqueue_init` goes.
pub record Iqueue : Type 0 where
  pub connected : Bool
  pub pending : ℕ
  pub interrupts : ℕ
  pub nlookup : ℕ

-- `struct tuse_conn`
pub record Conn : Type 0 where
  pub count : ℕ
  pub dev_count : ℕ
  pub iq : Iqueue
  pub destroy_req : Option Ptr
  pub released : ℕ  -- how often `release` has been called

-- `struct tuse_dev`: whether `entry` is linked into a list.
pub record Dev : Type 0 where
  pub linked : Bool

-- What a mount works on: the slab heap of requests, the connection and the device once they are
-- allocated, and how many references to open files and to dentries are held.
pub record World : Type 0 where
  pub slab : Heap Object
  pub conn : Option Conn
  pub dev : Option Dev
  pub files : ℕ
  pub dentries : ℕ

-- `tuse_iqueue_init`
abbrev pub iqueue_init : Iqueue
iqueue_init = record { connected = true; pending = 0; interrupts = 0; nlookup = 0 }

-- `tuse_conn_init`
abbrev pub conn_init : Conn
conn_init = record { count = 1; dev_count = 1; iq = iqueue_init; destroy_req = none; released = 0 }

-- A command on the slab heap alone.
abbrev pub on_slab : {A : Type 0} → Cmd (Heap Object) A → Cmd World A
on_slab c w = elim (c w.slab) [ oops ↦ oops | ok a h ↦ ok a (record w { slab = h }) ]

-- `tuse_conn_get`
abbrev pub conn_get : Conn → Conn
conn_get c = record c { count = c.count + 1 }

-- `tuse_dev_alloc`; the result says whether it returned a device. Its `entry` is zeroed.
dev_alloc_of : Option Conn → Bool → Cmd World Bool
dev_alloc_of none granted w = oops
dev_alloc_of (some c) false w = ok false w
dev_alloc_of (some c) true w =
    ok true (record w { conn = some (conn_get c); dev = some (record { linked = false }) })

unfoldable pub dev_alloc : Bool → Cmd World Bool
unfolding dev_alloc_of
dev_alloc granted w = dev_alloc_of w.conn granted w

free_destroy_req : Option Ptr → Cmd World (Unit {0})
free_destroy_req none = pure tt
free_destroy_req (some p) = on_slab (request_free p)

-- `tc->release(tc)`: `tuse_free_conn`, which does nothing.
release : Conn → Cmd World (Unit {0})
release c w = ok tt (record w { conn = some (record c { count = 0; released = c.released + 1 }) })

-- `tuse_conn_put`; to drop a reference that is not there is a fault.
conn_put_of : Option Conn → Cmd World (Unit {0})
unfolding free_destroy_req release
conn_put_of none w = oops
conn_put_of (some c) w =
    if c.count == 0
    then oops
    else if c.count == 1
    then (free_destroy_req c.destroy_req >> release c) w
    else ok tt (record w { conn = some (record c { count = c.count - 1 }) })

unfoldable pub conn_put : Cmd World (Unit {0})
unfolding conn_put_of
conn_put w = conn_put_of w.conn w

-- `tuse_dev_free`: `list_del` of an entry that is in no list is a fault.
dev_free_of : Option Dev → Cmd World (Unit {0})
unfolding conn_put
dev_free_of none w = oops
dev_free_of (some d) w =
    if d.linked then (conn_put >> λ v. ok tt (record v { dev = none })) w else oops

unfoldable pub dev_free : Cmd World (Unit {0})
unfolding dev_free_of
dev_free w = dev_free_of w.dev w
