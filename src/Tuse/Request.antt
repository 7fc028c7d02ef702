-- ===== src/Tuse/Request.antt =====
-- Requests: old/tuse/tuse_i.h and the allocation in old/tuse/dev.c.
pub mod Allocation
use kernel_module_memo.Base.{ℕ, ◌+◌, ◌≡◌, Bool, true, false, Option, none, some, leb, if◌then◌else◌}
use kernel_module_memo.Kernel.Run.{Run, ok, oops, Cmd, pure, ◌>>=◌, ◌>>◌}
use kernel_module_memo.Kernel.Heap.{Ptr, Heap, put, kmalloc, kfree, kfree_at}

-- `enum fuse_req_flag`
pub data Flag : Type 0 where
  isreply force background waiting aborted interrupted locked pending sent finished private : Flag

-- `flags`, as the set of the bits that are set.
abbrev pub Flags : Type 0
Flags = Flag → Bool

abbrev pub is_pending : Flag → Bool
is_pending pending = true
is_pending _ = false

abbrev pub is_background : Flag → Bool
is_background background = true
is_background _ = false

-- Where `pages` and `page_descs` point to: into the request, or to an array of their own.
pub data Vector : Type 0 where
  inline : Vector
  array : (p : Option Ptr) → Vector

pub record Req : Type 0 where
  pub in_len : ℕ
  pub opcode : ℕ
  pub out_error : ℕ
  pub pages : Vector
  pub page_descs : Vector
  pub count : ℕ
  pub max_pages : ℕ
  pub flags : Flags

-- What the slab heap holds: a request, or an array with one entry for each page.
pub data Object : Type 0 where
  request : Req → Object
  entries : (npages : ℕ) → Object

-- `tuse_request_init`: all fields are zeroed, and these are set.
abbrev pub request_init : (pages page_descs : Vector) (npages : ℕ) → Req
request_init pages page_descs npages = record {
  in_len = 0;
  opcode = 0;
  out_error = 0;
  pages = pages;
  page_descs = page_descs;
  count = 1;
  max_pages = npages;
  flags = is_pending;
}

abbrev pub inline_pages : ℕ
inline_pages = 1

-- Which of the three allocations the kernel grants.
pub record Grants : Type 0 where
  pub req : Bool
  pub pages : Bool
  pub page_descs : Bool

-- `tuse_request_init` on a request that stands at `p`.
init_at : Ptr → Vector → Vector → ℕ → Cmd (Heap Object) (Option Ptr)
init_at p pages page_descs npages h =
    ok (some p) (put h p (some (request (request_init pages page_descs npages))))

-- Behind the two `kmalloc`s: `if (!pages || !page_descs)`, with its clean-up.
arrays_or_fail : Ptr → Option Ptr → Option Ptr → ℕ → Cmd (Heap Object) (Option Ptr)
unfolding init_at
arrays_or_fail p (some a) (some b) npages = init_at p (array (some a)) (array (some b)) npages
arrays_or_fail p a b npages = do kfree a; kfree b; kfree (some p); pure none

allocated : Grants → ℕ → Option Ptr → Cmd (Heap Object) (Option Ptr)
unfolding arrays_or_fail init_at
allocated g npages none = pure none
allocated g npages (some p) = if leb npages inline_pages then init_at p inline inline npages else do
  a ← kmalloc g.pages (entries npages)
  b ← kmalloc g.page_descs (entries npages)
  arrays_or_fail p a b npages

-- `__tuse_request_alloc`. The request's bytes are unset up to `tuse_request_init`.
unfoldable pub request_alloc : Req → Grants → ℕ → Cmd (Heap Object) (Option Ptr)
unfolding allocated
request_alloc junk g npages = do p ← kmalloc g.req (request junk); allocated g npages p

free_vector : Vector → Cmd (Heap Object) (Unit {0})
free_vector inline = pure tt
free_vector (array p) = kfree p

free_arrays : Req → Cmd (Heap Object) (Unit {0})
unfolding free_vector
free_arrays r = elim r.pages [ inline ↦ pure tt | array p ↦ do kfree p; free_vector r.page_descs ]

-- The request at `p`; a fault where none stands.
free_object : Option Object → Ptr → Cmd (Heap Object) (Unit {0})
unfolding free_arrays
free_object none p h = oops
free_object (some (entries n)) p h = oops
free_object (some (request r)) p h = (free_arrays r >> kfree (some p)) h

-- `tuse_request_free`
unfoldable pub request_free : Ptr → Cmd (Heap Object) (Unit {0})
unfolding free_object
request_free p h = free_object (h.cell p) p h
