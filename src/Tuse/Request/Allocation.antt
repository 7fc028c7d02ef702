-- ===== src/Tuse/Request/Allocation.antt =====
-- Allocation of a request leaks nothing when it fails, and is undone by `tuse_request_free`.
use kernel_module_memo.Base.{ℕ, ◌≤◌, ◌≡◌, Option, none, some, ◌↔◌, suc}
use kernel_module_memo.Base.Family.{update}
use kernel_module_memo.Kernel.Run.{Ends}
use kernel_module_memo.Kernel.Heap.{Ptr, Heap, put, IsFresh, SameObjects}
use kernel_module_memo.Tuse.Request.{
  Req, Object, inline, array, request_init, request, entries, inline_pages, request_free,
  is_pending,
}

-- A fresh request: one reference, only FR_PENDING set, and its arrays inside it exactly for up to
-- `TUSE_REQ_INLINE_PAGES` pages.
pub record IsNew (npages : ℕ) (r : Req) : Type 0 where
  pub one_ref : r.count ≡ 1
  pub room : r.max_pages ≡ npages
  pub flags_pending : r.flags ≡ is_pending
  pub in_place : (r.pages ≡ inline) ↔ (npages ≤ inline_pages)

-- What an allocation leaves behind: on failure, the objects that were there before; else a new
-- request, and those objects again once it has been freed.
abbrev pub Allocates : ℕ → Heap Object → Option Ptr → Heap Object → Type 0
Allocates npages h none h' = SameObjects h h'
Allocates npages h (some p) h' =
    (r : Req) × (h'.cell p ≡ some (request r))
    × IsNew npages r
    × IsFresh h'
    × Ends (λ _ h''. SameObjects h h'') (request_free p h')

module _ (junk : Req) (npages : ℕ) (h : Heap Object) (fresh : IsFresh h) where
  abbrev base : Heap Object
  base = record { next = suc h.next; cell = update h.cell h.next (some (request junk)) }

  abbrev arrays : Heap Object
  arrays =
      let n = h.next in
      record {
        next = suc (suc (suc n));
        cell =
            update (update base.cell (suc n) (some (entries npages))) (suc (suc n))
              (some (entries npages));
      }

  abbrev large : Req
  large = request_init (array (some (suc h.next))) (array (some (suc (suc h.next)))) npages

  -- One array is granted, and `next` has moved past it.
  abbrev one_array : Heap Object
  one_array = record {
    next = suc (suc h.next);
    cell = update base.cell (suc h.next) (some (entries npages));
  }

  undone : Heap Object → Heap Object
  undone g = put (put g (suc h.next) none) h.next none
