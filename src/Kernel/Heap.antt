-- ===== src/Kernel/Heap.antt =====
-- The slab heap: objects at addresses, an allocation that may fail, and a free that may fault.
use kernel_module_memo.Base.{ℕ, suc, ◌≤◌, ◌≡◌, Bool, true, false, Option, none, some}
use kernel_module_memo.Base.Family.{update}
use kernel_module_memo.Kernel.Run.{ok, oops, Cmd}

abbrev pub Ptr : Type 0
Ptr = ℕ

-- `cell p` is the object at `p`; no object lies at `next` or above.
pub record Heap (O : Type 0) : Type 0 where
  pub next : Ptr
  pub cell : Ptr → Option O

abbrev pub put : {O : Type 0} → Heap O → Ptr → Option O → Heap O
put h p c = record h { cell = update h.cell p c }

-- `kmalloc`, which succeeds if the kernel grants it; `none` is NULL.
abbrev pub kmalloc : {O : Type 0} → Bool → O → Cmd (Heap O) (Option Ptr)
kmalloc true o h =
    ok (some h.next) (record { next = suc h.next; cell = update h.cell h.next (some o) })
kmalloc false o h = ok none h

-- `kfree`: nothing at NULL, a fault where no object lies.
abbrev pub kfree_at : {O : Type 0} → Option O → Ptr → Cmd (Heap O) (Unit {0})
kfree_at none p h = oops
kfree_at (some o) p h = ok tt (put h p none)

abbrev pub kfree : {O : Type 0} → Option Ptr → Cmd (Heap O) (Unit {0})
kfree none h = ok tt h
kfree (some p) h = kfree_at (h.cell p) p h

-- No address is handed out twice.
abbrev pub IsFresh : {O : Type 0} → Heap O → Type 0
IsFresh h = (p : Ptr) → h.next ≤ p → h.cell p ≡ none

-- The same objects are live: nothing has leaked, and nothing else has been freed.
abbrev pub SameObjects : {O : Type 0} → Heap O → Heap O → Type 0
SameObjects h h' = (p : Ptr) → h'.cell p ≡ h.cell p
