-- ===== src/Mapped.antt =====
-- The devices whose page a user can map: old/vmm.c and old/mma.c, over slab objects and pages.
pub mod Vmm
pub mod Mma
pub mod Gread
pub mod Loading
pub mod References
pub mod Lifetime
pub mod Opening
pub mod Backed
pub mod Sessions
pub mod Transfer
mod Tests
use kernel_module_memo.Base.{
  ℕ, suc, ◌+◌, ◌-◌, Bool, true, false, Option, none, some, List, [], ◌∷◌, ◌++◌, replicate, length,
  take, drop, ltb, if◌then◌else◌, ◌==◌,
}
use kernel_module_memo.Kernel.Run.{Run, ok, oops, Cmd, pure, fault, ◌>>=◌, ◌>>◌}
use kernel_module_memo.Kernel.Heap.{Ptr, Heap, put, kmalloc, kfree}

abbrev pub page_size : ℕ
page_size = 4096

-- `struct mmap_info`; `reference` is used by old/mma.c only.
pub record Info : Type 0 where
  pub page_data : Option Ptr
  pub reference : ℕ

-- A page of memory with the references to it.
pub record Page : Type 0 where
  pub bytes : List ℕ
  pub refs : ℕ

-- The slab heap, the pages, and `filp->private_data` of one open file.
pub record World : Type 0 where
  pub infos : Heap Info
  pub pages : Heap Page
  pub private_data : Option Ptr

abbrev pub on_infos : {A : Type 0} → Cmd (Heap Info) A → Cmd World A
on_infos c w = elim (c w.infos) [ oops ↦ oops | ok a h ↦ ok a (record w { infos = h }) ]

abbrev pub on_pages : {A : Type 0} → Cmd (Heap Page) A → Cmd World A
on_pages c w = elim (c w.pages) [ oops ↦ oops | ok a h ↦ ok a (record w { pages = h }) ]

-- The object behind a pointer, whose use is a fault where there is none.
abbrev pub at : {O : Type 0} → Heap O → Option Ptr → Option O
at h none = none
at h (some p) = h.cell p

abbrev pub load : {O : Type 0} → Option O → Cmd World O
load none w = oops
load (some o) w = ok o w

-- `get_zeroed_page`
abbrev pub get_zeroed_page : Bool → Cmd World (Option Ptr)
get_zeroed_page granted =
    on_pages (kmalloc granted (record { bytes = replicate page_size 0; refs = 1 }))

-- `free_page` drops a reference, and does nothing for 0.
abbrev pub put_page : Option Page → Ptr → Cmd (Heap Page) (Unit {0})
put_page none p h = oops
put_page (some page) p h =
    if page.refs == 1
    then ok tt (put h p none)
    else ok tt (put h p (some (record page { refs = page.refs - 1 })))

abbrev pub free_page : Option Ptr → Cmd World (Unit {0})
free_page none w = ok tt w
free_page (some p) w = on_pages (put_page (w.pages.cell p) p) w

-- `info->data = page`
abbrev pub set_data : Option Ptr → Option Info → Option Ptr → Cmd World (Unit {0})
set_data (some p) (some info) page w =
    ok tt (record w { infos = put w.infos p (some (record info { page_data = page })) })
set_data _ _ page w = oops

-- `memcpy(info->data + offset, text, length)`, a fault past the end of the page.
abbrev pub memcpy : (offset : ℕ) (text : List ℕ) → Option Ptr → Option Page → Cmd World (Unit {0})
memcpy offset text (some p) (some page) w =
    if ltb (length page.bytes) (offset + length text)
    then oops
    else let bytes = take offset page.bytes ++ (text ++ drop (offset + length text) page.bytes) in
      ok tt (record w { pages = put w.pages p (some (record page { bytes = bytes })) })
memcpy offset text _ _ w = oops
