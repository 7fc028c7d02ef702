-- ===== src/Mapped/Vmm.antt =====
-- The handlers of old/vmm.c.
use kernel_module_memo.Base.{
  ℕ, ◌+◌, Bool, Option, none, some, List, [], ◌∷◌, length, min, ltb, if◌then◌else◌, ◌==◌,
}
use kernel_module_memo.Kernel.Run.{Ret, done, fail, efault, Run, ok, oops, Cmd, ◌>>=◌, ◌>>◌}
use kernel_module_memo.Kernel.Heap.{Ptr, put, kmalloc, kfree}
use kernel_module_memo.Kernel.Uaccess.{Uaccess}
use kernel_module_memo.Mapped.{
  Info, Page, World, on_infos, at, load, get_zeroed_page, free_page, set_data, memcpy,
}

abbrev pub buffer_size : ℕ
buffer_size = 4

-- "asdf", and zeros behind it.
abbrev pub asdf : List ℕ
asdf = b'a' ∷ b's' ∷ b'd' ∷ b'f' ∷ []

-- `open`; `junk` is in the object that `kmalloc` gives.
unfoldable pub open_file : (info_granted page_granted : Bool) → Info → Cmd World Ret
open_file info_granted page_granted junk = on_infos (kmalloc info_granted junk) >>= λ info.
    (get_zeroed_page page_granted >>= λ page.
    (λ w. set_data info (at w.infos info) page w)
    >> (λ w. memcpy 0 asdf page (at w.pages page) w)
    >> (λ w. ok (done 0) (record w { private_data = info })))

-- `release`
unfoldable pub release : Cmd World Ret
release w =
    (load (at w.infos w.private_data) >>= λ info.
    free_page info.page_data
    >> on_infos (kfree w.private_data)
    >> (λ v. ok (done 0) (record v { private_data = none })))
      w

-- `info->data` of the open file.
unfoldable pub data_of : World → Option Ptr
data_of w = elim (at w.infos w.private_data) [ none ↦ none | some info ↦ info.page_data ]

-- `vm_fault`: the page that is given to the fault, if any.
unfoldable pub vm_fault : Option Info → Cmd World (Option Ptr)
vm_fault none w = oops
vm_fault (some info) w = elim info.page_data [
  | none ↦ ok none w
  | some p ↦
      (load (w.pages.cell p) >>= λ page. λ v.
          ok (some p)
            (record v { pages = put v.pages p (some (record page { refs = page.refs + 1 })) }))
        w
]

-- `mmap`: what it leaves in `vma->vm_private_data`.
abbrev pub mmap : World → Option Ptr
mmap w = w.private_data

module _ (u : Uaccess) where
  open u use {User, copy_from_user, copy_to_user}

  -- `read` and `write` on the bytes of the page, where a copy past its end is a fault.
  unfoldable pub read_page : User → ℕ → Page → Run (Unit {0}) (Ret × User)
  read_page buf len page =
      let ret = min len buffer_size in
      let copied = copy_to_user buf page.bytes ret in
      if ltb (length page.bytes) ret
      then oops
      else if copied.1 == 0
      then ok (done ret, copied.0) tt
      else ok (fail efault, copied.0) tt

  unfoldable pub write_page : User → ℕ → Cmd Page Ret
  write_page buf len page =
      let n = min len buffer_size in
      let copied = copy_from_user page.bytes buf n in
      if ltb (length page.bytes) n
      then oops
      else ok (if copied.1 == 0 then done len else fail efault) (record page { bytes = copied.0 })

  -- Lifts an access to the page of the open file.
  abbrev on_page : {A : Type 0} → (Page → Run Page A) → Cmd World A
  on_page c w = elim (data_of w) [
    | none ↦ oops
    | some p ↦ elim (w.pages.cell p) [
      | none ↦ oops
      | some page ↦ elim (c page) [
        | oops ↦ oops
        | ok a page' ↦ ok a (record w { pages = put w.pages p (some page') })
      ]
    ]
  ]

  -- `read` and `write` of an open file.
  unfoldable pub read : User → ℕ → Cmd World (Ret × User)
  read buf len =
      on_page (λ page. elim (read_page buf len page) [ oops ↦ oops | ok a _ ↦ ok a page ])

  unfoldable pub write : User → ℕ → Cmd World Ret
  write buf len = on_page (write_page buf len)
