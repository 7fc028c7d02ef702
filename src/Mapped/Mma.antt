-- ===== src/Mapped/Mma.antt =====
-- The handlers of old/mma.c.
use kernel_module_memo.Base.{
  ℕ, suc, ◌+◌, ◌-◌, ◌^◌, ◌%◌, Bool, Option, none, some, List, [], ◌∷◌, if◌then◌else◌, ◌==◌,
}
use kernel_module_memo.Kernel.Run.{Ret, done, ok, oops, Cmd, pure, ◌>>=◌, ◌>>◌}
use kernel_module_memo.Kernel.Heap.{Ptr, put, kmalloc, kfree}
use kernel_module_memo.Kernel.Uaccess.{Uaccess}
use kernel_module_memo.Mapped.Vmm.{vm_fault}
use kernel_module_memo.Mapped.{
  Info, World, on_infos, at, load, get_zeroed_page, free_page, set_data, memcpy,
}

-- What the kernel grants: the first `kmalloc` of an info, the second, and the page.
pub record Grants : Type 0 where
  pub first : Bool
  pub second : Bool
  pub page : Bool

-- "hello from kernel this is file: "
abbrev pub greeting : List ℕ
greeting =
    b'h' ∷ b'e' ∷ b'l' ∷ b'l' ∷ b'o' ∷ b' ' ∷ b'f' ∷ b'r' ∷ b'o' ∷ b'm' ∷ b' ' ∷ b'k' ∷ b'e' ∷ b'r'
    ∷ b'n' ∷ b'e' ∷ b'l' ∷ b' ' ∷ b't' ∷ b'h' ∷ b'i' ∷ b's' ∷ b' ' ∷ b'i' ∷ b's' ∷ b' ' ∷ b'f'
    ∷ b'i' ∷ b'l' ∷ b'e' ∷ b':' ∷ b' ' ∷ []

-- The branch `if (!fp->private_data)`, for a file of this name.
unfoldable pub new_info : Grants → Info → List ℕ → Cmd World (Unit {0})
new_info g junk name = on_infos (kmalloc g.second junk) >>= λ info.
    (get_zeroed_page g.page >>= λ page.
    (λ w. set_data info (at w.infos info) page w)
    >> (λ w. memcpy 0 greeting page (at w.pages page) w)
    >> (λ w. memcpy 32 name page (at w.pages page) w)
    >> (λ w. ok tt (record w { private_data = info })))

unfoldable pub unless_open : Grants → Info → List ℕ → Option Ptr → Cmd World (Unit {0})
unfolding new_info
unless_open g junk name none = new_info g junk name
unless_open g junk name (some info) = pure tt

-- The start of `mmapfop_open` and of `t_read`, which ask for an info that they do not use.
unfoldable pub prepare : Grants → Info → List ℕ → Cmd World (Unit {0})
unfolding unless_open
prepare g junk name =
    on_infos (kmalloc g.first junk) >>= λ unused. λ w. unless_open g junk name w.private_data w

-- `mmapfop_open`
unfoldable pub mmapfop_open : Grants → Info → List ℕ → Cmd World Ret
unfolding prepare
mmapfop_open g junk name = prepare g junk name >> pure (done 0)

-- `mmapfop_close`
unfoldable pub mmapfop_close : Cmd World Ret
mmapfop_close w =
    (load (at w.infos w.private_data) >>= λ info.
    free_page info.page_data
    >> on_infos (kfree w.private_data)
    >> (λ v. ok (done 0) (record v { private_data = none })))
      w

-- `mmap_open` and `mmap_close`, on the `int` of the object.
unfoldable pub mmap_open : Info → Info
mmap_open info = record info { reference = (info.reference + 1) % 2 ^ 32 }

unfoldable pub mmap_close : Info → Info
mmap_close info = record info { reference = (info.reference + 2 ^ 32 - 1) % 2 ^ 32 }

-- `mmap_fault`, which is `vm_fault` of old/vmm.c.
abbrev pub mmap_fault : Option Info → Cmd World (Option Ptr)
mmap_fault = vm_fault

-- `my_mmap`: what it leaves in `vma->vm_private_data`.
abbrev pub count_mapping : Option Ptr → Option Info → Cmd World (Option Ptr)
count_mapping (some i) (some info) w =
    ok (some i) (record w { infos = put w.infos i (some (mmap_open info)) })
count_mapping _ _ w = oops

unfoldable pub my_mmap : Cmd World (Option Ptr)
my_mmap w = count_mapping w.private_data (at w.infos w.private_data) w

-- The end of a mapping of the info at `i`: `mmap_close`.
abbrev pub end_mapping : Ptr → Option Info → Cmd World (Unit {0})
end_mapping i none w = oops
end_mapping i (some info) w = ok tt (record w { infos = put w.infos i (some (mmap_close info)) })

unfoldable pub close_mapping : Option Ptr → Cmd World (Unit {0})
close_mapping none w = oops
close_mapping (some i) w = end_mapping i (w.infos.cell i) w

-- `strlen`, a fault if no byte of the page is 0.
unfoldable pub strlen : List ℕ → Option ℕ
strlen [] = none
strlen (c ∷ cs) =
    let rest = strlen cs in
    if c == 0 then some 0 else elim rest [ none ↦ none | some n ↦ some (suc n) ]

module _ (u : Uaccess) where
  open u use {User, copy_to_user}

  unfoldable pub copy_string : User → List ℕ → Option ℕ → Cmd World (Ret × User)
  copy_string buf bytes none w = oops
  copy_string buf bytes (some len) w = ok (done len, (copy_to_user buf bytes len).0) w

  -- `t_read`, whose `len` is overwritten, and whose copy is not checked.
  unfoldable pub t_read : Grants → Info → List ℕ → User → (len : ℕ) → Cmd World (Ret × User)
  unfolding prepare copy_string strlen
  t_read g junk name buf len = prepare g junk name >> (λ w.
      (load (at w.infos w.private_data) >>= λ info.
      (λ v. load (at v.pages info.page_data) v) >>= λ page.
      copy_string buf page.bytes (strlen page.bytes))
        w)
