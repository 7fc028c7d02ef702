-- ===== src/Mapped/Transfer.antt =====
-- Reads and writes of old/vmm.c, up to four bytes of the page.
use kernel_module_memo.Base.{ℕ, ◌≤◌, ◌≡◌, ◌++◌, length, drop, min, arith}
use kernel_module_memo.Kernel.Run.{done, ok}
use kernel_module_memo.Kernel.Uaccess.{Uaccess}
use kernel_module_memo.Mapped.{Page}
use kernel_module_memo.Mapped.Vmm.{buffer_size, write_page}

module _ (u : Uaccess) where
  open u use {
    User, bytes, copy_from_user, copy_to_user, from_all, to_all, length-bytes,
    length-copy_from_user,
  }

  written :
      (buf : User) (len n : ℕ) (page page' : Page)
      → buffer_size ≤ length page.bytes
      → write_page u buf len page ≡ ok (done n) page'
      → (n ≡ len)
        × (page'.bytes ≡ bytes buf (min len buffer_size) ++ drop (min len buffer_size) page.bytes)
  unfolding write_page
  written buf len n page page' room e = ground (
    arith,
    from_all page.bytes buf (min len buffer_size),
    length-copy_from_user page.bytes buf (min len buffer_size),
  )
