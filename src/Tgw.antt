-- ===== src/Tgw.antt =====
-- old/simple.c: the `tgw` device, one static buffer with a size and a read counter.
pub mod Reading
pub mod Calls
mod Tests
use kernel_module_memo.Base.{
  ℕ, zero, suc, ◌+◌, ◌%◌, ◌^◌, List, [], ◌∷◌, length, ltb, if◌then◌else◌, ◌==◌,
}
use kernel_module_memo.Kernel.Run.{Ret, done, Run, ok, oops, Cmd, pure, fault, ◌>>=◌, ◌>>◌}
use kernel_module_memo.Kernel.Uaccess.{Uaccess}

-- `k_buf`, and the bit patterns of the two counters of type `int`.
pub record Tgw : Type 0 where
  pub k_buf : List ℕ
  pub data_size : ℕ
  pub all_read : ℕ

abbrev pub buf_size : ℕ
buf_size = 1024

module _ (u : Uaccess) where
  open u use {User, copy_from_user, copy_to_user}

  -- `tgw_read`; what `copy_to_user` answers is not looked at.
  unfoldable pub read : User → ℕ → Cmd Tgw (ℕ × User)
  read buf count s =
      let len = if ltb s.data_size count then s.data_size else count in
      if s.all_read == s.data_size
      then pure (0, buf) (record s { all_read = 0 })
      else if ltb (length s.k_buf) len
      then fault s
      else pure (len, (copy_to_user buf s.k_buf len).0)
          (record s { all_read = (s.all_read + len) % 2 ^ 32 })

  -- `tgw_write`; a copy to behind the end of `k_buf` is a fault.
  unfoldable pub write : User → ℕ → Cmd Tgw ℕ
  write buf count s =
      if ltb (length s.k_buf) count
      then fault s
      else pure count
          (record s { k_buf = (copy_from_user s.k_buf buf count).0; data_size = count % 2 ^ 32 })
