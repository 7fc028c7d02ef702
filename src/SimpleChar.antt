-- ===== src/SimpleChar.antt =====
-- old/hello.c: the `simple_char` devices, each with a buffer of its own.
pub mod Transfer
pub mod Files
pub mod Lifecycle
mod Tests
use kernel_module_memo.Base.{ℕ, List, ◌++◌, length, take, ltb, if◌then◌else◌, ◌==◌}
use kernel_module_memo.Kernel.Run.{Ret, done, fail, Errno, efault, Cmd, pure, fault, ◌>>=◌, ◌>>◌}
use kernel_module_memo.Kernel.Uaccess.{Uaccess}

-- `struct simple_char_dev`: the bytes of `buf`, as many as `kmalloc` gave, and `write_size`.
pub record Dev : Type 0 where
  pub buf : List ℕ
  pub write_size : ℕ

-- How much `simple_char_read` copies, and how much `simple_char_write` does; `bufsize` is
-- `simple_char_bufsize`, converted to `size_t`.
unfoldable pub read_length : ℕ → Dev → ℕ
read_length count dev = if ltb dev.write_size count then dev.write_size else count

unfoldable pub write_length : (bufsize count : ℕ) → Dev → ℕ
write_length bufsize count dev = if ltb bufsize count then dev.write_size else bufsize

module _ (u : Uaccess) where
  open u use {User, copy_from_user, copy_to_user}

  -- `simple_char_read`. A copy from behind the end of `buf` is a fault.
  unfoldable pub read : User → ℕ → Cmd Dev (Ret × User)
  read buf count dev =
      let write_size = read_length count dev in
      let copied = copy_to_user buf dev.buf write_size in
      if ltb (length dev.buf) write_size
      then fault dev
      else if copied.1 == 0
      then pure (done write_size, copied.0) dev
      else pure (fail efault, copied.0) dev

  -- `simple_char_write`. A copy to behind the end of `buf` is a fault.
  unfoldable pub write : ℕ → User → ℕ → Cmd Dev Ret
  write bufsize buf count dev =
      let write_size = write_length bufsize count dev in
      let copied = copy_from_user dev.buf buf write_size in
      if ltb (length dev.buf) write_size
      then fault dev
      else if copied.1 == 0
      then pure (done write_size) (record dev { buf = copied.0; write_size = write_size })
      else pure (fail efault) (record dev { buf = copied.0 })
