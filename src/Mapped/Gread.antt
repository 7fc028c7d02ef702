-- ===== src/Mapped/Gread.antt =====
-- old/gread.c, whose files are opened and closed as those of old/mma.c; `struct this_data` is an
-- info without the counter.
use kernel_module_memo.Base.{ℕ, List}
use kernel_module_memo.Kernel.Run.{Ret, Cmd}
use kernel_module_memo.Mapped.{Info, World}
use kernel_module_memo.Mapped.Mma.{Grants, mmapfop_open, mmapfop_close}

-- `gopen`
abbrev pub gopen : Grants → Info → List ℕ → Cmd World Ret
gopen = mmapfop_open

-- `gclose`
abbrev pub gclose : Cmd World Ret
gclose = mmapfop_close
