-- ===== src/Tuse/Mount.antt =====
-- Mounting: `tuse_fill_super` of old/tuse/inode.c, with its error labels.
pub mod Outcome
pub mod Types
use kernel_module_memo.Base.{
  ℕ, ◌+◌, ◌-◌, Bool, true, false, ◌||◌, Option, none, some, if◌then◌else◌, ◌==◌,
}
use kernel_module_memo.Kernel.Run.{
  Ret, done, fail, Errno, einval, enomem, Run, ok, oops, Cmd, pure, fault, ◌>>=◌, ◌>>◌,
}
use kernel_module_memo.Kernel.Heap.{Ptr, Heap, put}
use kernel_module_memo.Tuse.Request.{
  Req, Object, Grants, is_background, request, request_alloc, request_free, Flag, background,
}
use kernel_module_memo.Tuse.Options.{MountData, Text, Parser, parse_tuse_opt}
use kernel_module_memo.Tuse.Inode.{Inode, get_root_inode}
use kernel_module_memo.Tuse.Conn.{
  Conn, Dev, World, conn_init, dev_alloc, conn_put, dev_free, on_slab,
}

-- The super block and what the kernel answers in the course of the mount.
pub record Kernel : Type 0 where
  pub mandlock : Bool  -- MS_MANDLOCK
  pub is_bdev : Bool  -- `sb->s_bdev != NULL`
  pub has_fs_info : Bool  -- `sb->s_fs_info != NULL`
  pub options : Option Text
  pub file : ℕ → Option Bool  -- `fget`; whether it is a tuse device in the first user namespace
  pub conn : Bool  -- `kmalloc` of the connection
  pub dev : Bool  -- `kzalloc` of the device
  pub inode : Option Inode  -- `iget5_locked`
  pub dentry : Bool  -- the allocation in `d_make_root`
  pub junk : Req  -- an object of the request cache
  pub init_req : Grants
  pub destroy_req : Grants

-- The labels at the end of the function, each with the code below it.
err_fput : Errno → Cmd World Ret
err_fput e w = ok (fail e) (record w { files = w.files - 1 })

err_put_conn : Errno → Cmd World Ret
unfolding err_fput
err_put_conn e = conn_put >> err_fput e

err_dev_free : Errno → Cmd World Ret
unfolding err_put_conn
err_dev_free e = dev_free >> err_put_conn e

err_put_root : Errno → Cmd World Ret
unfolding err_dev_free
err_put_root e w = err_dev_free e (record w { dentries = w.dentries - 1 })

err_free_init_req : Errno → Ptr → Cmd World Ret
unfolding err_put_root
err_free_init_req e p = on_slab (request_free p) >> err_put_root e

-- `__set_bit(FR_BACKGROUND, &init_req->flags)`
set_background : Option Object → Ptr → Cmd (Heap Object) (Unit {0})
set_background (some (request r)) p h =
    ok tt (put h p (some (request (record r { flags = λ f. is_background f || r.flags f }))))
set_background _ p h = oops

keep_destroy_req : Ptr → Option Conn → Option Conn
keep_destroy_req p none = none
keep_destroy_req p (some c) = some (record c { destroy_req = some p })

-- The request for DESTROY, on a block device.
with_destroy : Ptr → Option Ptr → Cmd World Ret
unfolding err_free_init_req keep_destroy_req
with_destroy init_req none = err_free_init_req enomem init_req
with_destroy init_req (some p) = λ w. ok (done 0) (record w { conn = keep_destroy_req p w.conn })

with_init_req : Kernel → Option Ptr → Cmd World Ret
unfolding err_put_root set_background with_destroy
with_init_req k none = err_put_root enomem
with_init_req k (some p) =
    on_slab (λ h. set_background (h.cell p) p h)
    >> (if k.is_bdev
        then on_slab (request_alloc k.junk k.destroy_req 0) >>= with_destroy p
        else pure (done 0))

-- `d_make_root`, which gives NULL for NULL, and what follows.
with_root : Kernel → Option Inode → Cmd World Ret
unfolding err_dev_free with_init_req
with_root k none = err_dev_free enomem
with_root k (some root) =
    if k.dentry
    then (λ w.
        (on_slab (request_alloc k.junk k.init_req 0) >>= with_init_req k)
          (record w { dentries = w.dentries + 1 }))
    else err_dev_free enomem

-- `tuse_bdi_init` returns 0. The root inode has the mode of the options.
got_root : Kernel → Run (Unit {0}) (Option Inode) → Cmd World Ret
unfolding with_root
got_root k oops w = oops
got_root k (ok root _) w = with_root k root w

with_dev : Kernel → MountData → Bool → Cmd World Ret
unfolding err_put_conn got_root
with_dev k d false = err_put_conn enomem
with_dev k d true = got_root k (get_root_inode k.has_fs_info k.inode d.rootmode)

with_file : Kernel → MountData → Option Bool → Cmd World Ret
unfolding err_fput with_dev
with_file k d none w = ok (fail einval) w
with_file k d (some false) w = err_fput einval (record w { files = w.files + 1 })
with_file k d (some true) w =
    let w' = record w { files = w.files + 1 } in
    if k.conn
    then (dev_alloc k.dev >>= with_dev k d) (record w' { conn = some conn_init })
    else err_fput enomem w'

with_options : Kernel → Option MountData → Cmd World Ret
unfolding with_file
with_options k none = pure (fail einval)
with_options k (some d) = with_file k d (k.file d.fd)

-- `tuse_fill_super`
unfoldable pub fill_super : Parser → Kernel → Cmd World Ret
unfolding with_options
fill_super parser k =
    if k.mandlock then pure (fail einval) else with_options k (parse_tuse_opt parser k.options)
