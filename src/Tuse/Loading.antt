-- ===== src/Tuse/Loading.antt =====
-- Loading and unloading of old/tuse (inode.c and dev.c), the unmounting of a super block, and the
-- private data of dentries (dir.c).
pub mod Outcome
use kernel_module_memo.Base.{Bool, true, false, Option, none, some, List, [], ◌∷◌}
use kernel_module_memo.Kernel.Run.{
  Ret, done, fail, Errno, enomem, Run, ok, oops, Cmd, pure, fault, ◌>>=◌, ◌>>◌,
}
use kernel_module_memo.Kernel.Heap.{Ptr, Heap, kmalloc, kfree}

-- What a static `struct kmem_cache *` points to. `destroyed`: a cache that is gone.
pub data Cache : Type 0 where
  null live destroyed : Cache

-- What the module has of the kernel's registries, and its two caches.
pub record Registry : Type 0 where
  pub tuse_inode_cachep : Cache
  pub tuse_req_cachep : Cache
  pub tuse_fs_type : Bool
  pub tuseblk_fs_type : Bool
  pub tuse_miscdev : Bool

abbrev pub kmem_cache_create : Bool → Cache
kmem_cache_create true = live
kmem_cache_create false = null

-- `kmem_cache_destroy`: nothing at NULL, a fault for a cache that is gone.
abbrev pub kmem_cache_destroy : Cache → Option Cache
kmem_cache_destroy null = some null
kmem_cache_destroy live = some destroyed
kmem_cache_destroy destroyed = none

abbrev pub destroy_inode_cache : Cmd Registry (Unit {0})
destroy_inode_cache r = elim (kmem_cache_destroy r.tuse_inode_cachep) [
  | none ↦ oops
  | some c ↦ ok tt (record r { tuse_inode_cachep = c })
]

abbrev pub destroy_req_cache : Cmd Registry (Unit {0})
destroy_req_cache r = elim (kmem_cache_destroy r.tuse_req_cachep) [
  | none ↦ oops
  | some c ↦ ok tt (record r { tuse_req_cachep = c })
]

-- What the kernel answers in the course of the loading; `none` is 0.
pub record Answers : Type 0 where
  pub inode_cache : Bool
  pub register_filesystem : Option Errno
  pub req_cache : Bool
  pub misc_register : Option Errno

abbrev pub register_fs : Option Errno → Cmd Registry Ret
register_fs none r = ok (done 0) (record r { tuse_fs_type = true })
register_fs (some e) r = (destroy_inode_cache >> pure (fail e)) r

-- `tuse_fs_init`
unfoldable pub fs_init : Answers → Cmd Registry Ret
fs_init g r = elim (kmem_cache_create g.inode_cache) [
  | null ↦ ok (fail enomem) (record r { tuse_inode_cachep = null })
  | live ↦ register_fs g.register_filesystem (record r { tuse_inode_cachep = live })
  | destroyed ↦ oops
]

-- `tuse_fs_cleanup`. To unregister a file system that is not registered, as "tuseblk" never is,
-- changes nothing.
unfoldable pub fs_cleanup : Cmd Registry (Unit {0})
fs_cleanup r = destroy_inode_cache (record r { tuse_fs_type = false; tuseblk_fs_type = false })

abbrev pub register_misc : Option Errno → Cmd Registry Ret
register_misc none r = ok (done 0) (record r { tuse_miscdev = true })
register_misc (some e) r = (destroy_req_cache >> pure (fail e)) r

-- `tuse_dev_init`
unfoldable pub dev_init : Answers → Cmd Registry Ret
dev_init g r = elim (kmem_cache_create g.req_cache) [
  | null ↦ ok (fail enomem) (record r { tuse_req_cachep = null })
  | live ↦ register_misc g.misc_register (record r { tuse_req_cachep = live })
  | destroyed ↦ oops
]

-- `tuse_dev_cleanup`
unfoldable pub dev_cleanup : Cmd Registry (Unit {0})
dev_cleanup r = ok tt (record r { tuse_miscdev = false })

-- Behind `tuse_dev_init`, whose failure undoes `tuse_fs_init`.
abbrev pub unless_failed : Ret → Cmd Registry Ret
unless_failed (done n) = pure (done 0)
unless_failed (fail e) = fs_cleanup >> pure (fail e)

abbrev pub then_dev : Answers → Ret → Cmd Registry Ret
then_dev g (done n) = dev_init g >>= unless_failed
then_dev g (fail e) = pure (fail e)

-- `tuse_init`
unfoldable pub init : Answers → Cmd Registry Ret
init g = fs_init g >>= then_dev g

-- `tuse_exit`
unfoldable pub exit : Cmd Registry (Unit {0})
exit = fs_cleanup >> dev_cleanup

-- A connection, as far as unmounting goes: its super block, and who holds `killsb`.
pub record Killed : Type 0 where
  pub sb : Option Ptr
  pub killsb : Bool

-- `down_write` waits for ever where this thread holds it, and `up_write` needs it to be held.
abbrev pub down_write : Cmd Killed (Unit {0})
down_write c = elim c.killsb [ true ↦ oops | false ↦ ok tt (record c { killsb = true }) ]

abbrev pub up_write : Cmd Killed (Unit {0})
up_write c = elim c.killsb [ true ↦ ok tt (record c { killsb = false }) | false ↦ oops ]

-- `tuse_kill_sb_anon` before it hands `sb` to the kernel, for the connection of the super block, if
-- any.
unfoldable pub kill_sb : Option Killed → Run (Option Killed) (Unit {0})
kill_sb none = ok tt none
kill_sb (some c) = elim ((down_write >> (λ d. ok tt (record d { sb = none })) >> up_write) c) [
  | oops ↦ oops
  | ok a d ↦ ok a (some d)
]

-- `tuse_kill_sb_blk`, which is the same up to there.
abbrev pub kill_sb_blk : Option Killed → Run (Option Killed) (Unit {0})
kill_sb_blk = kill_sb

-- `union tuse_dentry`, the `d_fsdata` of one dentry, and the objects that `kfree_rcu` has still to
-- free.
pub record Dentries : Type 0 where
  pub heap : Heap (Unit {0})
  pub d_fsdata : Option Ptr
  pub deferred : List (Option Ptr)

-- `tuse_dentry_init`
unfoldable pub dentry_init : (granted : Bool) → Cmd Dentries Ret
dentry_init granted s = elim (kmalloc granted tt s.heap) [
  | oops ↦ oops
  | ok none h ↦ ok (fail enomem) (record s { heap = h; d_fsdata = none })
  | ok (some p) h ↦ ok (done 0) (record s { heap = h; d_fsdata = some p })
]

-- `tuse_dentry_release`
unfoldable pub dentry_release : Cmd Dentries (Unit {0})
dentry_release s = ok tt (record s { deferred = s.d_fsdata ∷ s.deferred })

-- The kernel frees what `kfree_rcu` was given.
unfoldable pub free_all : List (Option Ptr) → Cmd (Heap (Unit {0})) (Unit {0})
free_all [] = pure tt
free_all (p ∷ ps) = kfree p >> free_all ps
