-- ===== src/Tuse/Loading/Outcome.antt =====
-- What loading and unloading of old/tuse leave behind, and what dentries and super blocks do.
use kernel_module_memo.Base.{
  suc, ◌≡◌, refl, ◌≢◌, ◌⊎◌, inl, inr, Bool, true, false, Option, none, some, [], arith,
}
use kernel_module_memo.Base.Family.{update}
use kernel_module_memo.Kernel.Run.{Ret, done, fail, Errno, enomem, ok, Ends, ◌>>◌}
use kernel_module_memo.Kernel.Heap.{Heap, IsFresh, SameObjects, put, kfree}
use kernel_module_memo.Tuse.Loading.{
  Cache, null, live, Registry, Answers, fs_init, fs_cleanup, dev_init, dev_cleanup, init, exit,
  Killed, kill_sb, Dentries, dentry_init, dentry_release, free_all,
}

-- A module that has just been put into memory.
abbrev pub unloaded : Registry
unloaded = record {
  tuse_inode_cachep = null;
  tuse_req_cachep = null;
  tuse_fs_type = false;
  tuseblk_fs_type = false;
  tuse_miscdev = false;
}

-- Nothing is registered, and no inode cache is left.
pub record IsClean (r : Registry) : Type 0 where
  pub no_fs : r.tuse_fs_type ≡ false
  pub no_blk : r.tuseblk_fs_type ≡ false
  pub no_misc : r.tuse_miscdev ≡ false
  pub no_cache : r.tuse_inode_cachep ≢ live

-- Loaded, so that `exit` takes all back but the cache of requests.
abbrev pub Loaded : Registry → Type 0
Loaded t =
    (t.tuse_inode_cachep ≡ live)
    × (t.tuse_req_cachep ≡ live)
    × (t.tuse_fs_type ≡ true)
    × (t.tuse_miscdev ≡ true)
    × Ends (λ _ v. IsClean v × (v.tuse_req_cachep ≡ live)) (exit t)

abbrev pub LoadsOrNot : Ret → Registry → Type 0
LoadsOrNot ret t =
    ((ret ≡ done 0) × Loaded t)
    ⊎ (((e : Errno) × (ret ≡ fail e)) × IsClean t × (t.tuse_req_cachep ≢ live))

-- Whatever the kernel answers, `tuse_init` returns 0 with both caches, the file system and the
-- device, and `tuse_exit` then takes back all but the cache of requests, which is leaked; or
-- `tuse_init` returns an error and leaves no cache and nothing registered. Neither destroys a cache
-- twice.
pub load-unload : (g : Answers) → Ends LoadsOrNot (init g unloaded)
unfolding init fs_init fs_cleanup dev_init dev_cleanup exit
load-unload g = by g.inode_cache g.register_filesystem g.req_cache g.misc_register
  where
    clean :
        {c d : Cache}
        → c ≢ live
        → IsClean (record unloaded { tuse_inode_cachep = c; tuse_req_cachep = d })
    clean ne = record { no_fs = refl; no_blk = refl; no_misc = refl; no_cache = ne }

    by :
        (a : Bool) (b : Option Errno) (c : Bool) (d : Option Errno)
        → Ends LoadsOrNot (
            init
              (record {
                inode_cache = a;
                register_filesystem = b;
                req_cache = c;
                misc_register = d;
              })
              unloaded)
    by false b c d = inr ((enomem, refl), clean (λ e. cc), λ e. cc)
    by true (some e) c d = inr ((e, refl), clean (λ e. cc), λ e. cc)
    by true none false d = inr ((enomem, refl), clean (λ e. cc), λ e. cc)
    by true none true (some e) = inr ((e, refl), clean (λ e. cc), λ e. cc)
    by true none true none = inl (refl, (refl, refl, refl, refl, (clean (λ e. cc), refl)))

-- Unmounting leaves `killsb` free, if it was, and the connection without a super block.
pub kill_sb_lem :
    (c : Killed)
    → c.killsb ≡ false
    → kill_sb (some c) ≡ ok tt (some (record { sb = none; killsb = false }))
unfolding kill_sb
kill_sb_lem c e = ground arith

-- A dentry that is set up with memory granted, and released, is back to the objects from before once
-- the kernel has freed what `kfree_rcu` was given.
pub dentry_init-release :
    (s : Dentries)
    → IsFresh s.heap
    → s.deferred ≡ []
    → Ends
        (λ _ t. Ends (λ _ h. SameObjects s.heap h) (free_all t.deferred t.heap))
        ((dentry_init true >> dentry_release) s)
unfolding dentry_init dentry_release free_all
dentry_init-release s fresh nothing =
    let h : Heap (Unit {0}) = record {
      next = suc s.heap.next;
      cell = update s.heap.cell s.heap.next (some tt);
    } in
    let freed : kfree (some s.heap.next) h ≡ ok tt (put h s.heap.next none) = ground arith in
    rw nothing (rw freed (λ q. ground (arith, fresh q)))
