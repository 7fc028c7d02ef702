-- ===== src/Tuse/Mount/Types.antt =====
-- Mounting through the two file system types of old/tuse/inode.c: `mount_nodev` and `mount_bdev` of
-- the kernel call `tuse_fill_super`, and `kill_sb` when it fails.
use kernel_module_memo.Base.{◌≡◌, refl, Option, none, ◌⊎◌, inl, inr, false}
use kernel_module_memo.Kernel.Run.{
  Ret, done, fail, Errno, einval, enomem, Run, ok, oops, Cmd, pure, then_run, ◌>>=◌, ◌>>◌,
}
use kernel_module_memo.Tuse.Options.{Parser}
use kernel_module_memo.Tuse.Conn.{World}
use kernel_module_memo.Tuse.Loading.{Killed, kill_sb}
use kernel_module_memo.Tuse.Mount.{Kernel, fill_super}
use kernel_module_memo.Tuse.Mount.Outcome.{Refuses, fill_super-Refuses}

-- `mount_nodev` or `mount_bdev`, of a `fill_super` and a `kill_sb`.
abbrev pub Mounter : Type 0
Mounter = (fill : Cmd World Ret) (kill : Cmd World (Unit {0})) → Cmd World Ret

-- `kill_sb`, for the connection of the super block. It changes nothing else of a mount.
abbrev pub kill_of : Option Killed → Cmd World (Unit {0})
kill_of c w = elim (kill_sb c) [ oops ↦ oops | ok a c' ↦ ok tt w ]

-- `tuse_mount`
abbrev pub mount : Mounter → Parser → Kernel → Option Killed → Cmd World Ret
mount mount_nodev parser k s_fs_info = mount_nodev (fill_super parser k) (kill_of s_fs_info)

-- `tuse_mount_blk`
abbrev pub mount_blk : Mounter → Parser → Kernel → Option Killed → Cmd World Ret
mount_blk mount_bdev parser k s_fs_info = mount_bdev (fill_super parser k) (kill_of s_fs_info)

abbrev pub or_kill : Cmd World (Unit {0}) → Ret → Cmd World Ret
or_kill kill (done n) = pure (done n)
or_kill kill (fail e) = kill >> pure (fail e)

-- What the kernel's functions do: they get no super block, or they fill it, and drop it if that
-- fails.
abbrev pub Mounts : Mounter → Type 0
Mounts m =
    (fill : Cmd World Ret) (kill : Cmd World (Unit {0})) (w : World)
    → ((e : Errno) × (m fill kill w ≡ ok (fail e) w)) ⊎ (m fill kill w ≡ (fill >>= or_kill kill) w)

-- A fault, or an error, with the references to files and dentries and the requests from before.
abbrev pub Fails : World → Run World Ret → Type 0
Fails w oops = Unit
Fails w (ok r w') =
    ((e : Errno) × (r ≡ fail e))
    × (w'.files ≡ w.files)
    × (w'.dentries ≡ w.dentries)
    × (w'.slab ≡ w.slab)

refused-Fails :
    (w : World) (run : Run World Ret)
    → Refuses w run
    → Fails w (then_run run (or_kill (kill_of none)))
unfolding kill_sb
refused-Fails w oops h = tt
refused-Fails w (ok r w') (inl e, files, dentries, slab) =
    rw e ((einval, refl), files, dentries, slab)
refused-Fails w (ok r w') (inr e, files, dentries, slab) =
    rw e ((enomem, refl), files, dentries, slab)

by_mounter :
    (parser : Parser) (k : Kernel) (w : World) (run : Run World Ret)
    → k.has_fs_info ≡ false
    → ((e : Errno) × (run ≡ ok (fail e) w))
      ⊎ (run ≡ (fill_super parser k >>= or_kill (kill_of none)) w)
    → Fails w run
by_mounter parser k w run no_info (inl (e, failed)) = rw failed ((e, refl), refl, refl, refl)
by_mounter parser k w run no_info (inr filled) =
    rw filled (refused-Fails w (fill_super parser k w) (fill_super-Refuses parser k w no_info))

-- While nothing sets `sb->s_fs_info`, neither type of file system can be mounted, if the kernel's
-- functions get no super block, or fill it and drop it when that fails: `tuse_mount` and
-- `tuse_mount_blk` fault, or fail and have given back all references to files and dentries and
-- all requests.
pub mount-Fails :
    (m : Mounter) (parser : Parser) (k : Kernel) (w : World)
    → Mounts m
    → k.has_fs_info ≡ false
    → Fails w (mount m parser k none w) × Fails w (mount_blk m parser k none w)
mount-Fails m parser k w mounts no_info =
    let fails = by_mounter parser k w _ no_info (mounts (fill_super parser k) (kill_of none) w) in
    (fails, fails)
