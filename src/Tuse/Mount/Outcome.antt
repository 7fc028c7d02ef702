-- ===== src/Tuse/Mount/Outcome.antt =====
-- No mount of tuse succeeds, and which ones fault.
use kernel_module_memo.Base.{
  ℕ, ◌+◌, ◌≡◌, refl, ◌∙◌, ap, sym, Bool, true, false, Option, none, some, ◌⊎◌, inl, inr,
  if◌then◌else◌, arith,
}
use mathlib.Core.Path.{ap₂}
use kernel_module_memo.Kernel.Run.{Ret, fail, Errno, einval, enomem, Run, ok, oops, pure, ◌>>=◌}
use kernel_module_memo.Tuse.Options.{
  MountData, Text, Parser, opt_fd, opt_user_id, opt_group_id, given, parse_tuse_opt,
}
use kernel_module_memo.Tuse.Options.Accepted.{acceptable, last, accepted, parse_tuse_opt_lem}
use kernel_module_memo.Tuse.Inode.{Inode, get_root_inode}
use kernel_module_memo.Tuse.Conn.{World, conn_init, dev_alloc, conn_put, dev_free}
use kernel_module_memo.Tuse.Mount.{
  Kernel, err_fput, err_dev_free, got_root, with_dev, with_file, with_options, fill_super,
}

-- The parser leaves the mode of the root at 0.
accepted_mode :
    (all : Bool) (f u g : Option ℕ) (d : MountData) → accepted all f u g ≡ some d → d.rootmode ≡ 0
unfolding accepted
accepted_mode false f u g d e = cc
accepted_mode true none u g d e = cc
accepted_mode true (some f) none g d e = cc
accepted_mode true (some f) (some u) none d e = cc
accepted_mode true (some f) (some u) (some g) d e = ground arith

rootmode-eq :
    (parser : Parser) (opt : Option Text) (d : MountData)
    → parse_tuse_opt parser opt ≡ some d
    → d.rootmode ≡ 0
rootmode-eq parser opt d e =
    let ws = given opt in
    accepted_mode (acceptable parser ws) (last parser opt_fd ws) (last parser opt_user_id ws)
      (last parser opt_group_id ws) d (sym (parse_tuse_opt_lem parser opt) ∙ e)

-- With mode 0 and no connection in the super block, the root inode is NULL or a fault.
no_root :
    (found : Option Inode)
    → (get_root_inode false found 0 ≡ ok none tt) ⊎ (get_root_inode false found 0 ≡ oops)
unfolding get_root_inode
no_root none = inl refl
no_root (some i) = inr refl

-- The device's list entry is not linked, so that to free it is a fault.
dev_free_faults :
    (e : Errno) (w : World) → w.dev ≡ some (record { linked = false }) → err_dev_free e w ≡ oops
unfolding err_dev_free dev_free
dev_free_faults e w h = ground arith

got_root_faults :
    (k : Kernel) (w : World) (r : Run (Unit {0}) (Option Inode))
    → (r ≡ ok none tt) ⊎ (r ≡ oops)
    → w.dev ≡ some (record { linked = false })
    → got_root k r w ≡ oops
unfolding got_root
got_root_faults k w r (inl e) h = rw e (dev_free_faults enomem w h)
got_root_faults k w r (inr e) h = rw e

with_dev_faults :
    (k : Kernel) (d : MountData) (w : World)
    → k.has_fs_info ≡ false
    → d.rootmode ≡ 0
    → w.dev ≡ some (record { linked = false })
    → with_dev k d true w ≡ oops
unfolding with_dev
with_dev_faults k d w fs mode h =
    ap (λ r. got_root k r w) (ap₂ (λ b m. get_root_inode b k.inode m) fs mode)
    ∙ got_root_faults k w _ (no_root k.inode) h

-- The mount faults, or fails with one of the two errors, and the references to files and dentries
-- and the requests are those from before.
abbrev pub Refuses : World → Run World Ret → Type 0
Refuses w oops = Unit
Refuses w (ok r w') =
    ((r ≡ fail einval) ⊎ (r ≡ fail enomem))
    × (w'.files ≡ w.files)
    × (w'.dentries ≡ w.dentries)
    × (w'.slab ≡ w.slab)

module _ (k : Kernel) (d : MountData) (no_info : k.has_fs_info ≡ false)
    (mode : d.rootmode ≡ 0) where
  -- The world when the connection has just been allocated.
  abbrev connected : World → World
  connected w = record w { files = w.files + 1; conn = some conn_init }

  dev_faults : (w : World) → (dev_alloc true >>= with_dev k d) (connected w) ≡ oops
  unfolding dev_alloc
  dev_faults w = with_dev_faults k d _ no_info mode refl

  by_dev :
      (granted : Bool) (w : World) → Refuses w ((dev_alloc granted >>= with_dev k d) (connected w))
  unfolding dev_alloc with_dev conn_put
  by_dev true w =
      rw
        (with_dev_faults k d
          (record (connected w) {
            conn = some (record conn_init { count = 2 });
            dev = some (record { linked = false });
          })
          no_info mode refl)
        tt
  by_dev false w = (inr refl, omega arith, refl, refl)

  by_conn :
      (granted : Bool) (w : World)
      → Refuses w (
          if granted
          then (dev_alloc k.dev >>= with_dev k d) (connected w)
          else err_fput enomem (record w { files = w.files + 1 }))
  unfolding err_fput
  by_conn true w = by_dev k.dev w
  by_conn false w = (inr refl, omega arith, refl, refl)

  by_file : (f : Option Bool) (w : World) → Refuses w (with_file k d f w)
  unfolding with_file
  by_file none w = (inl refl, refl, refl, refl)
  by_file (some false) w = (inl refl, omega arith, refl, refl)
  by_file (some true) w = by_conn k.conn w

module _ (parser : Parser) (k : Kernel) (w : World) (no_info : k.has_fs_info ≡ false) where
  by_options :
      (parsed : Option MountData)
      → parse_tuse_opt parser k.options ≡ parsed
      → Refuses w (with_options k parsed w)
  unfolding with_options
  by_options none e = (inl refl, refl, refl, refl)
  by_options (some d) e = by_file k d no_info (rootmode-eq parser k.options d e) (k.file d.fd) w

  by_flag :
      (mandlock : Bool)
      → Refuses w (
          (if mandlock
              then pure (fail einval)
              else with_options k (parse_tuse_opt parser k.options))
            w)
  by_flag true = (inl refl, refl, refl, refl)
  by_flag false = by_options (parse_tuse_opt parser k.options) refl

  -- While nothing has set `sb->s_fs_info` (and nothing in tuse does), no mount succeeds, whatever
  -- the options and whatever the kernel answers: `tuse_fill_super` faults, or it fails with -EINVAL
  -- or -ENOMEM and has given back its references to files and dentries and its requests.
  pub fill_super-Refuses : Refuses w (fill_super parser k w)
  unfolding fill_super
  fill_super-Refuses = by_flag k.mandlock

  -- A mount that gets as far as the root inode faults: without mandatory locks, with accepted
  -- options whose file is a tuse device, and with memory for the connection and the device, there is
  -- no result, whatever `iget5_locked` returns.
  pub fill_super_faults :
      (d : MountData)
      → k.mandlock ≡ false
      → parse_tuse_opt parser k.options ≡ some d
      → k.file d.fd ≡ some true
      → k.conn ≡ true
      → k.dev ≡ true
      → fill_super parser k w ≡ oops
  unfolding fill_super with_options with_file
  fill_super_faults d flag parsed file conn dev =
      let connected' = record w { files = w.files + 1; conn = some conn_init } in
      let attach : Bool → Run World Ret =
        λ granted. (dev_alloc granted >>= with_dev k d) connected' in
      let mode = rootmode-eq parser k.options d parsed in
      ap
        (λ b.
          (if b then pure (fail einval) else with_options k (parse_tuse_opt parser k.options)) w)
        flag
      ∙ ap (λ p. with_options k p w) parsed
      ∙ ap (λ f. with_file k d f w) file
      ∙ ap (λ b. if b then attach k.dev else err_fput enomem (record w { files = w.files + 1 }))
          conn
      ∙ ap attach dev
      ∙ dev_faults k d no_info mode w
