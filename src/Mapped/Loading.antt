-- ===== src/Mapped/Loading.antt =====
-- Loading and unloading of old/mma.c and old/gread.c, which are the same but for the names.
use kernel_module_memo.Base.{◌≡◌, refl, ◌⊎◌, inl, inr, Bool, true, false, Option, none, some}
use kernel_module_memo.Kernel.Run.{Ret, done, fail, Errno, ok, Cmd, Ends}

-- What is registered: the region of device numbers, and the character device.
pub record Registered : Type 0 where
  pub region : Bool
  pub c_dev : Bool

-- What `alloc_chrdev_region` and `cdev_add` return; `none` is 0.
pub record Answers : Type 0 where
  pub alloc_chrdev_region : Option Errno
  pub cdev_add : Option Errno

abbrev pub add_cdev : Option Errno → Cmd Registered Ret
add_cdev none s = ok (done 0) (record s { c_dev = true })
add_cdev (some e) s = ok (fail e) s

abbrev pub init_with : Option Errno → Option Errno → Cmd Registered Ret
init_with (some e) add s = ok (fail e) s
init_with none add s = add_cdev add (record s { region = true })

-- `mmapexample_module_init` and `mmapexample_module_exit`
unfoldable pub module_init : Answers → Cmd Registered Ret
module_init g = init_with g.alloc_chrdev_region g.cdev_add

unfoldable pub module_exit : Cmd Registered (Unit {0})
module_exit s = ok tt (record { region = false; c_dev = false })

-- `ex_module_init` and `ex_module_exit`
abbrev pub ex_module_init : Answers → Cmd Registered Ret
ex_module_init = module_init

abbrev pub ex_module_exit : Cmd Registered (Unit {0})
ex_module_exit = module_exit

abbrev pub nothing : Registered
nothing = record { region = false; c_dev = false }

abbrev is_granted : Option Errno → Bool
is_granted none = true
is_granted (some e) = false

-- Whatever the kernel answers, the initialisation of old/mma.c returns 0 with the region and the
-- device registered, and the exit takes both back; or it fails without a device, and the region
-- stays registered exactly if the kernel had granted it, so that a failing `cdev_add` leaks it.
pub module_init_leaks :
    (g : Answers)
    → Ends
        (λ ret t.
          ((ret ≡ done 0)
            × (t ≡ record { region = true; c_dev = true })
            × (module_exit t ≡ ok tt nothing))
          ⊎ (((e : Errno) × (ret ≡ fail e))
              × (t ≡ record { region = is_granted g.alloc_chrdev_region; c_dev = false })))
        (module_init g nothing)
unfolding module_init module_exit
module_init_leaks g = by g.alloc_chrdev_region g.cdev_add
  where
    by :
        (a b : Option Errno)
        → Ends
            (λ ret t.
              ((ret ≡ done 0)
                × (t ≡ record { region = true; c_dev = true })
                × (module_exit t ≡ ok tt nothing))
              ⊎ (((e : Errno) × (ret ≡ fail e))
                  × (t ≡ record { region = is_granted a; c_dev = false })))
            (init_with a b nothing)
    by (some e) b = inr ((e, refl), refl)
    by none none = inl (refl, refl, refl)
    by none (some e) = inr ((e, refl), refl)
