-- ===== src/Modules.antt =====
-- The modules that only register something, old/dma.c, old/tinyfuse.c and old/proc.c, and the
-- loading and unloading of old/vmm.c, old/simple.c and get_user_pages/sample.c.
use kernel_module_memo.Base.{
  ℕ, ◌≡◌, refl, ◌⊎◌, inl, inr, Bool, true, false, Option, none, some, if◌then◌else◌, List, [], ◌∷◌,
  ◌++◌,
}
use kernel_module_memo.Kernel.Run.{Ret, done, fail, Errno, ok, oops, Cmd, Ends}

-- What one module has registered: its misc device, its entry in /proc, its major number, and a class
-- with a device.
pub record Registered : Type 0 where
  pub misc : Bool
  pub proc : Bool
  pub chrdev : Option ℕ
  pub class : Bool
  pub device : Bool

abbrev pub unloaded : Registered
unloaded = record { misc = false; proc = false; chrdev = none; class = false; device = false }

-- `dma_init`, for what `misc_register` returns, where `none` is 0, and `dma_cleanup`.
unfoldable pub dma_init : Option Errno → Cmd Registered Ret
dma_init none r = ok (done 0) (record r { misc = true })
dma_init (some e) r = ok (fail e) r

unfoldable pub dma_cleanup : Cmd Registered (Unit {0})
dma_cleanup r = ok tt (record r { misc = false })

-- `tuse_dev_init` and `tuse_dev_cleanup` of old/tinyfuse.c, which are the same.
abbrev pub tuse_dev_init : Option Errno → Cmd Registered Ret
tuse_dev_init = dma_init

abbrev pub tuse_dev_cleanup : Cmd Registered (Unit {0})
tuse_dev_cleanup = dma_cleanup

-- `hello_proc_init` and `hello_proc_exit` of old/proc.c. What `proc_create` returns is not looked
-- at.
unfoldable pub hello_proc_init : (created : Bool) → Cmd Registered Ret
hello_proc_init created r = ok (done 0) (record r { proc = created })

unfoldable pub hello_proc_exit : Cmd Registered (Unit {0})
hello_proc_exit r = ok tt (record r { proc = false })

-- "Hello proc!\n"
abbrev shown_text : List ℕ
shown_text = b'H' ∷ b'e' ∷ b'l' ∷ b'l' ∷ b'o' ∷ b' ' ∷ b'p' ∷ b'r' ∷ b'o' ∷ b'c' ∷ b'!' ∷ 10 ∷ []

-- `hello_proc_show` of old/proc.c, on the text of the `seq_file`.
abbrev hello_proc_show : Cmd (List ℕ) Ret
hello_proc_show text = ok (done 0) (text ++ shown_text)

-- `hello_proc_open`, over `single_open` of the kernel.
abbrev hello_proc_open :
    {File : Type 0} → (single_open : Cmd (List ℕ) Ret → Cmd File Ret) → Cmd File Ret
hello_proc_open single_open = single_open hello_proc_show

-- `myinit` and `myexit` of old/vmm.c, which are the same.
abbrev pub myinit : (created : Bool) → Cmd Registered Ret
myinit = hello_proc_init

abbrev pub myexit : Cmd Registered (Unit {0})
myexit = hello_proc_exit

-- `tgw_init` and `tgw_exit`. `major_num` is what `register_chrdev` gives, `none` for an error,
-- which is not looked at.
unfoldable pub tgw_init : (major_num : Option ℕ) → Cmd Registered Ret
tgw_init major_num r = ok (done 0) (record r { chrdev = major_num })

unfoldable pub tgw_exit : Cmd Registered (Unit {0})
tgw_exit r = ok tt (record r { chrdev = none })

-- What the kernel answers to `sample_init`: to `register_chrdev`, where `none` is 0, whether there
-- is a class, and whether there is a device.
pub record Answers : Type 0 where
  pub registered : Option Errno
  pub class_created : Bool
  pub device_created : Bool

-- `register_chrdev(42, …)`
abbrev pub sample_chrdev : Option Errno → Registered → Ret × Registered
sample_chrdev none r = (done 0, record r { chrdev = some 42 })
sample_chrdev (some e) r = (fail e, r)

-- `sample_init` of get_user_pages/sample.c goes on whatever `register_chrdev` returned; a device of
-- a class that is an error pointer is a fault.
unfoldable pub sample_init : Answers → Cmd Registered Ret
sample_init g r =
    let (ret, s) = sample_chrdev g.registered r in
    if g.class_created then ok ret (record s { class = true; device = g.device_created }) else oops

-- `sample_exit`
unfoldable pub sample_exit : Cmd Registered (Unit {0})
sample_exit r = ok tt (record r { device = false; class = false; chrdev = none })

-- If there is a class, `sample_init` either returns 0, and `sample_exit` takes back what it
-- registered; or it fails, as `register_chrdev` did, and leaves the class behind, which nothing
-- takes back, since a module whose loading failed is never unloaded.
pub sample_init_leaks :
    (g : Answers)
    → g.class_created ≡ true
    → Ends
        (λ ret t.
          ((ret ≡ done 0) × (sample_exit t ≡ ok tt unloaded))
          ⊎ (((e : Errno) × (g.registered ≡ some e) × (ret ≡ fail e)) × (t.class ≡ true)))
        (sample_init g unloaded)
unfolding sample_init sample_exit
sample_init_leaks g granted = rw granted (by g.registered)
  where
    by :
        (o : Option Errno)
        → (((sample_chrdev o unloaded).0 ≡ done 0)
            × (sample_exit
                  (record (sample_chrdev o unloaded).1 { class = true; device = g.device_created })
                ≡ ok tt unloaded))
          ⊎ (((e : Errno) × (o ≡ some e) × ((sample_chrdev o unloaded).0 ≡ fail e)) × (true ≡ true))
    by none = inl (refl, refl)
    by (some e) = inr ((e, refl, refl), refl)
