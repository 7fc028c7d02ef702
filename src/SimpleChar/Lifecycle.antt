-- ===== src/SimpleChar/Lifecycle.antt =====
-- Loading and unloading `simple_char`: buffers, device numbers, character devices, error paths.
pub mod Outcomes
use kernel_module_memo.Base.{
  ℕ, zero, suc, ◌+◌, ◌≤◌, ◌<◌, ◌≡◌, ◌≢◌, refl, ◌∙◌, ap, Bool, true, false, Option, none, some, List,
  [], ◌∷◌, length, replicate, if◌then◌else◌, ◌==◌, arith, Bool-cases, Option-cases,
}
use kernel_module_memo.Kernel.Run.{
  Ret, done, fail, Errno, Run, ok, oops, Cmd, pure, fault, ◌>>=◌, ◌>>◌, Ends,
}
use kernel_module_memo.SimpleChar.{Dev}
use kernel_module_memo.SimpleChar.Transfer.{IsValid}

-- An element of the array `simple_char_devs`: `none` once its buffer has been freed.
abbrev pub Slot : Type 0
Slot = Option Dev

-- `simple_char_devs`, `simple_char_major`, the registered region, and the minors of the added
-- character devices.
pub record Module : Type 0 where
  pub devs : Option (List Slot)
  pub major : ℕ
  pub region : Bool
  pub cdevs : List ℕ

-- What the kernel answers: `kmalloc` of the array, `kmalloc` of each buffer with the bytes that it
-- leaves there, the registration with the major number of `dev`, and `cdev_add` of each minor.
pub record Kernel : Type 0 where
  pub array : Bool
  pub buffer : ℕ → Option (List ℕ)
  pub registered : Option Errno
  pub dev_major : ℕ
  pub added : ℕ → Bool

-- `buf[0] = '\0'`; writing to NULL, or into a buffer without a byte, is a fault.
terminate : Option (List ℕ) → Option Slot
terminate none = none
terminate (some []) = none
terminate (some (x ∷ xs)) = some (some (record { buf = 0 ∷ xs; write_size = 0 }))

-- The loop of `simple_char_setup_buf`, from device `i` on with `n` to go.
setup_from : (ℕ → Option (List ℕ)) → ℕ → ℕ → Option (List Slot)
setup_from buffer i zero = some []
setup_from buffer i (suc n) = elim (terminate (buffer i)) [
  | none ↦ none
  | some slot ↦ elim (setup_from buffer (suc i) n) [
    | none ↦ none
    | some slots ↦ some (slot ∷ slots)
  ]
]

-- `simple_char_setup_buf`
setup_buf : (nr_devs : ℕ) → Kernel → Cmd Module Ret
unfolding setup_from terminate
setup_buf nr_devs k m = elim m.devs [
  | none ↦ if nr_devs == 0 then pure (done 0) m else fault m
  | some _ ↦ elim (setup_from k.buffer 0 nr_devs) [
    | none ↦ fault m
    | some slots ↦ pure (done 0) (record m { devs = some slots })
  ]
]

-- `simple_char_setup_devnr`
setup_devnr : Kernel → Cmd Module Ret
setup_devnr k m =
    let m' = if m.major == 0 then record m { major = k.dev_major } else m in
    elim k.registered [
      | some e ↦ pure (fail e) m'
      | none ↦ pure (done 0) (record m' { region = true })
    ]

-- The loop of `simple_char_setup_cdev`, with `simple_char_cdev_add`: a failure is only logged.
add_from : (ℕ → Bool) → ℕ → ℕ → List ℕ
add_from added i zero = []
add_from added i (suc n) =
    let later = add_from added (suc i) n in if added i then i ∷ later else later

setup_cdev : (nr_devs : ℕ) → Kernel → Cmd Module Ret
unfolding add_from
setup_cdev nr_devs k m = pure (done 0) (record m { cdevs = add_from k.added 0 nr_devs })

-- `if (result) goto fail;`, where `fail` returns the result and undoes nothing.
or_return : Cmd Module Ret → Cmd Module Ret → Cmd Module Ret
or_return first next m = elim (first m) [
  | oops ↦ oops
  | ok r m' ↦ elim r [ done v ↦ next m' | fail e ↦ ok (fail e) m' ]
]

-- `simple_char_init`
pub init : (nr_devs : ℕ) → Kernel → Cmd Module Ret
unfolding setup_buf setup_devnr setup_cdev or_return
init nr_devs k m =
    let m' = record m { devs = if k.array then some (replicate nr_devs none) else none } in
    or_return (setup_buf nr_devs k) (or_return (setup_devnr k) (setup_cdev nr_devs k)) m'

-- `simple_char_clear_buf` and `simple_char_clear_cdev` run over the array, which must be there.
free_bufs : List Slot → List Slot
free_bufs [] = []
free_bufs (s ∷ ss) = none ∷ free_bufs ss

clear_buf : Cmd Module (Unit {0})
unfolding free_bufs
clear_buf m = elim m.devs [
  | none ↦ fault m
  | some slots ↦ pure tt (record m { devs = some (free_bufs slots) })
]

clear_cdev : Cmd Module (Unit {0})
clear_cdev m = elim m.devs [ none ↦ fault m | some slots ↦ pure tt (record m { cdevs = [] }) ]

clear_devnr : Cmd Module (Unit {0})
clear_devnr m = pure tt (record m { region = false })

-- `simple_char_exit`. A buffer that is still there when the array goes is lost.
all_freed : List Slot → Bool
all_freed [] = true
all_freed (none ∷ ss) = all_freed ss
all_freed (some d ∷ ss) = false

free_array : Cmd Module Bool
unfolding all_freed
free_array m = elim m.devs [
  | none ↦ pure true m
  | some slots ↦ pure (all_freed slots) (record m { devs = none })
]

-- The result says whether every buffer had been freed before the array.
pub exit : Cmd Module Bool
unfolding clear_buf clear_cdev clear_devnr free_array
exit = do clear_buf; clear_cdev; clear_devnr; free_array
