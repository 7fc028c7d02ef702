-- ===== src/SimpleChar/Lifecycle/Outcomes.antt =====
-- What `simple_char_init` leaves behind when it succeeds and when it fails, and `simple_char_exit`.
use kernel_module_memo.Base.{
  ℕ, zero, suc, ◌≤◌, ◌≡◌, refl, ap, true, false, none, some, List, [], ◌∷◌, length, if◌then◌else◌,
  ◌==◌, arith,
}
use kernel_module_memo.Kernel.Run.{done, fail, Errno, ok, Ends}
use kernel_module_memo.SimpleChar.Transfer.{IsValid}
use kernel_module_memo.SimpleChar.Lifecycle.{
  Slot, Module, Kernel, terminate, setup_from, init, add_from, free_bufs, all_freed, exit,
}

-- Every device is there, empty, and with a buffer of at least `bufsize` bytes.
abbrev pub AreReady : ℕ → List Slot → Type 0
AreReady bufsize [] = Unit
AreReady bufsize (none ∷ ss) = ⊥
AreReady bufsize (some d ∷ ss) = IsValid bufsize d × (d.write_size ≡ 0) × AreReady bufsize ss

-- Every `kmalloc` of a buffer succeeds.
abbrev pub Grants : ℕ → Kernel → Type 0
Grants bufsize k =
    (i : ℕ) → (x : ℕ) × (xs : List ℕ) × (k.buffer i ≡ some (x ∷ xs)) × (bufsize ≤ suc (length xs))

setup_from_lem :
    (bufsize : ℕ) (k : Kernel) (i n : ℕ)
    → Grants bufsize k
    → (slots : List Slot) × (setup_from k.buffer i n ≡ some slots)
      × (length slots ≡ n)
      × AreReady bufsize slots
unfolding setup_from terminate
setup_from_lem bufsize k i zero g = ([], refl, refl, tt)
setup_from_lem bufsize k i (suc n) g =
    let (x, xs, e, le) = g i in
    let (slots, rest, len, ready) = setup_from_lem bufsize k (suc i) n g in
    (
      some (record { buf = 0 ∷ xs; write_size = 0 }) ∷ slots,
      ground (arith, e, rest),
      ap suc len,
      (omega arith, refl, ready),
    )

-- What stands in memory after the buffers have been set up.
abbrev pub Loaded : (bufsize nr_devs : ℕ) → Module → Type 0
Loaded bufsize nr_devs m =
    (slots : List Slot) × (m.devs ≡ some slots) × (length slots ≡ nr_devs) × AreReady bufsize slots

-- `simple_char_init` when the buffers are granted, by what the registration answers.
init-eq :
    (nr_devs : ℕ) (k : Kernel) (m : Module) (slots : List Slot)
    → k.array ≡ true
    → setup_from k.buffer 0 nr_devs ≡ some slots
    → init nr_devs k m ≡ elim k.registered [
      | none ↦ ok (done 0) (record {
        devs = some slots;
        major = if m.major == 0 then k.dev_major else m.major;
        region = true;
        cdevs = add_from k.added 0 nr_devs;
      })
      | some e ↦
          ok
            (fail e)
            (record m { devs = some slots; major = if m.major == 0 then k.dev_major else m.major })
    ]
unfolding init
init-eq nr_devs k m slots got e = ground arith

module _ (bufsize nr_devs : ℕ) (k : Kernel) (m : Module) (got : k.array ≡ true)
    (g : Grants bufsize k) where
  -- If the array and all buffers are granted and the registration succeeds, `simple_char_init`
  -- returns 0 with `nr_devs` empty, valid devices and the region registered.
  pub init_succeeds :
      k.registered ≡ none
      → Ends
          (λ r m'. (r ≡ done 0) × (m'.region ≡ true) × Loaded bufsize nr_devs m')
          (init nr_devs k m)
  init_succeeds reg =
      let (slots, e, len, ready) = setup_from_lem bufsize k 0 nr_devs g in
      rw (init-eq nr_devs k m slots got e, reg) (refl, refl, (slots, refl, len, ready))

  -- If they are granted and the registration fails, `simple_char_init` returns that error and the
  -- array and every buffer stay allocated, although the module is not loaded: a leak.
  init_leaks :
      (error : Errno)
      → k.registered ≡ some error
      → Ends
          (λ r m'. (r ≡ fail error) × (m'.region ≡ m.region) × Loaded bufsize nr_devs m')
          (init nr_devs k m)
  init_leaks error reg =
      let (slots, e, len, ready) = setup_from_lem bufsize k 0 nr_devs g in
      rw (init-eq nr_devs k m slots got e, reg) (refl, refl, (slots, refl, len, ready))

all_freed-free_bufs : (slots : List Slot) → all_freed (free_bufs slots) ≡ true
unfolding all_freed free_bufs
all_freed-free_bufs [] = refl
all_freed-free_bufs (s ∷ ss) = all_freed-free_bufs ss

-- While the array is there, `simple_char_exit` frees every buffer before the array, and leaves no
-- array, no character device and no region behind.
pub exit_lem :
    (m : Module) (slots : List Slot)
    → m.devs ≡ some slots
    → Ends
        (λ freed m'. (freed ≡ true) × (m'.devs ≡ none) × (m'.region ≡ false) × (m'.cdevs ≡ []))
        (exit m)
unfolding exit
exit_lem m slots e = rw (exit-eq, all_freed-free_bufs slots) (refl, refl, refl, refl)
  where
    exit-eq :
        exit m
        ≡ ok (all_freed (free_bufs slots)) (record m { devs = none; region = false; cdevs = [] })
    exit-eq = ground arith
