-- ===== src/SimpleChar/Files.antt =====
-- old/hello.c, the files that are open on the devices: `simple_char_open` picks the device of the
-- minor number, and reads and writes go to that device.
use mathlib.Core.Path.{subst}
use mathlib.Core.Logic.{if_pos, if_neg}
use kernel_module_memo.Base.{
  ℕ, ◌<◌, ◌≡◌, refl, ◌≢◌, Option, none, some, arith, ℕ_discrete, ◌∙◌, sym, ap,
}
use kernel_module_memo.Base.Family.{update}
use kernel_module_memo.Kernel.Run.{
  Ret, done, Run, ok, oops, Cmd, Ends, pure, then_run-Ends, Ends-map, ◌>>=◌,
}
use kernel_module_memo.Kernel.Uaccess.{Uaccess}
use kernel_module_memo.SimpleChar.{Dev, read, write}
use kernel_module_memo.SimpleChar.Transfer.{IsValid, write-IsValid, read_lem}

-- The devices `simple_char_devs`, and `private_data` of each file.
pub record Files : Type 0 where
  pub devs : ℕ → Dev
  pub private_data : ℕ → Option ℕ

-- `simple_char_open` of file `f`: `container_of(inode->i_cdev)`, where the kernel has found the
-- device with this minor number.
unfoldable pub open_file : (f minor : ℕ) → Cmd Files Ret
open_file f minor s = ok (done 0) (record s { private_data = update s.private_data f (some minor) })

-- A handler on the device of file `f`.
abbrev pub on_dev : {A : Type 0} → Option ℕ → Cmd Dev A → Cmd Files A
on_dev none c s = oops
on_dev (some i) c s = elim (c (s.devs i)) [
  | oops ↦ oops
  | ok a dev ↦ ok a (record s { devs = update s.devs i dev })
]

module _ (u : Uaccess) where
  open u use {User}

  unfoldable pub read_file : (f : ℕ) → User → (count : ℕ) → Cmd Files (Ret × User)
  read_file f buf count s = on_dev (s.private_data f) (read u buf count) s

  unfoldable pub write_file : (bufsize f : ℕ) → User → (count : ℕ) → Cmd Files Ret
  write_file bufsize f buf count s = on_dev (s.private_data f) (write u bufsize buf count) s

-- All devices, of 0 to `n - 1`, are as `IsValid` says, and all open files are on one of them.
pub record IsServed (bufsize n : ℕ) (s : Files) : Type 0 where
  pub devs_valid : (i : ℕ) → i < n → IsValid bufsize (s.devs i)
  pub in_range : (f i : ℕ) → s.private_data f ≡ some i → i < n

-- A system call on the devices.
pub data Call (User : Type 0) : Type 0 where
  opens : (f minor : ℕ) → Call User
  reads : (f : ℕ) → User → (count : ℕ) → Call User
  writes : (f : ℕ) → User → (count : ℕ) → Call User

module _ (u : Uaccess) (bufsize : ℕ) where
  abbrev pub serve : Call u.User → Cmd Files (Unit {0})
  serve (opens f minor) = open_file f minor >>= λ _. pure tt
  serve (reads f buf count) = read_file u f buf count >>= λ _. pure tt
  serve (writes f buf count) = write_file u bufsize f buf count >>= λ _. pure tt

-- A file is opened on one of `n` devices, or is open.
abbrev pub IsAllowed : {User : Type 0} → ℕ → Files → Call User → Type 0
IsAllowed n s (opens f minor) = minor < n
IsAllowed n s (reads f buf count) = (i : ℕ) × (s.private_data f ≡ some i)
IsAllowed n s (writes f buf count) = (i : ℕ) × (s.private_data f ≡ some i)

-- The device that a call may change.
abbrev pub changed : {User : Type 0} → Files → Call User → Option ℕ
changed s (opens f minor) = none
changed s (reads f buf count) = none
changed s (writes f buf count) = s.private_data f

module _ {A : Type 0} (bufsize n i : ℕ) (s : Files) (inv : IsServed bufsize n s) where
  -- A handler that keeps its device valid keeps them all so, and leaves the others as they are.
  on_dev-IsServed :
      (P : Dev → Type 0) (c : Cmd Dev A)
      → Ends (λ _ dev. IsValid bufsize dev × P dev) (c (s.devs i))
      → Ends
          (λ _ t. IsServed bufsize n t × P (t.devs i) × ((j : ℕ) → j ≢ i → t.devs j ≡ s.devs j))
          (on_dev (some i) c s)
  on_dev-IsServed P c h = kept (c (s.devs i)) h
    where
      kept :
          (r : Run Dev A)
          → Ends (λ _ dev. IsValid bufsize dev × P dev) r
          → Ends
              (λ _ t. IsServed bufsize n t × P (t.devs i) × ((j : ℕ) → j ≢ i → t.devs j ≡ s.devs j))
              (elim r [ oops ↦ oops | ok a dev ↦ ok a (record s { devs = update s.devs i dev }) ])
      kept oops h = absurd h
      kept (ok a dev) h =
          let here : dev ≡ update s.devs i dev i = ground arith in
          (
            record {
              devs_valid = λ j lt. elim (ℕ_discrete i j) [
                | yes same ↦ rw (if_pos _ same) h.0
                | no other ↦ rw (if_neg _ other) (inv.devs_valid j lt)
              ];
              in_range = inv.in_range;
            },
            subst P here h.1,
            λ j ne. ground arith,
          )

module _ (u : Uaccess) (bufsize n : ℕ) (s : Files) (inv : IsServed bufsize n s) where
  -- What a call leaves, when it is on device `i`, of which `P` says more.
  abbrev After : (P : Dev → Type 0) (i : ℕ) → Files → Type 0
  After P i t = IsServed bufsize n t × P (t.devs i) × ((j : ℕ) → j ≢ i → t.devs j ≡ s.devs j)

  read_file-IsServed :
      (f i : ℕ) (buf : u.User) (count : ℕ)
      → s.private_data f ≡ some i
      → Ends (λ _. After (λ dev. dev ≡ s.devs i) i) (read_file u f buf count s)
  unfolding read_file
  read_file-IsServed f i buf count e =
      let v : IsValid bufsize (s.devs i) = inv.devs_valid i (inv.in_range f i e) in
      rw e (
        on_dev-IsServed bufsize n i s inv (λ dev. dev ≡ s.devs i) (read u buf count)
          (Ends-map _ _ (read u buf count (s.devs i))
            (λ r dev h. (subst (IsValid bufsize) (sym h.0) v, h.0))
            (read_lem u bufsize buf count (s.devs i) v)))

  write_file-IsServed :
      (f i : ℕ) (buf : u.User) (count : ℕ)
      → s.private_data f ≡ some i
      → Ends (λ _. After (λ dev. Unit {0}) i) (write_file u bufsize f buf count s)
  unfolding write_file
  write_file-IsServed f i buf count e = rw e (
      on_dev-IsServed bufsize n i s inv (λ dev. Unit) (write u bufsize buf count)
        (Ends-map _ _ (write u bufsize buf count (s.devs i)) (λ r dev h. (h, tt))
          (write-IsValid u bufsize buf count (s.devs i) (inv.devs_valid i (inv.in_range f i e)))))

  -- With all devices valid and all open files on one of `n` devices, an `open` of a minor number
  -- below `n`, and a `read` or `write` of an open file, whatever its count, ends without a fault
  -- and keeps it so; and no device changes but the one of the file that is written.
  pub calls_apart :
      (c : Call u.User)
      → IsAllowed n s c
      → Ends
          (λ _ t. IsServed bufsize n t × ((j : ℕ) → changed s c ≢ some j → t.devs j ≡ s.devs j))
          (serve u bufsize c s)
  unfolding open_file
  calls_apart (opens f minor) lt = (
    record { devs_valid = inv.devs_valid; in_range = λ g i e. ground (arith, inv.in_range g i) },
    λ j ne. refl,
  )
  calls_apart (reads f buf count) (i, e) =
      then_run-Ends (λ _. After (λ dev. dev ≡ s.devs i) i) _ _ _
        (read_file-IsServed f i buf count e)
        (λ _ t h. (
          h.0,
          λ j ne. elim (ℕ_discrete j i) [
            | yes same ↦ subst (λ k. t.devs k ≡ s.devs k) (sym same) h.1
            | no other ↦ h.2 j other
          ],
        ))
  calls_apart (writes f buf count) (i, e) =
      then_run-Ends (λ _. After (λ dev. Unit {0}) i) _ _ _ (write_file-IsServed f i buf count e)
        (λ _ t h. (h.0, λ j ne. h.2 j (λ same. ne (e ∙ ap some (sym same)))))
