-- ===== src/SimpleChar/Tests.antt =====
-- The `simple_char` theorems at concrete devices and kernels.
use kernel_module_memo.Base.{
  ℕ, ◌≡◌, refl, ◌≢◌, ℕ_discrete, true, false, Option, none, some, [], ◌∷◌, take, min, arith, ◌⊎◌,
}
use kernel_module_memo.Kernel.Run.{Errno, done, fail, efault, ok, Ends}
use kernel_module_memo.Kernel.Uaccess.{Flat, flat, from_flat, bytes_from, to_flat, nth}
use kernel_module_memo.SimpleChar.{Dev, write, read, write_length, read_length}
use kernel_module_memo.SimpleChar.Transfer.{read_lem, read-write}
use kernel_module_memo.Base.Family.{update}
use kernel_module_memo.SimpleChar.Files.{Files, IsServed, writes, changed, serve, calls_apart}
use kernel_module_memo.SimpleChar.Lifecycle.{Module, Kernel}
use kernel_module_memo.SimpleChar.Lifecycle.Outcomes.{Grants}

abbrev fresh : Dev
fresh = record { buf = 0 ∷ 0 ∷ 0 ∷ 0 ∷ []; write_size = 0 }

abbrev user : Flat
user = record { limit = 100; at = λ i. 7 }

-- One byte is offered, and four are taken and reported.
write_one :
    write flat 4 user 1 fresh ≡ ok (done 4) (record { buf = 7 ∷ 7 ∷ 7 ∷ 7 ∷ []; write_size = 4 })
unfolding write write_length from_flat bytes_from
write_one = refl

abbrev full : Dev
full = record { buf = 7 ∷ 7 ∷ 7 ∷ 7 ∷ []; write_size = 4 }

read_lem_example :
    Ends
      (λ (r, buf') dev'.
        (dev' ≡ fresh)
        × ((r ≡ fail efault)
            ⊎ ((r ≡ done (min 9 0)) × (bytes_from buf'.at 0 (min 9 0) ≡ take (min 9 0) fresh.buf))))
      (read flat user 9 fresh)
read_lem_example = read_lem flat 4 user 9 fresh (omega arith)

read_back : read flat user 9 full ≡ ok (done 4, record { limit = 100; at = nth full.buf }) full
unfolding read read_length to_flat
read_back = refl

read-write_example : (◌≡◌ {A = ℕ} 4 4) × (bytes_from (nth full.buf) 0 4 ≡ bytes_from user.at 0 4)
read-write_example =
    read-write flat 4 user user 1 9 4 4 fresh full full _ (omega arith) (omega arith) (omega arith)
      write_one read_back

abbrev kernel : Option Errno → Kernel
kernel r = record {
  array = true;
  buffer = λ i. some (9 ∷ 9 ∷ []);
  registered = r;
  dev_major = 240;
  added = λ i. true;
}

abbrev unloaded : Module
unloaded = record { devs = none; major = 0; region = false; cdevs = [] }

grants : Grants 2 (kernel none)
grants i = (9, 9 ∷ [], refl, omega arith)

-- Two devices, and file 3 on the second of them.
abbrev files : Files
files = record { devs = λ i. fresh; private_data = update (λ f. none) 3 (some 1) }

files-IsServed : IsServed 4 2 files
files-IsServed = record { devs_valid = λ i lt. omega arith; in_range = λ f i e. ground arith }

calls_apart_example :
    Ends
      (λ _ t.
        IsServed 4 2 t
        × ((j : ℕ) → changed files (writes 3 user 1) ≢ some j → t.devs j ≡ files.devs j))
      (serve flat 4 (writes 3 user 1) files)
unfolding ℕ_discrete
calls_apart_example = calls_apart flat 4 2 files files-IsServed (writes 3 user 1) (1, refl)
