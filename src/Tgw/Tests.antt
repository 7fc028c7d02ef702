-- ===== src/Tgw/Tests.antt =====
-- The `tgw` theorems at concrete devices: the data "abcd" read by twos, and by threes.
use kernel_module_memo.Base.{ℕ, ◌≡◌, refl, List, [], ◌∷◌, replicate, arith}
use kernel_module_memo.Kernel.Run.{Run, ok}
use kernel_module_memo.Kernel.Uaccess.{Flat, flat, to_flat}
use kernel_module_memo.Tgw.{Tgw, read}
use kernel_module_memo.Tgw.Reading.{IsValid}
use kernel_module_memo.Tgw.Calls.{Call, reads, writes, has_overrun, EndsUnless, run, run_lem}

abbrev user : Flat
user = record { limit = 2000; at = λ i. 65 }

abbrev four : Tgw
four = record { k_buf = 97 ∷ 98 ∷ 99 ∷ 100 ∷ replicate 1020 0; data_size = 4; all_read = 0 }

four-IsValid : IsValid four
four-IsValid = record { whole = refl; held = omega arith }

-- Reads of any length between writes that fit.
abbrev calls : List (Call Flat)
calls = writes user 3 ∷ reads user 2000 ∷ reads user 2 ∷ writes user 1024 ∷ reads user 0 ∷ []

run_lem_example : EndsUnless (has_overrun calls) (run flat calls four)
run_lem_example = run_lem flat calls four four-IsValid

-- The second read of two bytes gives "ab" once more.
again : Run Tgw (ℕ × Flat)
again = read flat user 2 (record four { all_read = 2 })

again_ok : again ≡ ok (2, (to_flat user four.k_buf 2).0) (record four { all_read = 4 })
unfolding again read
again_ok = refl
