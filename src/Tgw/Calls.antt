-- ===== src/Tgw/Calls.antt =====
-- Any sequence of reads and writes of the device of old/simple.c, by any clients.
use kernel_module_memo.Base.{
  ℕ, ◌≡◌, ap, Bool, true, false, Bool-cases, ◌||◌, List, [], ◌∷◌, ltb, arith, inl, inr,
}
use kernel_module_memo.Kernel.Run.{Run, ok, oops, Cmd, pure, Ends, Ends-map, then_run, ◌>>◌}
use kernel_module_memo.Kernel.Uaccess.{Uaccess}
use kernel_module_memo.Tgw.{Tgw, buf_size, read, write}
use kernel_module_memo.Tgw.Reading.{IsValid, read-IsValid, write_lem}

-- A call of one of the two operations, with the user's buffer.
pub data Call (User : Type 0) : Type 0 where
  reads writes : (buf : User) (count : ℕ) → Call User

-- A write is longer than `k_buf`.
abbrev pub has_overrun : {User : Type 0} → List (Call User) → Bool
has_overrun [] = false
has_overrun (reads buf count ∷ calls) = has_overrun calls
has_overrun (writes buf count ∷ calls) = ltb buf_size count || has_overrun calls

abbrev pub EndsUnless : Bool → Run Tgw (Unit {0}) → Type 0
EndsUnless true r = r ≡ oops
EndsUnless false r = Ends (λ _. IsValid) r

module _ (u : Uaccess) where
  open u use {User}

  pub run : List (Call User) → Cmd Tgw (Unit {0})
  unfolding read write
  run [] = pure tt
  run (reads buf count ∷ calls) = read u buf count >> run calls
  run (writes buf count ∷ calls) = write u buf count >> run calls

  after_call :
      {A : Type 0} (overrun : Bool) (r : Run Tgw A) (calls : List (Call User))
      → Ends (λ _. IsValid) r
      → ((s : Tgw) → IsValid s → EndsUnless overrun (run calls s))
      → EndsUnless overrun (then_run r (λ _. run calls))
  after_call overrun oops calls valid rest = absurd valid
  after_call overrun (ok a s) calls valid rest = rest s valid

  by_write :
      (overrun : Bool) (buf : User) (count : ℕ) (calls : List (Call User)) (s : Tgw)
      → IsValid s
      → ((s' : Tgw) → IsValid s' → EndsUnless overrun (run calls s'))
      → EndsUnless (ltb buf_size count || overrun) (then_run (write u buf count s) (λ _. run calls))
  by_write overrun buf count calls s v rest = elim (Bool-cases (ltb buf_size count)) [
    | inl e ↦
        rw e (ap (λ r. then_run r (λ _. run calls)) ((write_lem u buf count s v).1 (ground arith)))
    | inr e ↦ rw e (
        after_call overrun (write u buf count s) calls
          (Ends-map _ (λ _. IsValid) _ (λ r s' h. h.1)
            ((write_lem u buf count s v).0 (ground arith)))
          rest)
  ]

  -- On a valid device, any sequence of reads and writes, of whatever counts, faults if it has a write
  -- of more than 1024 bytes, and else ends without a fault and leaves the device valid: with its buffer
  -- whole, and `data_size` at most 1024.
  pub run_lem :
      (calls : List (Call User)) (s : Tgw)
      → IsValid s
      → EndsUnless (has_overrun calls) (run calls s)
  unfolding run
  run_lem [] s v = v
  run_lem (reads buf count ∷ calls) s v =
      after_call (has_overrun calls) (read u buf count s) calls
        (Ends-map _ (λ _. IsValid) _ (λ r s' h. h.0) (read-IsValid u buf count s v)) (run_lem calls)
  run_lem (writes buf count ∷ calls) s v =
      by_write (has_overrun calls) buf count calls s v (run_lem calls)
