-- ===== src/Tgw/Reading.antt =====
-- What clients of `tgw` get: memory safety, end of file, and the overflow on a long write.
use kernel_module_memo.Base.{
  false, ℕ, zero, suc, ◌+◌, ◌*◌, ◌%◌, ◌^◌, ◌≤◌, ◌<◌, ◌≡◌, ◌≢◌, refl, ◌∙◌, ap, sym, List, [], ◌∷◌,
  ◌++◌, length, take, replicate, ltb, arith, min,
}
use native.Mathlib.Nat.{mul-mod_right}
use kernel_module_memo.Kernel.Run.{Run, ok, oops, Cmd, Ends}
use kernel_module_memo.Kernel.Uaccess.{Uaccess}
use kernel_module_memo.Tgw.{Tgw, buf_size, read, write}

pub record IsValid (s : Tgw) : Type 0 where
  pub whole : length s.k_buf ≡ buf_size
  pub held : s.data_size ≤ buf_size

abbrev counted : List ℕ → Tgw → ℕ → Run Tgw (List ℕ)
counted rs s k = ok rs (record s { all_read = k })

module _ (u : Uaccess) where
  open u use {User, bytes, copy_from_user, copy_to_user, length-copy_from_user, to_all}

  -- With the buffer whole and `data_size` at most its size, `tgw_write` of at most 1024 bytes ends
  -- without a fault, returns the count, keeps the buffer whole and sets `data_size` to the count; it
  -- leaves `all_read` as it was. A longer write is a fault: it overruns `k_buf`.
  pub write_lem :
      (buf : User) (count : ℕ) (s : Tgw)
      → IsValid s
      → (count ≤ buf_size
          → Ends
              (λ r s'.
                (r ≡ count) × IsValid s' × (s'.data_size ≡ count) × (s'.all_read ≡ s.all_read))
              (write u buf count s))
        × (buf_size < count → write u buf count s ≡ oops)
  unfolding write
  write_lem buf count s v = (λ le. accepted le, λ gt. ground arith)
    where
      accepted :
          count ≤ buf_size
          → Ends
              (λ r s'.
                (r ≡ count) × IsValid s' × (s'.data_size ≡ count) × (s'.all_read ≡ s.all_read))
              (write u buf count s)
      accepted le =
          let inside : ltb (length s.k_buf) count ≡ false = ground arith in
          rw inside (ground (arith, length-copy_from_user s.k_buf buf count))

  -- With the buffer whole and `data_size` at most its size, `tgw_read` ends without a fault,
  -- keeps both so, and returns at most the count and at most `data_size`.
  pub read-IsValid :
      (buf : User) (count : ℕ) (s : Tgw)
      → IsValid s
      → Ends (λ (r, _) s'. IsValid s' × (r ≤ count) × (r ≤ s.data_size)) (read u buf count s)
  unfolding read
  read-IsValid buf count s v = ground arith

  -- One read that is not at the end.
  read_chunk :
      (buf : User) (c : ℕ) (s : Tgw)
      → IsValid s
      → c ≤ s.data_size
      → s.all_read ≢ s.data_size
      → read u buf c s
        ≡ ok (c, (copy_to_user buf s.k_buf c).0) (record s { all_read = (s.all_read + c) % 2 ^ 32 })
  unfolding read
  read_chunk buf c s v le ne = ground arith

  read_end :
      (buf : User) (c : ℕ) (s : Tgw)
      → s.all_read ≡ s.data_size
      → read u buf c s ≡ ok (0, buf) (record s { all_read = 0 })
  unfolding read
  read_end buf c s e = ground arith

  -- What `n` calls of `tgw_read` with the same count return, one after the other.
  pub reads : ℕ → User → ℕ → Cmd Tgw (List ℕ)
  reads zero buf count s = ok [] s
  reads (suc n) buf count s = elim (read u buf count s) [
    | oops ↦ oops
    | ok (r, buf') s' ↦ elim (reads n buf' count s') [ oops ↦ oops | ok rs s'' ↦ ok (r ∷ rs) s'' ]
  ]

  reads-zero : (buf : User) (c : ℕ) (s : Tgw) → reads zero buf c s ≡ ok [] s
  unfolding reads
  reads-zero buf c s = refl

  reads-suc :
      (n : ℕ) (buf buf' : User) (c r : ℕ) (rs : List ℕ) (s s' s'' : Tgw)
      → read u buf c s ≡ ok (r, buf') s'
      → reads n buf' c s' ≡ ok rs s''
      → reads (suc n) buf c s ≡ ok (r ∷ rs) s''
  unfolding reads
  reads-suc n buf buf' c r rs s s' s'' e h = ground arith

  -- The chunks up to the end of the data, and the 0 that ends them.
  reads_to_end :
      (n : ℕ) (buf : User) (c : ℕ) (s : Tgw)
      → IsValid s
      → 0 < c
      → s.all_read + c * n ≡ s.data_size
      → reads (suc n) buf c s ≡ ok (replicate n c ++ 0 ∷ []) (record s { all_read = 0 })
  reads_to_end zero buf c s v pos end =
      reads-suc 0 buf buf c 0 [] s _ _ (read_end buf c s (omega arith)) (reads-zero buf c _)
  reads_to_end (suc n) buf c s v pos end =
      let more : 0 < c * suc n = grind arith in
      let split : c * suc n ≡ c + c * n = omega arith in
      let next : (s.all_read + c) % 2 ^ 32 + c * n ≡ s.data_size = omega (arith, v.held) in
      reads-suc (suc n) buf _ c c _ s _ _ (read_chunk buf c s v (omega arith) (omega arith)) (
        reads_to_end n _ c (record s { all_read = (s.all_read + c) % 2 ^ 32 })
          (record { whole = v.whole; held = v.held }) pos next)

  -- The reads while `all_read` stays off `data_size`.
  reads_on :
      (n : ℕ) (buf : User) (c i : ℕ) (s : Tgw)
      → IsValid s
      → c ≤ s.data_size
      → s.data_size % c ≢ 0
      → s.all_read ≡ c * i
      → c * (i + n) < 2 ^ 32
      → reads n buf c s ≡ ok (replicate n c) (record s { all_read = c * (i + n) })
  reads_on zero buf c i s v le odd at room = reads-zero buf c s ∙ ap (counted [] s) (omega arith)
  reads_on (suc n) buf c i s v le odd at room =
      let off : s.all_read ≢ s.data_size =
        λ e. odd (ap (λ k. k % c) (sym e ∙ at) ∙ mul-mod_right c i) in
      let next : (s.all_read + c) % 2 ^ 32 ≡ c * suc i = omega arith in
      reads-suc n buf _ c c _ s _ _ (read_chunk buf c s v le off) (
        reads_on n _ c (suc i) (record s { all_read = (s.all_read + c) % 2 ^ 32 })
          (record { whole = v.whole; held = v.held }) le odd next (omega arith)
        ∙ ap (counted (replicate n c) s) (omega arith))

  -- A client that reads with a count `c` above 0 that divides `data_size`, starting with `all_read`
  -- 0 on a valid device, gets `data_size / c` chunks of `c` bytes and then the 0 that marks the end,
  -- and the device is as before.
  pub reads_end :
      (buf : User) (c n : ℕ) (s : Tgw)
      → IsValid s
      → 0 < c
      → s.all_read ≡ 0
      → c * n ≡ s.data_size
      → reads (suc n) buf c s ≡ ok (replicate n c ++ 0 ∷ []) s
  reads_end buf c n s v pos start end =
      reads_to_end n buf c s v pos (omega arith)
      ∙ ap (counted (replicate n c ++ 0 ∷ []) s) (sym start)

  -- A client that reads a valid device with a count `c` that is at most `data_size` and does not
  -- divide it, starting with `all_read` 0, never gets the 0 that marks the end for as long as the
  -- counter does not wrap around: each of its `n` reads returns `c`.
  reads_no_end :
      (buf : User) (c n : ℕ) (s : Tgw)
      → IsValid s
      → c ≤ s.data_size
      → s.data_size % c ≢ 0
      → s.all_read ≡ 0
      → c * n < 2 ^ 32
      → reads n buf c s ≡ ok (replicate n c) (record s { all_read = c * n })
  reads_no_end buf c n s v le odd start room =
      reads_on n buf c 0 s v le odd (omega arith) (omega arith)
      ∙ ap (counted (replicate n c) s) (omega arith)

  -- Each successful `tgw_read` of a valid device that is not at the end puts the first bytes of
  -- `k_buf` into user memory, whatever has been read before.
  pub read_restarts :
      (buf buf' : User) (c r : ℕ) (s s' : Tgw)
      → IsValid s
      → s.all_read ≢ s.data_size
      → (copy_to_user buf s.k_buf (min c s.data_size)).1 ≡ 0
      → read u buf c s ≡ ok (r, buf') s'
      → (r ≡ min c s.data_size) × (bytes buf' r ≡ take r s.k_buf)
  unfolding read
  read_restarts buf buf' c r s s' v off copied h =
      ground (arith, to_all buf s.k_buf (min c s.data_size) (omega (arith, v.whole, v.held)))
