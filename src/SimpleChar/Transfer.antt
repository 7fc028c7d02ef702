-- ===== src/SimpleChar/Transfer.antt =====
-- Reads and writes of `simple_char`: memory safety, what comes back, and what the count does.
use kernel_module_memo.Base.{
  ℕ, ◌≤◌, ◌<◌, ◌≡◌, refl, List, [], ◌∷◌, ◌++◌, ap, min, Bool-cases, false, inl, inr, ◌⊎◌, zero, suc,
  length, take, drop, ltb, ◌==◌, arith, length-append, length-drop,
}
use kernel_module_memo.Kernel.Run.{done, fail, efault, ok, Ends}
use kernel_module_memo.Kernel.Uaccess.{Uaccess}
use kernel_module_memo.SimpleChar.{Dev, read_length, write_length, read, write}

-- The buffer has room for what `write` may store, and holds what `read` may return.
pub record IsValid (bufsize : ℕ) (dev : Dev) : Type 0 where
  pub room : bufsize ≤ length dev.buf
  pub filled : dev.write_size ≤ length dev.buf

take_prefix : (n : ℕ) (xs ys : List ℕ) → length xs ≡ n → take n (xs ++ ys) ≡ xs
take_prefix zero [] ys h = refl
take_prefix zero (x ∷ xs) ys h = absurd (omega arith)
take_prefix (suc n) [] ys h = absurd (omega arith)
take_prefix (suc n) (x ∷ xs) ys h = rw (take_prefix n xs ys (omega arith))

-- A valid device never makes a handler touch a byte outside of its buffer.
write_length-le :
    (bufsize count : ℕ) (dev : Dev)
    → IsValid bufsize dev
    → write_length bufsize count dev ≤ length dev.buf
unfolding write_length
write_length-le bufsize count dev v = ground arith

read_length-le :
    (bufsize count : ℕ) (dev : Dev)
    → IsValid bufsize dev
    → (read_length count dev ≤ length dev.buf) × (read_length count dev ≤ count)
unfolding read_length
read_length-le bufsize count dev v = ground arith

module _ (u : Uaccess) where
  open u use {
    User, bytes, copy_from_user, copy_to_user, length-bytes, length-copy_from_user, from_all,
    to_all,
  }

  -- If a device's buffer has at least `bufsize` bytes and its `write_size` is within the buffer,
  -- then `simple_char_write` ends without a fault and leaves such a device, whatever the count and
  -- whether or not the copy from user memory succeeds.
  pub write-IsValid :
      (bufsize : ℕ) (buf : User) (count : ℕ) (dev : Dev)
      → IsValid bufsize dev
      → Ends (λ _ dev'. IsValid bufsize dev') (write u bufsize buf count dev)
  unfolding write
  write-IsValid bufsize buf count dev v =
      let n = write_length bufsize count dev in
      let fits = write_length-le bufsize count dev v in
      let inside : ltb (length dev.buf) n ≡ false = ground arith in
      let same = length-copy_from_user dev.buf buf n fits in
      elim (Bool-cases ((copy_from_user dev.buf buf n).1 == 0)) [
        | inl e ↦ rw (inside, e) (omega arith)
        | inr e ↦ rw (inside, e) (omega arith)
      ]

  -- On a valid device `simple_char_read` ends without a fault and leaves the device as it is. It
  -- fails with `-EFAULT`, or returns the smaller of the count and `write_size` and has put that many
  -- first bytes of the buffer into user memory.
  pub read_lem :
      (bufsize : ℕ) (buf : User) (count : ℕ) (dev : Dev)
      → IsValid bufsize dev
      → Ends
          (λ (r, buf') dev'.
            (dev' ≡ dev)
            × ((r ≡ fail efault)
                ⊎ ((r ≡ done (min count dev.write_size))
                    × (bytes buf' (min count dev.write_size)
                        ≡ take (min count dev.write_size) dev.buf))))
          (read u buf count dev)
  unfolding read
  read_lem bufsize buf count dev v =
      let n = read_length count dev in
      let fits = (read_length-le bufsize count dev v).0 in
      let least : n ≡ min count dev.write_size = unfold read_length in ground arith in
      let inside : ltb (length dev.buf) n ≡ false = ground arith in
      elim (Bool-cases ((copy_to_user buf dev.buf n).1 == 0)) [
        | inl e ↦
            rw (inside, e)
              (refl, inr (ap done least, rw (← least) (to_all buf dev.buf n fits (ground arith))))
        | inr e ↦ rw (inside, e) (refl, inl refl)
      ]

  -- What a successful `simple_char_write` returns and records does not depend on how many bytes the
  -- caller offers: it is all of `bufsize` when the count is at most that, so more than the caller
  -- offered when the count is less, and the old `write_size` when the count is greater.
  pub write_ignores_count :
      (bufsize : ℕ) (buf : User) (count n : ℕ) (dev dev' : Dev)
      → write u bufsize buf count dev ≡ ok (done n) dev'
      → (dev'.write_size ≡ n)
        × (count ≤ bufsize → n ≡ bufsize)
        × (bufsize < count → n ≡ dev.write_size)
  unfolding write write_length
  write_ignores_count bufsize buf count n dev dev' h = ground arith

  stored :
      (bufsize : ℕ) (from : User) (count n : ℕ) (dev dev' : Dev)
      → bufsize ≤ length dev.buf
      → count ≤ bufsize
      → write u bufsize from count dev ≡ ok (done n) dev'
      → (dev'.buf ≡ bytes from bufsize ++ drop bufsize dev.buf) × (dev'.write_size ≡ bufsize)
  unfolding write write_length
  stored bufsize from count n dev dev' room le w =
      ground (arith, from_all dev.buf from bufsize room)

  fetched :
      (to to' : User) (count m : ℕ) (dev dev' : Dev)
      → dev.write_size ≤ count
      → dev.write_size ≤ length dev.buf
      → read u to count dev ≡ ok (done m, to') dev'
      → (m ≡ dev.write_size) × (bytes to' dev.write_size ≡ take dev.write_size dev.buf)
  unfolding read read_length
  fetched to to' count m dev dev' le fits r =
      ground (arith, to_all to dev.buf dev.write_size fits, to_all to dev.buf count)

  -- What a successful `simple_char_write` of at most `bufsize` bytes to a valid device has stored,
  -- a successful `simple_char_read` of at least `bufsize` bytes gives back: the first `bufsize`
  -- bytes behind the writer's pointer.
  pub read-write :
      (bufsize : ℕ) (from to : User) (count count' n m : ℕ) (dev dev' dev'' : Dev) (to' : User)
      → IsValid bufsize dev
      → count ≤ bufsize
      → bufsize ≤ count'
      → write u bufsize from count dev ≡ ok (done n) dev'
      → read u to count' dev' ≡ ok (done m, to') dev''
      → (m ≡ bufsize) × (bytes to' bufsize ≡ bytes from bufsize)
  read-write bufsize from to count count' n m dev dev' dev'' to' v le ge w r =
      let (holds, size) = stored bufsize from count n dev dev' v.room le w in
      let long : length dev'.buf ≡ length dev.buf = omega (
        arith,
        ap length holds,
        length-append (bytes from bufsize) (drop bufsize dev.buf),
        length-bytes from bufsize,
        length-drop bufsize dev.buf,
        v.room,
      ) in
      let (count_is, got) = fetched to to' count' m dev' dev'' (omega arith) (omega arith) r in
      let prefix =
        take_prefix bufsize (bytes from bufsize) (drop bufsize dev.buf)
          (length-bytes from bufsize) in
      ground (arith, prefix)
