-- ===== src/Usr/Kure.antt =====
-- old/usr/kure.c, which writes a line to the device of old/simple.c (a node with its major number is
-- made by hand), and a client that reads the device behind it.
use kernel_module_memo.Base.{
  ℕ, ◌^◌, ◌%◌, ◌≤◌, ◌<◌, ◌≡◌, refl, ap, ◌∙◌, Bool, true, Option, none, some, List, [], ◌∷◌, ◌++◌,
  length, take, drop, length-append, length-drop, append_assoc, if◌then◌else◌, ◌==◌, arith,
}
use kernel_module_memo.Kernel.Run.{Ret, done, fail, eperm, ok, oops, Cmd, Ends, pure, ◌>>=◌, ◌>>◌}
use kernel_module_memo.Kernel.Uaccess.{Uaccess}
use kernel_module_memo.Usr.Stdio.{
  c_string, line, fgets, IsText, c_string_text, length-line, line_some,
}
use kernel_module_memo.Tgw.{Tgw, buf_size, read, write}
use kernel_module_memo.Tgw.Reading.{IsValid}

module _ (u : Uaccess) where
  open u use {User, bytes}

  -- `fprintf(fp, "%s", ch)` and `fclose(fp)`: the text is written at once when the file is closed,
  -- from stdio's buffer, and an empty text is not.
  abbrev print : (List ℕ → User) → Option (List ℕ) → Cmd Tgw (Unit {0})
  print buffer none = λ s. oops
  print buffer (some text) =
      if length text == 0 then pure tt else write u (buffer text) (length text) >> pure tt

  -- `ch` behind `fgets`, which leaves it alone where it returns NULL.
  abbrev pub filled : (ch : List ℕ) → Option (List ℕ) → List ℕ
  filled ch none = ch
  filled ch (some stored) = stored ++ drop (length stored) ch

  -- `main`, for what `fopen` answers, the input, and what lies in `ch` at first.
  unfoldable pub main :
      (buffer : List ℕ → User) (opens : Bool) (stdin : List ℕ) (ch : List ℕ) → Cmd Tgw Ret
  unfolding fgets c_string
  main buffer opens stdin ch =
      if opens
      then print buffer (c_string (filled ch (fgets 100 stdin))) >> pure (done 0)
      else pure (fail eperm)

  -- A client that reads twice with the same count, as `cat` does.
  unfoldable pub cat : User → ℕ → Cmd Tgw ((ℕ × User) × ℕ)
  cat buf count =
      read u buf count >>= λ first. read u first.1 count >>= λ second. pure (first, second.0)

take_all : (xs ys : List ℕ) → take (length xs) (xs ++ ys) ≡ xs
take_all [] ys = refl
take_all (x ∷ xs) ys = ap (◌∷◌ x) (take_all xs ys)

-- The device behind the program, and behind the first read.
abbrev holding : List ℕ → Tgw → Tgw
holding text s = record s {
  k_buf = text ++ drop (length text) s.k_buf;
  data_size = length text % 2 ^ 32;
}

module _ (u : Uaccess) where
  open u use {User, bytes, copy_from_user, copy_to_user, from_all, to_all}

  -- The copies between the kernel and the two programs succeed, and stdio's buffer holds the text.
  abbrev pub Delivers : (List ℕ → User) → User → List ℕ → Type 0
  Delivers buffer buf text =
      (bytes (buffer text) (length text) ≡ text)
      × ((to : List ℕ) → (copy_from_user to (buffer text) (length text)).1 ≡ 0)
      × ((from : List ℕ) → (copy_to_user buf from (length text)).1 ≡ 0)

  stores :
      (buffer : List ℕ → User) (buf : User) (text : List ℕ) (s : Tgw)
      → Delivers buffer buf text
      → IsValid s
      → length text ≤ 99
      → write u (buffer text) (length text) s ≡ ok (length text) (holding text s)
  unfolding write
  stores buffer buf text s (holds, from, to) v le =
      let stored : (copy_from_user s.k_buf (buffer text) (length text)).0
          ≡ text ++ drop (length text) s.k_buf =
        from_all s.k_buf (buffer text) (length text) (omega (arith, v.whole)) (from s.k_buf)
        ∙ ap (λ t. t ++ drop (length text) s.k_buf) holds in
      ground (arith, v.whole, stored)

  module _ (buffer : List ℕ → User) (buf : User) (c : ℕ) (cs ch : List ℕ) where
    abbrev text : List ℕ
    text = line 99 (c ∷ cs)

    printed : IsText text → c_string (filled u ch (fgets 100 (c ∷ cs))) ≡ some text
    unfolding fgets
    printed h =
        ap c_string (append_assoc text (0 ∷ []) (drop (length (text ++ 0 ∷ [])) ch))
        ∙ c_string_text text (drop (length (text ++ 0 ∷ [])) ch) h

    main_lem :
        (s : Tgw)
        → Delivers buffer buf text
        → IsText text
        → IsValid s
        → main u buffer true (c ∷ cs) ch s ≡ ok (done 0) (holding text s)
    unfolding main
    main_lem s d h v =
        let written = stores buffer buf text s d v (length-line 99 (c ∷ cs)) in
        rw (printed h) (ground (arith, written, line_some 98 c cs))

    text-length :
        (s : Tgw)
        → IsValid s
        → (0 < length text) × (length text ≤ 99) × (length (holding text s).k_buf ≡ buf_size)
    text-length s v = (
      line_some 98 c cs,
      length-line 99 (c ∷ cs),
      omega (
        arith,
        v.whole,
        length-line 99 (c ∷ cs),
        length-append text (drop (length text) s.k_buf),
        length-drop (length text) s.k_buf,
      ),
    )

    first_read :
        (count : ℕ) (s : Tgw)
        → IsValid s
        → s.all_read ≡ 0
        → 99 ≤ count
        → read u buf count (holding text s)
          ≡ ok
              (length text, (copy_to_user buf (holding text s).k_buf (length text)).0)
              (record (holding text s) { all_read = length text })
    unfolding read
    first_read count s v start le = ground (arith, text-length s v)

    second_read :
        (count : ℕ) (s : Tgw) (user : User)
        → IsValid s
        → read u user count (record (holding text s) { all_read = length text })
          ≡ ok (0, user) (record (holding text s) { all_read = 0 })
    unfolding read
    second_read count s user v = ground (arith, text-length s v)

    cat_lem :
        (count : ℕ) (s : Tgw)
        → IsValid s
        → s.all_read ≡ 0
        → 99 ≤ count
        → cat u buf count (holding text s)
          ≡ ok
              ((length text, (copy_to_user buf (holding text s).k_buf (length text)).0), 0)
              (record (holding text s) { all_read = 0 })
    unfolding cat
    cat_lem count s v start le =
        rw (first_read count s v start le) (rw (second_read count s _ v) refl)

    -- The program stores the first line of its input, which is cut off behind 99 bytes, in a valid
    -- device whose counter is 0; a client that reads with a count of 99 or more then gets exactly
    -- this line, and then the 0 that marks the end, and the device is valid with its counter at 0
    -- again. The input is not empty, the line holds no byte 0, and the copies succeed.
    pub main-cat :
        (count : ℕ) (s : Tgw)
        → Delivers buffer buf text
        → IsText text
        → IsValid s
        → s.all_read ≡ 0
        → 99 ≤ count
        → Ends
            (λ ((n, user), at_end) t.
              (n ≡ length text)
              × (bytes user (length text) ≡ text)
              × (at_end ≡ 0)
              × IsValid t
              × (t.all_read ≡ 0))
            ((main u buffer true (c ∷ cs) ch >> cat u buf count) s)
    main-cat count s d h v start le =
        let (some_text, short, whole) = text-length s v in
        rw (main_lem s d h v) (
          rw (cat_lem count s v start le) (
            refl,
            to_all buf (holding text s).k_buf (length text) (omega arith)
                  (d.2 (holding text s).k_buf)
                ∙ take_all text (drop (length text) s.k_buf),
            refl,
            record { whole = whole; held = omega arith },
            refl,
          ))
