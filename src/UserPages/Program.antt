-- ===== src/UserPages/Program.antt =====
-- get_user_pages/user_sample.c, on the device of get_user_pages/sample.c.
use kernel_module_memo.Base.{
  ℕ, ◌+◌, ◌≡◌, refl, ap, ◌∙◌, Bool, true, false, Option, none, some, List, [], ◌∷◌, ◌++◌, drop,
  if◌then◌else◌, arith,
}
use kernel_module_memo.Kernel.Run.{Run, then_run, ok, oops, Cmd, pure, Errno, ◌>>◌}
use kernel_module_memo.UserPages.{
  Space, Got, pinned, nothing, failed, mohan, sample_write, use_page,
}
use kernel_module_memo.Usr.Stdio.{c_string}

-- "krishna"
abbrev pub krishna : List ℕ
krishna = b'k' ∷ b'r' ∷ b'i' ∷ b's' ∷ b'h' ∷ b'n' ∷ b'a' ∷ []

-- `memcpy(ptr, "krishna", strlen("krishna"))`, without the 0 behind the string.
abbrev pub copy_krishna : Cmd Space (Unit {0})
copy_krishna s = ok tt (record s { bytes = krishna ++ drop 7 s.bytes })

-- `printf("data is %s\n", ptr)`: the text that it prints.
abbrev pub print : Option (List ℕ) → Cmd Space (List ℕ)
print none s = oops
print (some text) s = ok text s

-- `main`, whose `fd` is used also where `open` fails, and which uses `ptr` also where
-- `posix_memalign` fails. It returns what it prints; the page holds what it may at first.
unfoldable pub main : (opens aligns : Bool) → Got → Cmd Space (List ℕ)
unfolding sample_write c_string
main opens aligns got =
    if aligns
    then copy_krishna
      >> (if opens then sample_write got >> pure tt else pure tt)
      >> (λ s. print (c_string s.bytes) s)
    else λ s. oops

-- A run in which the device has not written: the string goes on in what the page held behind it, and
-- the reading runs out of the page where that has no 0.
abbrev pub runs_on : Option (List ℕ) → Space → Run Space (List ℕ)
runs_on none s = oops
runs_on (some text) s = ok (krishna ++ text) (record s { bytes = krishna ++ drop 7 s.bytes })

runs_on_lem :
    (s : Space) (o : Option (List ℕ))
    → c_string (drop 7 s.bytes) ≡ o
    → print (c_string (krishna ++ drop 7 s.bytes)) (record s { bytes = krishna ++ drop 7 s.bytes })
      ≡ runs_on o s
unfolding c_string
runs_on_lem s none e = rw e refl
runs_on_lem s (some text) e = rw e refl

-- What the device makes of the page.
abbrev pub rewritten : Option (List ℕ) → Space → Run Space (List ℕ)
rewritten none s = oops
rewritten (some text) s =
    ok mohan (record s { bytes = mohan ++ 0 ∷ b'a' ∷ drop 7 s.bytes; kmaps = s.kmaps + 1 })

pinned_lem :
    (s : Space) (o : Option (List ℕ))
    → c_string (drop 7 s.bytes) ≡ o
    → main true true pinned s ≡ rewritten o s
unfolding main sample_write use_page c_string
pinned_lem s none e = ground arith
pinned_lem s (some text) e = ground arith

-- With the page pinned, the program prints "Mohan", and leaves the references and the semaphore as
-- they were, if what the page held from its eighth byte on has a 0; and else it faults. Where
-- `get_user_pages` pins none, or `open` fails, it prints "krishna" and behind it what the page held
-- from its eighth byte on, up to a 0, and faults where there is none. It faults where
-- `get_user_pages` fails, and where there is no page.
pub program_prints :
    (s : Space)
    → (main true true pinned s ≡ rewritten (c_string (drop 7 s.bytes)) s)
      × (main true true nothing s ≡ runs_on (c_string (drop 7 s.bytes)) s)
      × ((got : Got) → main false true got s ≡ runs_on (c_string (drop 7 s.bytes)) s)
      × ((e : Errno) → main true true (failed e) s ≡ oops)
      × ((opens : Bool) (got : Got) → main opens false got s ≡ oops)
unfolding main
program_prints s = (
  pinned_lem s _ refl,
  ap (λ r. then_run r (λ _ t. print (c_string t.bytes) t)) (unwritten s) ∙ runs_on_lem s _ refl,
  λ got. runs_on_lem s _ refl,
  λ e. refl,
  λ opens got. refl,
)
  where
    unwritten :
        (s : Space)
        → (copy_krishna >> (sample_write nothing >> pure tt)) s
          ≡ ok tt (record s { bytes = krishna ++ drop 7 s.bytes })
    unwritten s = ground arith
