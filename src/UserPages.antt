-- ===== src/UserPages.antt =====
-- get_user_pages/sample.c: `sample_write`, which writes to the page of a user's buffer.
pub mod Program
mod Tests
use kernel_module_memo.Base.{
  ℕ, ◌+◌, ◌-◌, ◌≡◌, refl, Option, none, some, List, [], ◌∷◌, ◌++◌, drop, arith,
}
use kernel_module_memo.Kernel.Run.{Ret, done, Errno, ok, oops, Cmd, ◌>>=◌}
use kernel_module_memo.Usr.Stdio.{c_string}

-- The semaphore of the address space, the page that `buf` lies in, and how many mappings of it
-- `kmap` has made.
pub record Space : Type 0 where
  pub readers : ℕ
  pub bytes : List ℕ
  pub refs : ℕ
  pub kmaps : ℕ

-- What `get_user_pages` returns: 1, 0, or an error, for which it sets no `page`.
pub data Got : Type 0 where
  pinned nothing : Got
  failed : (error : Errno) → Got

-- "Mohan"
abbrev pub mohan : List ℕ
mohan = b'M' ∷ b'o' ∷ b'h' ∷ b'a' ∷ b'n' ∷ []

abbrev pub down_read : Cmd Space (Unit {0})
down_read s = ok tt (record s { readers = s.readers + 1 })

abbrev pub up_read : Cmd Space (Unit {0})
up_read s = ok tt (record s { readers = s.readers - 1 })

-- `get_user_pages` takes a reference to the page that it gives.
abbrev pub get_user_pages : Got → Cmd Space (Unit {0})
get_user_pages pinned s = ok tt (record s { refs = s.refs + 1 })
get_user_pages nothing s = ok tt s
get_user_pages (failed e) s = ok tt s

-- `strcpy` to the start of the page, and `put_page`, behind a `printk` of the page as a string, which
-- leaves the page where it has no 0.
abbrev pub overwritten : Option (List ℕ) → Cmd Space (Unit {0})
overwritten none s = oops
overwritten (some printed) s =
    ok tt (record s { bytes = mohan ++ 0 ∷ drop 6 s.bytes; refs = s.refs - 1; kmaps = s.kmaps + 1 })

-- The branch `if (res)`, which begins with `kmap`. After an error, `page` is not set.
unfoldable pub use_page : Got → Cmd Space (Unit {0})
unfolding c_string
use_page pinned s = overwritten (c_string s.bytes) s
use_page nothing s = ok tt s
use_page (failed e) s = oops

-- `sample_write`, of which `buf` and `count` do not matter.
unfoldable pub sample_write : Got → Cmd Space Ret
unfolding use_page
sample_write got = do
  _ ← down_read
  _ ← get_user_pages got
  _ ← use_page got
  _ ← up_read
  λ s. ok (done 0) s

-- When `get_user_pages` pins the page, and the page holds a 0, `sample_write` stores "Mohan" at its
-- start, wherever `buf` lies in it, and leaves the other bytes, the references and the semaphore as
-- they were, but one mapping more; when the page holds no 0, it faults; when it pins none, nothing changes; and when it fails, the error counts as a page,
-- and the write through it is a fault.
pub sample_write_lem :
    (s : Space)
    → ((text : List ℕ)
        → c_string s.bytes ≡ some text
        → sample_write pinned s
          ≡ ok (done 0) (record s { bytes = mohan ++ 0 ∷ drop 6 s.bytes; kmaps = s.kmaps + 1 }))
      × (c_string s.bytes ≡ none → sample_write pinned s ≡ oops)
      × (sample_write nothing s ≡ ok (done 0) s)
      × ((e : Errno) → sample_write (failed e) s ≡ oops)
unfolding sample_write
sample_write_lem s = (λ text e. ground arith, λ e. ground arith, ground arith, λ e. refl)
