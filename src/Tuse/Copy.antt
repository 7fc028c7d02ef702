-- ===== src/Tuse/Copy.antt =====
-- Copying between the kernel and the user's pages: `struct tuse_copy_state` of old/tuse/dev.c.
pub mod Whole
use kernel_module_memo.Base.{
  ℕ, zero, suc, ◌+◌, ◌-◌, ◌%◌, ◌^◌, Bool, true, false, Option, none, some, List, [], ◌∷◌, ◌++◌,
  drop, take, min, if◌then◌else◌, ◌==◌,
}
use kernel_module_memo.Kernel.Run.{Errno, Run, ok, oops, Cmd}

abbrev pub page_size : ℕ
page_size = 4096

-- A page of user memory, by a number of its own.
abbrev pub Page : Type 0
Page = ℕ

-- `struct tuse_copy_state`, where `currbuf` is the `len` of the pipe buffer that it points to, and
-- `iter` is the iterator of user memory, which is the kernel's.
pub record Cursor (Iter : Type 0) : Type 0 where
  pub write : Bool
  pub iter : Iter
  pub currbuf : Option ℕ
  pub pg : Option Page
  pub len : ℕ
  pub offset : ℕ

-- What the copies have done: the bytes stored into user pages and those taken from them, in their
-- order, with page, offset and size of each `memcpy`, the lengths given to pipe buffers, and the
-- pages that have been marked dirty and released.
pub record Log : Type 0 where
  pub stored : List ℕ
  pub taken : List ℕ
  pub memcpys : List (Page × ℕ × ℕ)
  pub buf_lens : List ℕ
  pub dirtied : List Page
  pub released : List Page

pub record Copy (Iter : Type 0) : Type 0 where
  pub cursor : Cursor Iter
  pub log : Log

-- How a loop on fuel ends: with the fuel, or with the result of the function.
pub data Loop : Type 0 where
  out_of_fuel : Loop
  finished : (error : Option Errno) → Loop

-- `tuse_copy_init`
abbrev pub copy_init : {Iter : Type 0} → Bool → Iter → Cursor Iter
copy_init write iter = record {
  write = write;
  iter = iter;
  currbuf = none;
  pg = none;
  len = 0;
  offset = 0;
}

finish_page : Option Page → Bool → Log → Log
finish_page none write l = l
finish_page (some pg) true l = record l { dirtied = pg ∷ l.dirtied; released = pg ∷ l.released }
finish_page (some pg) false l = record l { released = pg ∷ l.released }

-- The `memcpy` of `tuse_copy_do`; `load` is what the user's page has there.
transfer : (Page → (offset size : ℕ) → List ℕ) → Bool → Page → ℕ → ℕ → List ℕ → Log → Log
transfer load true pg offset ncpy val l = record l {
  stored = l.stored ++ take ncpy val;
  memcpys = (pg, offset, ncpy) ∷ l.memcpys;
}
transfer load false pg offset ncpy val l = record l {
  taken = l.taken ++ load pg offset ncpy;
  memcpys = (pg, offset, ncpy) ∷ l.memcpys;
}

module _ {Iter : Type 0} where
  -- `tuse_copy_finish`
  unfoldable pub copy_finish : Copy Iter → Copy Iter
  unfolding finish_page
  copy_finish s = elim s.cursor.currbuf [
    | some buf ↦ record s {
      cursor = record s.cursor { currbuf = none; pg = none };
      log =
          if s.cursor.write
          then record s.log {
            buf_lens = ((page_size + 2 ^ 32 - s.cursor.len) % 2 ^ 32) ∷ s.log.buf_lens;
          }
          else s.log;
    }
    | none ↦ record s {
      cursor = record s.cursor { pg = none };
      log = finish_page s.cursor.pg s.cursor.write s.log;
    }
  ]

  module _ (load : Page → (offset size : ℕ) → List ℕ) where
    -- `tuse_copy_do`, where `val` is not NULL: the new `*val` and `*size`. Without a page it is a
    -- fault. The field `offest` is read as `offset`.
    unfoldable pub copy_do : List ℕ → ℕ → Cmd (Copy Iter) (List ℕ × ℕ)
    unfolding transfer
    copy_do val size s = elim s.cursor.pg [
      | none ↦ oops
      | some pg ↦
          let c = s.cursor in
          let ncpy = min size c.len in
          ok (drop ncpy val, size - ncpy)
            (record {
              cursor = record c { len = c.len - ncpy; offset = (c.offset + ncpy) % 2 ^ 32 };
              log = transfer load c.write pg c.offset ncpy val s.log;
            })
    ]

    module _ (fill : Cursor Iter → Option Errno × Cursor Iter) where
      -- `if (!cs->len)`, where `fill` is `tuse_copy_fill`, which no file defines.
      filled : Cursor Iter → Option Errno × Cursor Iter
      filled c = if c.len == 0 then fill c else (none, c)

      -- `tuse_copy_one`
      unfoldable pub copy_one : ℕ → List ℕ → ℕ → Cmd (Copy Iter) Loop
      unfolding copy_do filled
      copy_one fuel val zero s = ok (finished none) s
      copy_one zero val (suc n) s = ok out_of_fuel s
      copy_one (suc fuel) val (suc n) s =
          let f = filled s.cursor in
          elim f.0 [
            | some e ↦ ok (finished (some e)) (record s { cursor = f.1 })
            | none ↦ elim (copy_do val (suc n) (record s { cursor = f.1 })) [
              | oops ↦ oops
              | ok r s' ↦ copy_one fuel r.0 r.1 s'
            ]
          ]
