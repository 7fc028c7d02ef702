-- ===== src/Usr/Mm.antt =====
-- old/usr/mm.c, on the device of old/mma.c.
pub mod Name
pub mod Session
use kernel_module_memo.Base.{
  ℕ, zero, suc, ◌+◌, ◌≤◌, ◌<◌, ◌≡◌, refl, Bool, true, if◌then◌else◌, Option, none, some, List,
  ℕ_discrete, arith,
}
use kernel_module_memo.Base.Family.{update}
use kernel_module_memo.Kernel.Run.{Ret, done, ok, Cmd, Ends, pure, ◌>>=◌, ◌>>◌}
use kernel_module_memo.Kernel.Heap.{Ptr}
use kernel_module_memo.Kernel.Uaccess.{Uaccess}
use kernel_module_memo.Mapped.{Info, Page, World}
use kernel_module_memo.Mapped.Mma.{
  Grants, prepare, unless_open, strlen, copy_string, t_read, mmapfop_open, mmapfop_close, my_mmap,
  close_mapping,
}

abbrev pub loop : ℕ
loop = 4096

-- What `main` returns when the device cannot be opened, as the exit status of the program.
abbrev pub failed : ℕ
failed = 255

-- `__mmap`, which maps the page unless it has done so: `count` with what the mapping holds, if any.
unfoldable pub mmap_once : Option (Option Ptr) → Cmd World (Option (Option Ptr))
mmap_once none = my_mmap >>= λ vma. pure (some vma)
mmap_once (some vma) = pure (some vma)

-- The first loop of `main`
unfoldable pub mmap_times : (times : ℕ) → Option (Option Ptr) → Cmd World (Option (Option Ptr))
unfolding mmap_once
mmap_times zero mapping = pure mapping
mmap_times (suc n) mapping = mmap_once mapping >>= mmap_times n

-- The end of the mapping, when the program exits.
abbrev pub unmap : Option (Option Ptr) → Cmd World (Unit {0})
unmap none = pure tt
unmap (some vma) = close_mapping vma

module _ (u : Uaccess) (g : Grants) (junk : Info) (name : List ℕ) where
  -- `__read`: what `read` returns is looked at only to print a message.
  unfoldable pub read_once : u.User → Cmd World (Unit {0})
  read_once buf = do _ ← t_read u g junk name buf 4096; pure tt

  -- The second loop of `main`; the stack buffer holds what it may each time.
  unfoldable pub read_times : (bufs : ℕ → u.User) (times : ℕ) → Cmd World (Unit {0})
  read_times bufs zero = pure tt
  read_times bufs (suc n) = read_times bufs n >>= λ _. read_once (bufs n)

  -- `main` from the open of the file on, with `times` turns of its loops: at the exit the mapping
  -- ends and the file is closed.
  unfoldable pub session : (bufs : ℕ → u.User) (times : ℕ) → Cmd World Ret
  unfolding read_times mmap_times
  session bufs times = mmapfop_open g junk name >> mmap_times times none >>= λ mapping.
      (read_times bufs times >> unmap mapping >> mmapfop_close)

  -- `main`, where `found` says whether there is a device to open.
  unfoldable pub main : (found : Bool) (bufs : ℕ → u.User) → Cmd World Ret
  unfolding session
  main found bufs = if found then session bufs loop else pure (done failed)

-- The file is open, with its info and a page that holds a string.
pub record IsOpen (w : World) : Type 0 where
  pub i : Ptr
  pub info : Info
  pub p : Ptr
  pub page : Page
  pub len : ℕ
  pub private_lem : w.private_data ≡ some i
  pub info_lem : w.infos.cell i ≡ some info
  pub data_lem : info.page_data ≡ some p
  pub page_lem : w.pages.cell p ≡ some page
  pub strlen_lem : strlen page.bytes ≡ some len
  pub below : i < w.infos.next

-- `n` infos more than in `w`, which nothing points to.
abbrev pub leaked : Info → ℕ → World → World
leaked junk zero w = w
leaked junk (suc n) w =
    let v = leaked junk n w in
    record v {
      infos = record {
        next = suc v.infos.next;
        cell = update v.infos.cell v.infos.next (some junk);
      };
    }

pub leaked-next :
    (junk : Info) (n : ℕ) (w : World) → (leaked junk n w).infos.next ≡ n + w.infos.next
leaked-next junk zero w = omega arith
leaked-next junk (suc n) w = omega (arith, leaked-next junk n w)

pub leaked-IsOpen : (junk : Info) (n : ℕ) (w : World) → IsOpen w → IsOpen (leaked junk n w)
leaked-IsOpen junk zero w h = h
leaked-IsOpen junk (suc n) w h =
    let k = leaked-IsOpen junk n w h in
    record {
      i = k.i;
      info = k.info;
      p = k.p;
      page = k.page;
      len = k.len;
      private_lem = k.private_lem;
      info_lem = ground (arith, k.info_lem, k.below);
      data_lem = k.data_lem;
      page_lem = k.page_lem;
      strlen_lem = k.strlen_lem;
      below = omega (arith, k.below);
    }

pub leaked-new :
    (junk : Info) (n : ℕ) (w : World) (q : Ptr)
    → w.infos.next ≤ q
    → q < n + w.infos.next
    → (leaked junk n w).infos.cell q ≡ some junk
leaked-new junk zero w q ge lt = absurd (omega arith)
leaked-new junk (suc n) w q ge lt = elim (ℕ_discrete ((leaked junk n w).infos.next) q) [
  | yes last ↦ ground arith
  | no before ↦
      ground (
        arith,
        leaked-next junk n w,
        leaked-new junk n w q ge (omega (arith, leaked-next junk n w)),
      )
]

pub leaked-old :
    (junk : Info) (n : ℕ) (w : World)
    → ((q : Ptr) → q < w.infos.next → (leaked junk n w).infos.cell q ≡ w.infos.cell q)
      × ((leaked junk n w).pages ≡ w.pages)
      × ((leaked junk n w).private_data ≡ w.private_data)
leaked-old junk zero w = (λ q lt. refl, refl, refl)
leaked-old junk (suc n) w =
    let (cells, pages, data_of) = leaked-old junk n w in
    (λ q lt. ground (arith, leaked-next junk n w, cells q lt), pages, data_of)

module _ (u : Uaccess) (g : Grants) (junk : Info) (name : List ℕ) (granted : g.first ≡ true) where
  read_once_lem :
      (buf : u.User) (w : World)
      → IsOpen w
      → read_once u g junk name buf w ≡ ok tt (leaked junk 1 w)
  unfolding read_once t_read prepare unless_open copy_string
  read_once_lem buf w h = ground (
    arith,
    granted,
    h.private_lem,
    (leaked-IsOpen junk 1 w h).info_lem,
    h.info_lem,
    h.data_lem,
    h.page_lem,
    h.strlen_lem,
    h.below,
  )

  pub read_times_lem :
      (bufs : ℕ → u.User) (n : ℕ) (w : World)
      → IsOpen w
      → read_times u g junk name bufs n w ≡ ok tt (leaked junk n w)
  unfolding read_times
  read_times_lem bufs zero w h = refl
  read_times_lem bufs (suc n) w h =
      rw (read_times_lem bufs n w h)
        (read_once_lem (bufs n) (leaked junk n w) (leaked-IsOpen junk n w h))

  -- While `kmalloc` succeeds, each `read` of an open file of old/mma.c, whose page holds a string,
  -- leaks an info: any number of reads ends without a fault, with as many objects more, which
  -- nothing points to, and with the objects from before, the pages and `private_data` as they were.
  reads_leak :
      (bufs : ℕ → u.User) (times : ℕ) (w : World)
      → IsOpen w
      → Ends
          (λ _ t.
            (t.infos.next ≡ times + w.infos.next)
            × ((q : Ptr) → w.infos.next ≤ q → q < times + w.infos.next → t.infos.cell q ≡ some junk)
            × ((q : Ptr) → q < w.infos.next → t.infos.cell q ≡ w.infos.cell q)
            × (t.pages ≡ w.pages)
            × (t.private_data ≡ w.private_data))
          (read_times u g junk name bufs times w)
  reads_leak bufs times w h =
      let (cells, pages, private_data) = leaked-old junk times w in
      rw (read_times_lem bufs times w h)
        (leaked-next junk times w, leaked-new junk times w, cells, pages, private_data)
