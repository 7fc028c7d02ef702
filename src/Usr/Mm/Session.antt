-- ===== src/Usr/Mm/Session.antt =====
-- A whole run of old/usr/mm.c.
use kernel_module_memo.Base.{
  ℕ, zero, suc, ◌+◌, ◌≤◌, ◌<◌, ◌≡◌, refl, ap, ◌∙◌, true, some, List, length, Option, none, arith,
}
use kernel_module_memo.Kernel.Run.{done, ok, Ends, pure, then_run, ◌>>◌}
use kernel_module_memo.Kernel.Heap.{Ptr, put, IsFresh, SameObjects}
use kernel_module_memo.Kernel.Uaccess.{Uaccess}
use kernel_module_memo.Mapped.{Info, World}
use kernel_module_memo.Mapped.Mma.{
  mmap_open, mmap_close, mmapfop_open, mmapfop_close, my_mmap, close_mapping,
}
use kernel_module_memo.Mapped.Opening.{
  named, named_refs, refilled, with_unused, all_granted, mma_open_lem, close_lem,
}
use kernel_module_memo.Usr.Mm.Name.{named_string}
use kernel_module_memo.Usr.Mm.{
  loop, main, session, mmap_once, mmap_times, unmap, read_times, IsOpen, leaked, leaked-next,
  leaked-old, leaked-new, read_times_lem,
}

mapped_once : (n : ℕ) (vma : Option Ptr) (w : World) → mmap_times n (some vma) w ≡ ok (some vma) w
unfolding mmap_times mmap_once
mapped_once zero vma w = refl
mapped_once (suc n) vma w = mapped_once n vma w

-- The state of a file that has been opened and mapped.
module _ (junk : Info) (name : List ℕ) (w : World) (short : length name ≤ 4063) where
  abbrev i : Ptr
  i = suc w.infos.next

  abbrev opened : World
  opened = refilled junk (with_unused junk w) (named name)

  abbrev counted : Info
  counted = mmap_open (record junk { page_data = some w.pages.next })

  abbrev mapped : World
  mapped = record opened { infos = put opened.infos i (some counted) }

  open_mapped :
      (n : ℕ)
      → w.private_data ≡ none
      → (mmapfop_open all_granted junk name >> mmap_times (suc n) none) w
        ≡ ok (some (some i)) mapped
  unfolding my_mmap mmap_times mmap_once
  open_mapped n none_open =
      let counts : my_mmap opened ≡ ok (some i) mapped = ground arith in
      ap (λ r. then_run r (λ _. mmap_times (suc n) none))
        (mma_open_lem junk name w none_open (omega (arith, short)))
      ∙ ap (λ r. then_run (then_run r (λ vma. pure (some vma))) (mmap_times n)) counts
      ∙ mapped_once n (some i) mapped

  mapped-IsOpen : w.private_data ≡ none → IsOpen mapped
  unfolding mmap_open
  mapped-IsOpen none_open = record {
    i = i;
    info = counted;
    p = w.pages.next;
    page = named name;
    len = (named_string name short).0;
    private_lem = refl;
    info_lem = ground arith;
    data_lem = refl;
    page_lem = ground arith;
    strlen_lem = (named_string name short).1;
    below = omega arith;
  }

  -- Behind `times` reads.
  abbrev ended : ℕ → World
  ended times =
      let v = leaked junk times mapped in
      record v { infos = put v.infos i (some (mmap_close counted)) }

  unmapped : (times : ℕ) → close_mapping (some i) (leaked junk times mapped) ≡ ok tt (ended times)
  unfolding close_mapping
  unmapped times =
      let (cells, pages, private) = leaked-old junk times mapped in
      let here : (leaked junk times mapped).infos.cell i ≡ some counted =
        cells i (omega arith) ∙ ground arith in
      rw here refl

  abbrev exited : ℕ → World
  exited times =
      let v = ended times in
      record v {
        infos = put v.infos i none;
        pages = put v.pages w.pages.next none;
        private_data = none;
      }

  closed : (times : ℕ) → mmapfop_close (ended times) ≡ ok (done 0) (exited times)
  unfolding mmap_open mmap_close
  closed times =
      let (cells, pages, private) = leaked-old junk times mapped in
      close_lem (ended times) i w.pages.next (mmap_close counted) (named name) private
        (ground arith) refl (ap (λ h. h.cell w.pages.next) pages ∙ ground arith) (named_refs name)

-- Behind a file that has been read `times` times and closed: which infos and pages are live.
abbrev pub Leaks : Info → (times : ℕ) → World → World → Type 0
Leaks junk times w t =
    (t.infos.next ≡ times + (2 + w.infos.next))
    × (t.infos.cell w.infos.next ≡ some junk)
    × (t.infos.cell (suc w.infos.next) ≡ none)
    × ((q : Ptr)
        → suc w.infos.next < q
        → q < times + (2 + w.infos.next)
        → t.infos.cell q ≡ some junk)
    × ((q : Ptr) → q < w.infos.next → t.infos.cell q ≡ w.infos.cell q)
    × SameObjects w.pages t.pages
    × (t.private_data ≡ none)

module _ (u : Uaccess) (junk : Info) (name : List ℕ) (w : World) (bufs : ℕ → u.User) where
  exited-Leaks :
      (short : length name ≤ 4063) (times : ℕ)
      → IsFresh w.pages
      → Leaks junk times w (exited junk name w short times)
  exited-Leaks short times fresh =
      let v = mapped junk name w short in
      let (cells, pages, private) = leaked-old junk times v in
      (
        leaked-next junk times v ∙ omega arith,
        ground (arith, cells w.infos.next),
        ground arith,
        λ q gt lt. ground (arith, leaked-new junk times v q),
        λ q lt. ground (arith, cells q),
        λ q. ground (arith, ap (λ h. h.cell q) pages, fresh q),
        refl,
      )

  session_lem :
      (n : ℕ)
      → w.private_data ≡ none
      → (short : length name ≤ 4063)
      → session u all_granted junk name bufs (suc n) w
        ≡ ok (done 0) (exited junk name w short (suc n))
  unfolding session
  session_lem n none_open short =
      let v = mapped junk name w short in
      ap
        (λ r. then_run r (λ mapping.
          (read_times u all_granted junk name bufs (suc n) >> unmap mapping >> mmapfop_close)))
        (open_mapped junk name w short n none_open)
      ∙ ap
          (λ r.
            then_run (then_run r (λ _. unmap (some (some (suc w.infos.next)))))
              (λ _. mmapfop_close))
          (read_times_lem u all_granted junk name refl bufs (suc n) v
            (mapped-IsOpen junk name w short none_open))
      ∙ ap (λ r. then_run r (λ _. mmapfop_close)) (unmapped junk name w short (suc n))
      ∙ closed junk name w short (suc n)

  session-Leaks :
      (n : ℕ)
      → IsFresh w.pages
      → w.private_data ≡ none
      → length name ≤ 4063
      → Ends
          (λ r t. (r ≡ done 0) × Leaks junk (suc n) w t)
          (session u all_granted junk name bufs (suc n) w)
  session-Leaks n fresh none_open short =
      rw (session_lem n none_open short) (refl, exited-Leaks short (suc n) fresh)

  -- When the program opens the device, maps a page, reads `loop` times and exits, on a file of old/mma.c without an
  -- info whose name leaves room for a zero byte, with all allocations granted and new pages at
  -- unused addresses, nothing faults and the close returns 0. All pages are those from before, and
  -- the info of the file is freed, but one info of the open and one of each read stay, besides
  -- those from before.
  pub main-Leaks :
      IsFresh w.pages
      → w.private_data ≡ none
      → length name ≤ 4063
      → Ends (λ r t. (r ≡ done 0) × Leaks junk loop w t) (main u all_granted junk name true bufs w)
  unfolding main
  main-Leaks fresh none_open short = session-Leaks 4095 fresh none_open short
