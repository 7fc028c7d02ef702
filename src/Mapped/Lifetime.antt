-- ===== src/Mapped/Lifetime.antt =====
-- What opening and closing a file of old/vmm.c leaves behind.
use kernel_module_memo.Base.{
  ℕ, suc, ◌+◌, ◌≤◌, ◌≡◌, refl, ap, ◌∙◌, true, Option, none, some, List, ◌++◌, length,
  length-replicate, replicate, take, drop, arith,
}
use kernel_module_memo.Base.Family.{update}
use kernel_module_memo.Kernel.Run.{done, ok, Ends, then_run, ◌>>◌}
use kernel_module_memo.Kernel.Heap.{Ptr, put, IsFresh, SameObjects}
use kernel_module_memo.Mapped.{Info, Page, World, at, page_size, memcpy, set_data}
use kernel_module_memo.Mapped.Vmm.{open_file, release, asdf}

pub memcpy_at :
    (offset : ℕ) (text : List ℕ) (p : Ptr) (page : Page) (w : World)
    → w.pages.cell p ≡ some page
    → offset + length text ≤ length page.bytes
    → memcpy offset text (some p) (at w.pages (some p)) w
      ≡ ok tt (record w {
        pages = put w.pages p (
            some (record page {
              bytes = take offset page.bytes ++ (text ++ drop (offset + length text) page.bytes);
            }));
      })
memcpy_at offset text p page w e h = ground arith

pub set_at :
    (i : Ptr) (info : Info) (page : Option Ptr) (w : World)
    → w.infos.cell i ≡ some info
    → set_data (some i) (at w.infos (some i)) page w
      ≡ ok tt (record w { infos = put w.infos i (some (record info { page_data = page })) })
set_at i info page w e = ground arith

pub release_lem :
    (w : World) (i p : Ptr) (info : Info) (page : Page)
    → w.private_data ≡ some i
    → w.infos.cell i ≡ some info
    → info.page_data ≡ some p
    → w.pages.cell p ≡ some page
    → page.refs ≡ 1
    → release w
      ≡ ok
          (done 0)
          (record w { infos = put w.infos i none; pages = put w.pages p none; private_data = none })
unfolding release
release_lem w i p info page a b c d e = ground arith

abbrev pub zeroed : Page
zeroed = record { bytes = replicate page_size 0; refs = 1 }

-- A new info and a new page.
abbrev pub allocated : Info → World → World
allocated junk w = record w {
  infos = record { next = suc w.infos.next; cell = update w.infos.cell w.infos.next (some junk) };
  pages = record { next = suc w.pages.next; cell = update w.pages.cell w.pages.next (some zeroed) };
}

-- With the info pointing to the page.
abbrev pub attached : Info → World → World
attached junk w =
    let v = allocated junk w in
    record v {
      infos = put v.infos w.infos.next (some (record junk { page_data = some w.pages.next }));
    }

abbrev pub filled : Info → World → Page → World
filled junk w page =
    let v = attached junk w in
    record v { pages = put v.pages w.pages.next (some page); private_data = some w.infos.next }

unfoldable pub with_asdf : Page
with_asdf = record zeroed {
  bytes = take 0 zeroed.bytes ++ (asdf ++ drop (0 + length asdf) zeroed.bytes);
}

pub zeroed_length : length zeroed.bytes ≡ page_size
zeroed_length = length-replicate {A = ℕ} page_size 0

pub asdf_refs : with_asdf.refs ≡ 1
unfolding with_asdf
asdf_refs = refl

pub open_lem :
    (junk : Info) (w : World) → open_file true true junk w ≡ ok (done 0) (filled junk w with_asdf)
unfolding open_file with_asdf
open_lem junk w =
    ap
      (λ r.
        then_run
          (then_run r
            (λ _. λ v. memcpy 0 asdf (some w.pages.next) (at v.pages (some w.pages.next)) v))
          (λ _. λ v. ok (done 0) (record v { private_data = some w.infos.next })))
      (set_at w.infos.next junk (some w.pages.next) (allocated junk w) (ground arith))
    ∙ ap (λ r. then_run r (λ _. λ v. ok (done 0) (record v { private_data = some w.infos.next })))
        (memcpy_at 0 asdf w.pages.next zeroed (attached junk w) (ground arith)
          (omega (arith, zeroed_length)))

-- `open` and then `release` of old/vmm.c end with 0, and leave the objects and the pages from
-- before, when the kernel grants both allocations, at new addresses.
pub open-release :
    (junk : Info) (w : World)
    → IsFresh w.infos
    → IsFresh w.pages
    → Ends
        (λ r w'.
          (r ≡ done 0)
          × SameObjects w.infos w'.infos
          × SameObjects w.pages w'.pages
          × (w'.private_data ≡ none))
        ((open_file true true junk >> release) w)
open-release junk w fresh_i fresh_p =
    let v = filled junk w with_asdf in
    let whole : (open_file true true junk >> release) w
        ≡ ok (done 0) (record v {
          infos = put v.infos w.infos.next none;
          pages = put v.pages w.pages.next none;
          private_data = none;
        }) =
      ap (λ r. then_run r (λ _. release)) (open_lem junk w)
      ∙ release_lem v w.infos.next w.pages.next (record junk { page_data = some w.pages.next })
          with_asdf refl (ground arith) refl (ground arith) asdf_refs in
    rw whole (refl, λ q. ground (arith, fresh_i q), λ q. ground (arith, fresh_p q), refl)
