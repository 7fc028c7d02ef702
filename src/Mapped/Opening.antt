-- ===== src/Mapped/Opening.antt =====
-- What opening a file of old/mma.c makes, and what closing it leaves behind.
use kernel_module_memo.Base.{
  ℕ, suc, ◌+◌, ◌≤◌, ◌≡◌, refl, ap, ◌∙◌, true, none, some, List, ◌++◌, length, length-append,
  length-drop, take, drop, arith,
}
use kernel_module_memo.Base.Family.{update}
use kernel_module_memo.Kernel.Run.{done, Run, ok, pure, Ends, then_run, ◌>>◌}
use kernel_module_memo.Kernel.Heap.{Ptr, put, IsFresh, SameObjects}
use kernel_module_memo.Mapped.{Info, Page, World, at, page_size, memcpy}
use kernel_module_memo.Mapped.Lifetime.{
  memcpy_at, set_at, zeroed, allocated, attached, zeroed_length,
}
use kernel_module_memo.Mapped.Mma.{
  greeting, new_info, unless_open, Grants, mmapfop_open, mmapfop_close, prepare,
}

-- The world behind the first `kmalloc` of old/mma.c, which nothing will point to.
abbrev pub with_unused : Info → World → World
with_unused junk w = record w {
  infos = record { next = suc w.infos.next; cell = update w.infos.cell w.infos.next (some junk) };
}

unfoldable pub greeted : Page
greeted = record zeroed {
  bytes = take 0 zeroed.bytes ++ (greeting ++ drop (0 + length greeting) zeroed.bytes);
}

greeted_facts : (length greeted.bytes ≡ page_size) × (greeted.refs ≡ 1)
unfolding greeted
greeted_facts = (
  omega (
    arith,
    length-append greeting (drop 32 zeroed.bytes),
    length-drop 32 zeroed.bytes,
    zeroed_length,
  ),
  refl,
)

-- `filled`, when the page has been written twice.
abbrev pub refilled : Info → World → Page → World
refilled junk w page =
    let v = attached junk w in
    record v {
      pages = put (put v.pages w.pages.next (some greeted)) w.pages.next (some page);
      private_data = some w.infos.next;
    }

unfoldable pub named : List ℕ → Page
named name = record greeted {
  bytes = take 32 greeted.bytes ++ (name ++ drop (32 + length name) greeted.bytes);
}

abbrev pub all_granted : Grants
all_granted = record { first = true; second = true; page = true }

new_info_lem :
    (junk : Info) (name : List ℕ) (w : World)
    → length name ≤ 4064
    → new_info all_granted junk name w ≡ ok tt (refilled junk w (named name))
unfolding new_info greeted named
new_info_lem junk name w short =
    let i = w.infos.next in
    let p = w.pages.next in
    let v = attached junk w in
    let finish : Run World (Unit {0}) → Run World (Unit {0}) =
      λ r. then_run r (λ _. λ v'. ok tt (record v' { private_data = some i })) in
    let add_name : Run World (Unit {0}) → Run World (Unit {0}) =
      λ r. finish (then_run r (λ _. λ v'. memcpy 32 name (some p) (at v'.pages (some p)) v')) in
    ap
      (λ r. add_name (then_run r (λ _. λ v'. memcpy 0 greeting (some p) (at v'.pages (some p)) v')))
      (set_at i junk (some p) (allocated junk w) (ground arith))
    ∙ ap add_name (memcpy_at 0 greeting p zeroed v (ground arith) (omega (arith, zeroed_length)))
    ∙ ap finish (
        memcpy_at 32 name p greeted (record v { pages = put v.pages p (some greeted) })
          (ground arith) (omega (arith, greeted_facts.0)))

pub named_refs : (name : List ℕ) → (named name).refs ≡ 1
unfolding named greeted
named_refs name = refl

pub mma_open_lem :
    (junk : Info) (name : List ℕ) (w : World)
    → w.private_data ≡ none
    → length name ≤ 4064
    → mmapfop_open all_granted junk name w
      ≡ ok (done 0) (refilled junk (with_unused junk w) (named name))
unfolding mmapfop_open prepare unless_open
mma_open_lem junk name w none_open short =
    ap
      (λ o.
        then_run (unless_open all_granted junk name o (with_unused junk w)) (λ _. pure (done 0)))
      none_open
    ∙ ap (λ r. then_run r (λ _. pure (done 0))) (new_info_lem junk name (with_unused junk w) short)

pub close_lem :
    (w : World) (i p : Ptr) (info : Info) (page : Page)
    → w.private_data ≡ some i
    → w.infos.cell i ≡ some info
    → info.page_data ≡ some p
    → w.pages.cell p ≡ some page
    → page.refs ≡ 1
    → mmapfop_close w
      ≡ ok
          (done 0)
          (record w { infos = put w.infos i none; pages = put w.pages p none; private_data = none })
unfolding mmapfop_close
close_lem w i p info page a b c d e = ground arith

-- When a file of old/mma.c without an info, whose name fits into the page, is opened and closed
-- with all allocations granted at new addresses, both calls return 0, the pages are those from
-- before, and one info more than before is live: the one of the first `kmalloc`, which nothing
-- points to.
pub mmapfop_open_leaks :
    (junk : Info) (name : List ℕ) (w : World)
    → IsFresh w.infos
    → IsFresh w.pages
    → w.private_data ≡ none
    → length name ≤ 4064
    → Ends
        (λ r w'.
          (r ≡ done 0)
          × ((q : Ptr) → w'.infos.cell q ≡ update w.infos.cell w.infos.next (some junk) q)
          × SameObjects w.pages w'.pages)
        ((mmapfop_open all_granted junk name >> mmapfop_close) w)
mmapfop_open_leaks junk name w fresh_i fresh_p none_open short =
    let v = refilled junk (with_unused junk w) (named name) in
    let i = suc w.infos.next in
    let whole : (mmapfop_open all_granted junk name >> mmapfop_close) w
        ≡ ok (done 0) (record v {
          infos = put v.infos i none;
          pages = put v.pages w.pages.next none;
          private_data = none;
        }) =
      ap (λ r. then_run r (λ _. mmapfop_close)) (mma_open_lem junk name w none_open short)
      ∙ close_lem v i w.pages.next (record junk { page_data = some w.pages.next }) (named name) refl
          (ground arith) refl (ground arith) (named_refs name) in
    rw whole (refl, λ q. ground (arith, fresh_i q), λ q. ground (arith, fresh_p q))
