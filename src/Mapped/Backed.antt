-- ===== src/Mapped/Backed.antt =====
-- One file of old/vmm.c with its page, and what its `read`, `write` and `release` do.
use kernel_module_memo.Base.{
  ℕ, ◌≤◌, ◌≡◌, refl, ◌≢◌, none, some, List, ◌++◌, length, drop, arith, take,
}
use kernel_module_memo.Kernel.Run.{done, ok, Ends}
use kernel_module_memo.Kernel.Heap.{Ptr, put, SameObjects}
use kernel_module_memo.Kernel.Uaccess.{Uaccess}
use kernel_module_memo.Mapped.{Info, World}
use kernel_module_memo.Mapped.Vmm.{vm_fault, data_of, read_page, write_page, release}
use kernel_module_memo.Mapped.Vmm
use kernel_module_memo.Mapped.Lifetime.{release_lem}

-- The file has its info at `i` and its page at `p`, with `refs` references; all else is as in `w`.
pub record Backed (w : World) (i p : Ptr) (refs : ℕ) (bytes : List ℕ) (k : World) : Type 0 where
  pub private_lem : k.private_data ≡ some i
  pub info : Info
  pub info_lem : k.infos.cell i ≡ some info
  pub data_lem : info.page_data ≡ some p
  pub page_lem : k.pages.cell p ≡ some (record { bytes = bytes; refs = refs })
  pub infos_lem : (q : Ptr) → q ≢ i → k.infos.cell q ≡ w.infos.cell q
  pub pages_lem : (q : Ptr) → q ≢ p → k.pages.cell q ≡ w.pages.cell q

-- Another page in place of the one at `p`.
abbrev pub with_page : World → Ptr → List ℕ → ℕ → World
with_page k p bytes refs = record k {
  pages = put k.pages p (some (record { bytes = bytes; refs = refs }));
}

module _ {w : World} {i p : Ptr} {refs : ℕ} {bytes : List ℕ} {k : World}
    (h : Backed w i p refs bytes k) where
  pub put-Backed :
      (bytes' : List ℕ) (refs' : ℕ) → Backed w i p refs' bytes' (with_page k p bytes' refs')
  put-Backed bytes' refs' = record {
    private_lem = h.private_lem;
    info = h.info;
    info_lem = h.info_lem;
    data_lem = h.data_lem;
    page_lem = ground arith;
    infos_lem = h.infos_lem;
    pages_lem = λ q ne. ground (arith, h.pages_lem q ne);
  }

  -- `release` drops the last reference, and the heaps are those of `w`.
  pub release-Backed :
      refs ≡ 1
      → w.infos.cell i ≡ none
      → w.pages.cell p ≡ none
      → Ends
          (λ r t.
            (r ≡ done 0)
            × SameObjects w.infos t.infos
            × SameObjects w.pages t.pages
            × (t.private_data ≡ none))
          (release k)
  release-Backed one free_i free_p =
      rw (release_lem k i p h.info _ h.private_lem h.info_lem h.data_lem h.page_lem one)
        (refl, λ q. ground (arith, h.infos_lem q), λ q. ground (arith, h.pages_lem q), refl)

module _ (u : Uaccess) (user : u.User) (bytes : List ℕ) (refs : ℕ) (long : 4 ≤ length bytes) where
  read_lem :
      (u.copy_to_user user bytes 4).1 ≡ 0
      → read_page u user 4 (record { bytes = bytes; refs = refs })
        ≡ ok (done 4, (u.copy_to_user user bytes 4).0) tt
  unfolding read_page
  read_lem all = ground arith

  write_lem :
      (u.copy_from_user bytes user 4).1 ≡ 0
      → write_page u user 4 (record { bytes = bytes; refs = refs })
        ≡ ok (done 4) (record { bytes = u.bytes user 4 ++ drop 4 bytes; refs = refs })
  unfolding write_page
  write_lem all = ground (arith, u.from_all bytes user 4 long all)

module _ (u : Uaccess) {w : World} {i p : Ptr} {refs : ℕ} {bytes : List ℕ} {k : World}
    (h : Backed w i p refs bytes k) (user : u.User) where
  -- A `read` of four bytes that succeeds.
  pub read-Backed :
      4 ≤ length bytes
      → (u.copy_to_user user bytes 4).1 ≡ 0
      → Ends
          (λ r t. (u.bytes r.1 4 ≡ take 4 bytes) × Backed w i p refs bytes t)
          (Vmm.read u user 4 k)
  unfolding Vmm.read data_of
  read-Backed long all =
      let eq : Vmm.read u user 4 k
          ≡ ok (done 4, (u.copy_to_user user bytes 4).0) (with_page k p bytes refs) =
        ground (
          arith,
          h.private_lem,
          h.info_lem,
          h.data_lem,
          h.page_lem,
          read_lem u user bytes refs long all,
        ) in
      rw eq (u.to_all user bytes 4 long all, put-Backed h bytes refs)

  -- A `write` of four bytes that succeeds.
  pub write-Backed :
      4 ≤ length bytes
      → (u.copy_from_user bytes user 4).1 ≡ 0
      → Ends (λ _. Backed w i p refs (u.bytes user 4 ++ drop 4 bytes)) (Vmm.write u user 4 k)
  unfolding Vmm.write data_of
  write-Backed long all =
      let after = u.bytes user 4 ++ drop 4 bytes in
      let eq : Vmm.write u user 4 k ≡ ok (done 4) (with_page k p after refs) = ground (
        arith,
        h.private_lem,
        h.info_lem,
        h.data_lem,
        h.page_lem,
        write_lem u user bytes refs long all,
      ) in
      rw eq (put-Backed h after refs)
