-- ===== src/Usr/Vm/Coherence.antt =====
-- `main` of old/usr/vm.c passes all its assertions.
use kernel_module_memo.Base.{
  ℕ, ◌≤◌, ◌≡◌, refl, ◌≢◌, ap, sym, ◌∙◌, true, not, ◌==◌, Option, none, some, List, ◌++◌, length,
  drop, arith,
}
use kernel_module_memo.Base.Family.{update}
use kernel_module_memo.Kernel.Run.{done, Ends, then_run-Ends}
use kernel_module_memo.Kernel.Heap.{Ptr, IsFresh, SameObjects}
use kernel_module_memo.Kernel.Uaccess.{Uaccess}
use kernel_module_memo.Mapped.{World}
use kernel_module_memo.Mapped.Vmm.{asdf, release}
use kernel_module_memo.Mapped.Vmm
use kernel_module_memo.Mapped.Lifetime.{with_asdf, filled, open_lem, asdf_refs}
use kernel_module_memo.Usr.Vm.{
  Process, Exit, exit_success, same_string, same_bytes, qwer, zxcv, Answers, translates, cleanup,
  calls, accesses, main,
}
use kernel_module_memo.Usr.Vm.Shares.{
  Shares, swap, kept, peek_first, peek_again, strcpy_lem, munmap_lem,
}
use kernel_module_memo.Mapped.Backed.{Backed, release-Backed, read-Backed, write-Backed}
use kernel_module_memo.Usr.Vm.Rules.{
  assert_then, kernel_then, with_qwer, length-with_qwer, first_is_asdf, qwer_is_there, same_qwer,
  zxcv_is_there,
}

-- The copies between the kernel and the buffers of `main` succeed.
abbrev pub CopiesWork : (u : Uaccess) (buf text : u.User) → Type 0
CopiesWork u buf text =
    ((from : List ℕ) → 4 ≤ length from → (u.copy_to_user buf from 4).1 ≡ 0)
    × ((to : List ℕ) → 4 ≤ length to → (u.copy_from_user to text 4).1 ≡ 0)

-- The file is closed, and the heaps are those of `w`.
abbrev pub Closed : World → Exit → Process → Type 0
Closed w r t =
    (r ≡ exit_success)
    × SameObjects w.infos t.kernel.infos
    × SameObjects w.pages t.kernel.pages
    × (t.kernel.private_data ≡ none)

module _ (w : World) (i p : Ptr) where
  abbrev Reads : (a b refs : ℕ) (m n : Option Ptr) (bytes : List ℕ) → List ℕ → Process → Type 0
  Reads a b refs m n bytes got t = (got ≡ bytes) × Shares w i p a b refs m n bytes t

module _ (u : Uaccess) (g : Answers) (w : World) (i p : Ptr) (a b : ℕ) (buf text : u.User) where
  cleanup_lem :
      (s : Process) {bytes : List ℕ}
      → a ≢ b
      → w.infos.cell i ≡ none
      → w.pages.cell p ≡ none
      → Shares w i p a b 3 (some p) (some p) bytes s
      → Ends (Closed w) (cleanup a b s)
  unfolding cleanup
  cleanup_lem s {bytes} ne free_i free_p h0 =
      then_run-Ends (λ _ t. Backed w i p 2 bytes t.kernel × (t.page_of b ≡ s.page_of b)) (Closed w)
        _ _ (munmap_lem s a b ne (omega arith) h0.backed h0.at_a)
        (λ _ s1 h1.
          then_run-Ends (λ _ t. Backed w i p 1 bytes t.kernel × (t.page_of a ≡ s1.page_of a))
            (Closed w) _ _ (munmap_lem s1 b a (λ e. ne (sym e)) (omega arith) h1.0 (h1.1 ∙ h0.at_b))
            (λ _ s2 h2.
              kernel_then
                (λ r t.
                  (r ≡ done 0)
                  × SameObjects w.infos t.infos
                  × SameObjects w.pages t.pages
                  × (t.private_data ≡ none))
                (Closed w) release s2 _ (release-Backed h2.0 refl free_i free_p)
                (λ _ s3 h3 _ _. (refl, h3.1, h3.2, h3.3))))

  calls_lem :
      (s : Process)
      → a ≢ b
      → CopiesWork u buf text
      → u.bytes text 4 ≡ zxcv
      → w.infos.cell i ≡ none
      → w.pages.cell p ≡ none
      → Shares w i p a b 3 (some p) (some p) with_qwer s
      → Ends (Closed w) (calls u g a b buf text s)
  unfolding calls
  calls_lem s ne copies says free_i free_p h0 =
      kernel_then (λ r t. (u.bytes r.1 4 ≡ qwer) × Backed w i p 3 with_qwer t) (Closed w)
        (Vmm.read u buf 4) s _
        (read-Backed u h0.backed buf length-with_qwer (copies.0 with_qwer length-with_qwer))
        (λ got s1 h1 e1 f1.
          assert_then (Closed w) _ s1 _ (ap (λ x. same_bytes x qwer) h1.0 ∙ same_qwer) (
            kernel_then (λ _. Backed w i p 3 (u.bytes text 4 ++ drop 4 with_qwer)) (Closed w)
              (Vmm.write u text 4) s1 _
              (write-Backed u h1.1 text length-with_qwer (copies.1 with_qwer length-with_qwer))
              (λ _ s2 h2 e2 f2.
                then_run-Ends
                  (Reads w i p a b 3 (some p) (some p) (u.bytes text 4 ++ drop 4 with_qwer))
                  (Closed w) _ _ (peek_again (kept _ _ s2 h0 h2 (e2 ∙ e1) (f2 ∙ f1)))
                  (λ x3 s3 h3.
                    assert_then (Closed w) _ s3 _
                      (ap (same_string zxcv) h3.0 ∙ zxcv_is_there _ says)
                      (then_run-Ends
                        (Reads w i p b a 3 (some p) (some p) (u.bytes text 4 ++ drop 4 with_qwer))
                        (Closed w) _ _ (peek_again (swap h3.1))
                        (λ x4 s4 h4.
                          assert_then (Closed w) _ s4 _
                            (ap (same_string zxcv) h4.0 ∙ zxcv_is_there _ says)
                            (cleanup_lem s4 ne free_i free_p (swap h4.1))))))))

  accesses_lem :
      (s : Process)
      → not (a == b) ≡ true
      → translates u g a ≡ true
      → translates u g b ≡ true
      → CopiesWork u buf text
      → u.bytes text 4 ≡ zxcv
      → w.infos.cell i ≡ none
      → w.pages.cell p ≡ none
      → Shares w i p a b 1 none none with_asdf.bytes s
      → Ends (Closed w) (accesses u g a b buf text s)
  unfolding accesses
  accesses_lem s apart ta tb copies says free_i free_p h0 =
      let ne : a ≢ b = ground arith in
      assert_then (Closed w) _ s _ apart (
        then_run-Ends (Reads w i p a b 2 (some p) none with_asdf.bytes) (Closed w) _ _
          (peek_first ne h0)
          (λ x1 s1 h1. assert_then (Closed w) _ s1 _ (ap (same_string asdf) h1.0 ∙ first_is_asdf) (
            then_run-Ends (Reads w i p b a 3 (some p) (some p) with_asdf.bytes) (Closed w) _ _
              (peek_first (λ e. ne (sym e)) (swap h1.1))
              (λ x2 s2 h2.
                assert_then (Closed w) _ s2 _ (ap (same_string asdf) h2.0 ∙ first_is_asdf) (
                  then_run-Ends (λ _. Shares w i p a b 3 (some p) (some p) with_qwer) (Closed w) _ _
                    (strcpy_lem qwer (swap h2.1))
                    (λ x3 s3 h3.
                      then_run-Ends (Reads w i p b a 3 (some p) (some p) with_qwer) (Closed w) _ _
                        (peek_again (swap h3))
                        (λ x4 s4 h4.
                          assert_then (Closed w) _ s4 _ (ap (same_string qwer) h4.0 ∙ qwer_is_there)
                            (assert_then (Closed w) _ s4 _ ta (
                              assert_then (Closed w) _ s4 _ tb
                                (calls_lem s4 ne copies says free_i free_p (swap h4.1)))))))))))

open-Backed :
    (g : Answers) (w : World)
    → Backed w w.infos.next w.pages.next 1 with_asdf.bytes (filled g.info_junk w with_asdf)
open-Backed g w = record {
  private_lem = refl;
  info = record g.info_junk { page_data = some w.pages.next };
  info_lem = ground arith;
  data_lem = refl;
  page_lem = ground (arith, asdf_refs);
  infos_lem = λ q ne. ground arith;
  pages_lem = λ q ne. ground arith;
}

module _ (u : Uaccess) (g : Answers) (buf text : u.User) where
  -- When the kernel opens the file and grants the allocations, at new addresses, two mappings at
  -- different addresses and the copies, and the pagemap translates both addresses, then `main` with
  -- its argument passes all its assertions and returns EXIT_SUCCESS: both mappings show "asdf" at
  -- first, then what was stored through one of them, which `read` gets too, and then what `write`
  -- stored; and the heaps, the pages and `private_data` are those from before the `open`.
  pub main_passes :
      (s : Process) (argc a b : ℕ)
      → 2 ≤ argc
      → g.file_opened ≡ true
      → g.info_granted ≡ true
      → g.page_granted ≡ true
      → g.address1 ≡ some a
      → g.address2 ≡ some b
      → not (a == b) ≡ true
      → translates u g a ≡ true
      → translates u g b ≡ true
      → CopiesWork u buf text
      → u.bytes text 4 ≡ zxcv
      → IsFresh s.kernel.infos
      → IsFresh s.kernel.pages
      → Ends (Closed s.kernel) (main u g argc buf text s)
  unfolding main
  main_passes s argc a b enough go gi gp ga gb apart ta tb copies says fresh_i fresh_p =
      let w = s.kernel in
      let k = filled g.info_junk w with_asdf in
      let s1 : Process = record s { kernel = k } in
      let s2 : Process = record s1 {
        vma = update (update s1.vma a (some w.infos.next)) b (some w.infos.next);
        page_of = update (update s1.page_of a none) b none;
      } in
      let eq : main u g argc buf text s ≡ accesses u g a b buf text s2 =
        ground (arith, open_lem g.info_junk w) in
      rw eq (
        accesses_lem u g w w.infos.next w.pages.next a b buf text s2 apart ta tb copies says
          (fresh_i w.infos.next (omega arith)) (fresh_p w.pages.next (omega arith))
          (record {
            backed = open-Backed g w;
            vma_a = ground arith;
            vma_b = ground arith;
            at_a = ground arith;
            at_b = ground arith;
          }))
