-- ===== src/Usr/Vm/Shares.antt =====
-- Two mappings of one file of old/vmm.c have one page: what each access leaves.
use kernel_module_memo.Base.{
  ℕ, ◌+◌, ◌-◌, ◌≤◌, ◌≡◌, refl, ◌≢◌, ap, ◌∙◌, Option, none, some, List, ◌∷◌, ◌++◌, length, drop,
  arith,
}
use kernel_module_memo.Base.Family.{update}
use kernel_module_memo.Kernel.Run.{ok, Ends}
use kernel_module_memo.Kernel.Heap.{Ptr}
use kernel_module_memo.Mapped.{World}
use kernel_module_memo.Mapped.Vmm.{vm_fault}
use kernel_module_memo.Usr.Vm.{Process, peek, strcpy, munmap}
use kernel_module_memo.Mapped.Backed.{Backed, with_page, put-Backed}

-- It is mapped at `a`, with the page `m` so far, and at `b`, with `n`.
pub record Shares (w : World) (i p : Ptr) (a b refs : ℕ) (m n : Option Ptr) (bytes : List ℕ)
    (s : Process) : Type 0 where
  pub backed : Backed w i p refs bytes s.kernel
  pub vma_a : s.vma a ≡ some i
  pub vma_b : s.vma b ≡ some i
  pub at_a : s.page_of a ≡ m
  pub at_b : s.page_of b ≡ n

pub swap :
    {w : World} {i p : Ptr} {a b refs : ℕ} {m n : Option Ptr} {bytes : List ℕ} {s : Process}
    → Shares w i p a b refs m n bytes s
    → Shares w i p b a refs n m bytes s
swap h = record {
  backed = h.backed;
  vma_a = h.vma_b;
  vma_b = h.vma_a;
  at_a = h.at_b;
  at_b = h.at_a;
}

-- What a system call leaves alone.
pub kept :
    {w : World} {i p : Ptr} {a b refs : ℕ} {m n : Option Ptr} {bytes : List ℕ} {s : Process}
    (refs' : ℕ) (bytes' : List ℕ) (t : Process)
    → Shares w i p a b refs m n bytes s
    → Backed w i p refs' bytes' t.kernel
    → t.page_of ≡ s.page_of
    → t.vma ≡ s.vma
    → Shares w i p a b refs' m n bytes' t
kept {a} {b} refs' bytes' t h k e f = record {
  backed = k;
  vma_a = ap (λ x. x a) f ∙ h.vma_a;
  vma_b = ap (λ x. x b) f ∙ h.vma_b;
  at_a = ap (λ x. x a) e ∙ h.at_a;
  at_b = ap (λ x. x b) e ∙ h.at_b;
}

module _ {w : World} {i p : Ptr} {a b refs : ℕ} {n : Option Ptr} {bytes : List ℕ}
    {s : Process} where
  -- The first access takes a reference.
  pub peek_first :
      a ≢ b
      → Shares w i p a b refs none n bytes s
      → Ends (λ got t. (got ≡ bytes) × Shares w i p a b (refs + 1) (some p) n bytes t) (peek a s)
  unfolding vm_fault
  peek_first apart h =
      let eq : peek a s
          ≡ ok bytes (record s {
            kernel = with_page s.kernel p bytes (refs + 1);
            page_of = update s.page_of a (some p);
          }) =
        ground (arith, h.backed.info_lem, h.backed.data_lem, h.backed.page_lem, h.vma_a, h.at_a) in
      rw eq (
        refl,
        record {
          backed = put-Backed h.backed bytes (refs + 1);
          vma_a = h.vma_a;
          vma_b = h.vma_b;
          at_a = ground arith;
          at_b = ground (arith, h.at_b);
        },
      )

  -- A later one does not.
  pub peek_again :
      Shares w i p a b refs (some p) n bytes s
      → Ends (λ got t. (got ≡ bytes) × Shares w i p a b refs (some p) n bytes t) (peek a s)
  peek_again h =
      let eq : peek a s ≡ ok bytes s = ground (arith, h.backed.page_lem, h.at_a) in rw eq (refl, h)

  pub strcpy_lem :
      (text : List ℕ)
      → Shares w i p a b refs (some p) n bytes s
      → Ends
          (λ _. Shares w i p a b refs (some p) n (text ++ 0 ∷ drop (length text + 1) bytes))
          (strcpy a text s)
  strcpy_lem text h =
      let after = text ++ 0 ∷ drop (length text + 1) bytes in
      let eq : strcpy a text s ≡ ok tt (record s { kernel = with_page s.kernel p after refs }) =
        ground (arith, h.backed.page_lem, h.at_a) in
      rw eq (record {
        backed = put-Backed h.backed after refs;
        vma_a = h.vma_a;
        vma_b = h.vma_b;
        at_a = h.at_a;
        at_b = h.at_b;
      })

-- `munmap` drops the reference of its mapping.
pub munmap_lem :
    {w : World} {i p : Ptr} {refs : ℕ} {bytes : List ℕ} (s : Process) (a b : ℕ)
    → a ≢ b
    → 2 ≤ refs
    → Backed w i p refs bytes s.kernel
    → s.page_of a ≡ some p
    → Ends
        (λ _ t. Backed w i p (refs - 1) bytes t.kernel × (t.page_of b ≡ s.page_of b))
        (munmap a s)
munmap_lem {p} {refs} {bytes} s a b apart many h here =
    let eq : munmap a s
        ≡ ok tt (record s {
          kernel = with_page s.kernel p bytes (refs - 1);
          page_of = update s.page_of a none;
          vma = update s.vma a none;
        }) =
      ground (arith, h.page_lem, here) in
    rw eq (put-Backed h bytes (refs - 1), ground arith)
