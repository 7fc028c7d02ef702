-- ===== src/Mapped/Sessions.antt =====
-- A file of old/vmm.c from `open` to `release`, with any accesses in between: reads, writes, page faults
-- of a mapping, and the end of what a fault has mapped.
use mathlib.Core.Path.{subst}
use kernel_module_memo.Base.{
  ℕ, zero, suc, ◌≤◌, ◌≡◌, refl, true, Option, none, some, List, [], ◌∷◌, length, length-drop, min,
  arith,
}
use kernel_module_memo.Base.Family.{update}
use kernel_module_memo.Kernel.Run.{
  Ret, done, Run, ok, oops, Cmd, pure, Ends, then_run, then_run-Ends, ◌>>◌,
}
use kernel_module_memo.Kernel.Heap.{Ptr, put, IsFresh, SameObjects}
use kernel_module_memo.Kernel.Uaccess.{Uaccess}
use kernel_module_memo.Mapped.{Info, Page, World, at, free_page}
use kernel_module_memo.Mapped.Vmm.{open_file, release, vm_fault, data_of, mmap}
use kernel_module_memo.Mapped.Vmm
use kernel_module_memo.Mapped.Lifetime.{
  with_asdf, zeroed, filled, open_lem, zeroed_length, asdf_refs,
}
use kernel_module_memo.Mapped.Backed.{Backed, with_page, put-Backed}

pub data Access (User : Type 0) : Type 0 where
  reads writes : (buf : User) (len : ℕ) → Access User
  -- a page fault in a mapping of the file, and its end, when the kernel drops the reference
  faults unmaps : Access User

-- How many faults are mapped at the end; `none` if more end than have begun.
abbrev pub mapped : {User : Type 0} → ℕ → List (Access User) → Option ℕ
mapped n [] = some n
mapped n (reads buf len ∷ steps) = mapped n steps
mapped n (writes buf len ∷ steps) = mapped n steps
mapped n (faults ∷ steps) = mapped (suc n) steps
mapped zero (unmaps ∷ steps) = none
mapped (suc n) (unmaps ∷ steps) = mapped n steps

-- What is left of the page when the file is closed: with references of mappings it stays.
abbrev pub remaining : ℕ → List ℕ → Option Page
remaining zero bytes = none
remaining (suc n) bytes = some (record { bytes = bytes; refs = suc n })

module _ (u : Uaccess) where
  open u use {User, copy_from_user, length-copy_from_user}

  pub access : Access User → Cmd World (Unit {0})
  access (reads buf len) = Vmm.read u buf len >> pure tt
  access (writes buf len) = Vmm.write u buf len >> pure tt
  access faults = (λ w. vm_fault (at w.infos (mmap w)) w) >> pure tt
  access unmaps = λ w. free_page (data_of w) w

  unfoldable pub accesses : List (Access User) → Cmd World (Unit {0})
  unfolding access
  accesses [] = pure tt
  accesses (a ∷ steps) = access a >> accesses steps

  module _ {w : World} {i p : Ptr} {n : ℕ} {bytes : List ℕ} {k : World}
      (h : Backed w i p (suc n) bytes k) (long : 4 ≤ length bytes) where
    -- The file is still open, with `m` faults mapped.
    abbrev StaysOpen : ℕ → {A : Type 0} → A → World → Type 0
    StaysOpen m _ t = (bytes' : List ℕ) × (4 ≤ length bytes') × Backed w i p (suc m) bytes' t

    read_any :
        (buf : User) (len : ℕ)
        → Ends (λ _ t. t ≡ with_page k p bytes (suc n)) (Vmm.read u buf len k)
    unfolding Vmm.read Vmm.read_page data_of
    read_any buf len = ground (arith, h.private_lem, h.info_lem, h.data_lem, h.page_lem, long)

    write_any :
        (buf : User) (len : ℕ)
        → Ends
            (λ _ t. t ≡ with_page k p (copy_from_user bytes buf (min len 4)).0 (suc n))
            (Vmm.write u buf len k)
    unfolding Vmm.write Vmm.write_page data_of
    write_any buf len = ground (arith, h.private_lem, h.info_lem, h.data_lem, h.page_lem, long)

    fault_any :
        Ends (λ _ t. t ≡ with_page k p bytes (suc (suc n))) (vm_fault (at k.infos (mmap k)) k)
    unfolding vm_fault
    fault_any = ground (arith, h.private_lem, h.info_lem, h.data_lem, h.page_lem)

    then_open :
        {A : Type 0} (m : ℕ) (bytes' : List ℕ) (c : Cmd World A)
        → 4 ≤ length bytes'
        → Ends (λ _ t. t ≡ with_page k p bytes' (suc m)) (c k)
        → Ends (StaysOpen m) ((c >> pure tt) k)
    then_open m bytes' c long' e =
        then_run-Ends _ (StaysOpen m) (c k) (λ _. pure tt) e
          (λ _ t there. rw there (bytes', long', put-Backed h bytes' (suc m)))

    -- Any access but the end of a mapping.
    read-StaysOpen : (buf : User) (len : ℕ) → Ends (StaysOpen n) (access (reads buf len) k)
    unfolding access
    read-StaysOpen buf len = then_open n bytes (Vmm.read u buf len) long (read_any buf len)

    write-StaysOpen : (buf : User) (len : ℕ) → Ends (StaysOpen n) (access (writes buf len) k)
    unfolding access
    write-StaysOpen buf len =
        then_open n (copy_from_user bytes buf (min len 4)).0 (Vmm.write u buf len)
          (omega (arith, length-copy_from_user bytes buf (min len 4) (omega arith)))
          (write_any buf len)

    fault-StaysOpen : Ends (StaysOpen (suc n)) (access faults k)
    unfolding access
    fault-StaysOpen = then_open (suc n) bytes (λ v. vm_fault (at v.infos (mmap v)) v) long fault_any

  unmap-StaysOpen :
      {w : World} {i p : Ptr} (n : ℕ) {bytes : List ℕ} {k : World}
      (h : Backed w i p (suc (suc n)) bytes k) (long : 4 ≤ length bytes)
      → Ends (StaysOpen h long n) (access unmaps k)
  unfolding access data_of
  unmap-StaysOpen {p} n {bytes} {k} h long =
      let e : access unmaps k ≡ ok tt (with_page k p bytes (suc n)) =
        ground (arith, h.private_lem, h.info_lem, h.data_lem, h.page_lem) in
      rw e (bytes, long, put-Backed h bytes (suc n))

  released :
      {w : World} {i p : Ptr} (n : ℕ) {bytes : List ℕ} {k : World}
      → Backed w i p (suc n) bytes k
      → release k
        ≡ ok (done 0) (record k {
          infos = put k.infos i none;
          pages = put k.pages p (remaining n bytes);
          private_data = none;
        })
  unfolding release
  released zero h = ground (arith, h.private_lem, h.info_lem, h.data_lem, h.page_lem)
  released (suc n) h = ground (arith, h.private_lem, h.info_lem, h.data_lem, h.page_lem)

  -- The file has been closed: its info is gone, and its page is there as long as it is mapped.
  abbrev pub Closed : World → ℕ → Ret → World → Type 0
  Closed w n r t =
      (r ≡ done 0)
      × (t.private_data ≡ none)
      × SameObjects w.infos t.infos
      × (bytes : List ℕ) × ((q : Ptr)
          → t.pages.cell q ≡ update w.pages.cell w.pages.next (remaining n bytes) q)

  module _ (w : World) (fresh : IsFresh w.infos) where
    closes :
        (n : ℕ) (bytes : List ℕ) (k : World)
        → Backed w w.infos.next w.pages.next (suc n) bytes k
        → Ends (Closed w n) (release k)
    closes n bytes k h = rw (released n h) (
      refl,
      refl,
      λ q. ground (arith, h.infos_lem q, fresh q),
      bytes,
      λ q. ground (arith, h.pages_lem q),
    )

    goes_on :
        (m : ℕ) (P : Unit {0} → World → Type 0) (r : Run World (Unit {0}))
        (c : Cmd World (Unit {0}))
        → Ends P r
        → ((t : World) → P tt t → Ends (Closed w m) ((c >> release) t))
        → Ends (Closed w m) (then_run (then_run r (λ _. c)) (λ _. release))
    goes_on m P oops c h next = absurd h
    goes_on m P (ok a t) c h next = next t h

    -- From a file that is open with `n` faults mapped.
    session :
        (steps : List (Access User)) (n m : ℕ) (bytes : List ℕ) (k : World)
        → mapped n steps ≡ some m
        → 4 ≤ length bytes
        → Backed w w.infos.next w.pages.next (suc n) bytes k
        → Ends (Closed w m) ((accesses steps >> release) k)
    unfolding accesses
    session [] n m bytes k e long h =
        let same : n ≡ m = ground arith in
        subst (λ x. Ends (Closed w x) (release k)) same (closes n bytes k h)
    session (reads buf len ∷ steps) n m bytes k e long h =
        goes_on m (StaysOpen h long n) _ (accesses steps) (read-StaysOpen h long buf len)
          (λ t (bytes', long', h'). session steps n m bytes' t e long' h')
    session (writes buf len ∷ steps) n m bytes k e long h =
        goes_on m (StaysOpen h long n) _ (accesses steps) (write-StaysOpen h long buf len)
          (λ t (bytes', long', h'). session steps n m bytes' t e long' h')
    session (faults ∷ steps) n m bytes k e long h =
        goes_on m (StaysOpen h long (suc n)) _ (accesses steps) (fault-StaysOpen h long)
          (λ t (bytes', long', h'). session steps (suc n) m bytes' t e long' h')
    session (unmaps ∷ steps) zero m bytes k e long h = cc
    session (unmaps ∷ steps) (suc n) m bytes k e long h =
        goes_on m (StaysOpen h long n) _ (accesses steps) (unmap-StaysOpen n h long)
          (λ t (bytes', long', h'). session steps n m bytes' t e long' h')

    filled-Backed :
        (junk : Info)
        → Backed w w.infos.next w.pages.next 1 with_asdf.bytes (filled junk w with_asdf)
    filled-Backed junk = record {
      private_lem = refl;
      info = record junk { page_data = some w.pages.next };
      info_lem = ground arith;
      data_lem = refl;
      page_lem = ground (arith, asdf_refs);
      infos_lem = λ q ne. ground arith;
      pages_lem = λ q ne. ground arith;
    }

    long_enough : 4 ≤ length with_asdf.bytes
    unfolding with_asdf
    long_enough = omega (arith, length-drop 4 zeroed.bytes, zeroed_length)

    -- A file of old/vmm.c that is opened, with both allocations granted at new addresses, accessed by
    -- any sequence of reads, writes, page faults of mappings and ends of such, in which no mapping
    -- ends that has not begun, and closed, does so without a fault, whatever the lengths and whatever
    -- the copies do. Behind it the objects are those from before, and the pages too, save that what is
    -- left of the file's own page stands at its new address: nothing if no fault is mapped any more,
    -- and else the page with as many references as faults are mapped.
    pub open-accesses-release :
        (junk : Info) (steps : List (Access User)) (m : ℕ)
        → mapped 0 steps ≡ some m
        → Ends (Closed w m) ((open_file true true junk >> accesses steps >> release) w)
    open-accesses-release junk steps m e = rw (open_lem junk w) (
        session steps 0 m with_asdf.bytes (filled junk w with_asdf) e long_enough
          (filled-Backed junk))
