-- ===== src/Usr/Vm.antt =====
-- old/usr/vm.c, `main`, run against the device of old/vmm.c: two mappings of one file, and reads and
-- writes of it. A failed `assert` and a fatal signal are faults of the run.
pub mod Rules
pub mod Shares
pub mod Coherence
use kernel_module_memo.Base.{
  ℕ, ◌+◌, ◌-◌, Bool, true, false, not, ◌&&◌, Option, none, some, is_some, List, [], ◌∷◌, ◌++◌,
  length, drop, ltb, if◌then◌else◌, ◌==◌,
}
use kernel_module_memo.Base.Family.{update}
use kernel_module_memo.Kernel.Run.{Ret, Run, ok, oops, Cmd, pure, fault, ◌>>=◌, ◌>>◌}
use kernel_module_memo.Kernel.Heap.{Ptr, put}
use kernel_module_memo.Kernel.Uaccess.{Uaccess}
use kernel_module_memo.Mapped.{Info, Page, World, at, load, free_page}
use kernel_module_memo.Mapped.Vmm.{open_file, release, vm_fault, asdf, data_of}
use kernel_module_memo.Mapped.Vmm
use kernel_module_memo.Usr.Pagemap.{virt_to_phys_user}

-- The kernel, and of the process the page that each address has, if any, and `vm_private_data` of
-- the mapping there.
pub record Process : Type 0 where
  pub kernel : World
  pub page_of : ℕ → Option Ptr
  pub vma : ℕ → Option Ptr

abbrev pub in_kernel : {A : Type 0} → Cmd World A → Cmd Process A
in_kernel c s = elim (c s.kernel) [ oops ↦ oops | ok a w ↦ ok a (record s { kernel = w }) ]

pub data Exit : Type 0 where
  exit_success exit_failure : Exit

abbrev pub assert : Bool → Cmd Process (Unit {0})
assert true = pure tt
assert false = fault

-- A mapping without pages, which come with the first access.
abbrev pub map_at : ℕ → Cmd Process (Unit {0})
map_at address s = ok tt (record s {
  vma = update s.vma address (Vmm.mmap s.kernel);
  page_of = update s.page_of address none;
})

-- The page at `address`; an access without one faults it in, and dies where `vm_fault` gives none.
abbrev pub resident : Option Ptr → ℕ → Cmd Process Ptr
resident (some p) address s = ok p s
resident none address s = elim (vm_fault (at s.kernel.infos (s.vma address)) s.kernel) [
  | oops ↦ oops
  | ok none w ↦ oops
  | ok (some p) w ↦ ok p (record s { kernel = w; page_of = update s.page_of address (some p) })
]

abbrev pub peek : ℕ → Cmd Process (List ℕ)
peek address = do
  p ← λ s. resident (s.page_of address) address s
  page ← in_kernel (λ w. load (w.pages.cell p) w)
  pure page.bytes

-- `strcmp(address, text)` is 0.
unfoldable pub same_string : (text bytes : List ℕ) → Bool
same_string text [] = false
same_string [] (b ∷ bytes) = b == 0
same_string (t ∷ text) (b ∷ bytes) = (b == t) && same_string text bytes

-- `memcmp` is 0.
unfoldable pub same_bytes : (xs ys : List ℕ) → Bool
same_bytes [] [] = true
same_bytes [] (y ∷ ys) = false
same_bytes (x ∷ xs) [] = false
same_bytes (x ∷ xs) (y ∷ ys) = (x == y) && same_bytes xs ys

abbrev pub set_bytes : Ptr → (List ℕ → List ℕ) → Option Page → Cmd World (Unit {0})
set_bytes p f none w = oops
set_bytes p f (some page) w =
    ok tt (record w { pages = put w.pages p (some (record page { bytes = f page.bytes })) })

-- `strcpy(address, text)`, for a text that is shorter than a page.
abbrev pub strcpy : ℕ → List ℕ → Cmd Process (Unit {0})
strcpy address text = do
  p ← λ s. resident (s.page_of address) address s
  in_kernel
      (λ w. set_bytes p (λ bytes. text ++ 0 ∷ drop (length text + 1) bytes) (w.pages.cell p) w)

-- `munmap` of a mapping, which succeeds: the reference that the fault took is dropped.
abbrev pub munmap : ℕ → Cmd Process (Unit {0})
munmap address = do
  _ ← λ s. in_kernel (free_page (s.page_of address)) s
  λ s. ok tt (record s { page_of = update s.page_of address none; vma = update s.vma address none })

-- From the `munmap` of the first mapping on.
unfoldable pub cleanup : (address1 address2 : ℕ) → Cmd Process Exit
cleanup address1 address2 = do
  _ ← munmap address1
  _ ← munmap address2
  _ ← in_kernel release
  pure exit_success

abbrev pub qwer : List ℕ
qwer = b'q' ∷ b'w' ∷ b'e' ∷ b'r' ∷ []

abbrev pub zxcv : List ℕ
zxcv = b'z' ∷ b'x' ∷ b'c' ∷ b'v' ∷ []

-- What the kernel grants, where its mappings lie, what the uninitialised memory holds, and what the
-- pagemap answers for each of the two addresses.
pub record Answers : Type 0 where
  pub file_opened : Bool  -- whether `open` gets as far as the handler
  pub info_granted : Bool
  pub page_granted : Bool
  pub info_junk : Info
  pub address1 : Option ℕ
  pub address2 : Option ℕ
  pub sysconf_page_size : ℕ
  pub opened : Bool
  pub pread : ℕ → Option (List ℕ)
  pub data_junk : List ℕ

module _ (u : Uaccess) (g : Answers) where
  open u use {User, bytes}

  abbrev pub translates : ℕ → Bool
  translates address =
      is_some (virt_to_phys_user g.sysconf_page_size g.pread g.opened g.data_junk address 3).0

  -- From the `read` on. `buf` is the buffer of `main`, and `text` points to "zxcv".
  unfoldable pub calls : (address1 address2 : ℕ) (buf text : User) → Cmd Process Exit
  calls address1 address2 buf text = do
    got ← in_kernel (Vmm.read u buf 4)
    _ ← assert (same_bytes (bytes got.1 4) qwer)
    _ ← in_kernel (Vmm.write u text 4)
    first ← peek address1
    _ ← assert (same_string zxcv first)
    second ← peek address2
    _ ← assert (same_string zxcv second)
    cleanup address1 address2

  -- From the two mappings on.
  unfoldable pub accesses : (address1 address2 : ℕ) (buf text : User) → Cmd Process Exit
  accesses address1 address2 buf text = do
    _ ← assert (not (address1 == address2))
    first ← peek address1
    _ ← assert (same_string asdf first)
    second ← peek address2
    _ ← assert (same_string asdf second)
    _ ← strcpy address1 qwer
    changed ← peek address2
    _ ← assert (same_string qwer changed)
    _ ← assert (translates address1)
    _ ← assert (translates address2)
    calls address1 address2 buf text

  abbrev pub map_second : ℕ → Option ℕ → (buf text : User) → Cmd Process Exit
  map_second address1 none buf text = pure exit_failure
  map_second address1 (some address2) buf text = do
    _ ← map_at address2
    accesses address1 address2 buf text

  abbrev pub map_first : Option ℕ → (buf text : User) → Cmd Process Exit
  map_first none buf text = fault
  map_first (some address1) buf text = do
    _ ← map_at address1
    map_second address1 g.address2 buf text

  -- `argc` is the number of arguments; the `open` handler always returns 0.
  abbrev pub open_and_map : Bool → (buf text : User) → Cmd Process Exit
  open_and_map false buf text = fault
  open_and_map true buf text = do
    _ ← in_kernel (open_file g.info_granted g.page_granted g.info_junk)
    map_first g.address1 buf text

  unfoldable pub main : (argc : ℕ) (buf text : User) → Cmd Process Exit
  main argc buf text = if ltb argc 2 then pure exit_failure else open_and_map g.file_opened buf text
