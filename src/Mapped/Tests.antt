-- ===== src/Mapped/Tests.antt =====
-- The theorems on mapped pages at concrete files.
use kernel_module_memo.Base.{refl, true, none, List, [], ◌∷◌}
use kernel_module_memo.Kernel.Run.{Ends, ◌>>◌}
use kernel_module_memo.Kernel.Uaccess.{Flat, flat}
use kernel_module_memo.Mapped.{Info, Page, World}
use kernel_module_memo.Mapped.Vmm.{open_file, release}
use kernel_module_memo.Mapped.Sessions.{
  Access, reads, writes, faults, unmaps, accesses, Closed, open-accesses-release,
}

abbrev info : Info
info = record { page_data = none; reference = 0 }

abbrev world : World
world = record {
  infos = record { next = 2; cell = λ p. none };
  pages = record { next = 9; cell = λ p. none };
  private_data = none;
}

abbrev page : Page
page = record { bytes = 1 ∷ 2 ∷ 3 ∷ 4 ∷ 5 ∷ 6 ∷ []; refs = 1 }

abbrev user : Flat
user = record { limit = 100; at = λ i. 7 }

-- Two faults, of which one is still mapped when the file is closed.
abbrev steps : List (Access Flat)
steps = reads user 9 ∷ faults ∷ writes user 200 ∷ faults ∷ unmaps ∷ writes user 3 ∷ []

open-accesses-release_example :
    Ends (Closed flat world 1) ((open_file true true info >> accesses flat steps >> release) world)
open-accesses-release_example = open-accesses-release flat world (λ p le. refl) info steps 1 refl
