-- ===== src/Usr/Pagemap/Translate.antt =====
-- What `virt_to_phys_user` returns, and what it leaves open.
use kernel_module_memo.Base.{
  ℕ, suc, ◌+◌, ◌*◌, ◌%◌, ◌^◌, ◌≤◌, ◌<◌, ◌≡◌, ◌⊎◌, true, Option, none, some, List, [], arith,
  ℕ_discrete, dec_lt,
}
use kernel_module_memo.Usr.Pagemap.{
  PagemapEntry, base_of, pagemap_get_entry, paddr_of, read_loop, stored, virt_to_phys_user,
}

-- A quotient and a remainder are determined by the number they make.
split_unique : (n a b r s : ℕ) → r < n → s < n → a * n + r ≡ b * n + s → (a ≡ b) × (r ≡ s)
split_unique n a b r s x y e = elim (ℕ_discrete a b) [
  | yes same ↦ (same, grind arith)
  | no other ↦ elim (dec_lt a b) [
    | yes lt ↦ absurd (grind (arith, below a b lt))
    | no ge ↦ absurd (grind (arith, below b a (omega arith)))
  ]
]
  where
    below : (c d : ℕ) → c < d → suc c * n ≤ d * n
    below c d lt = grind arith

mod_small : (x y : ℕ) → x < 2 ^ 64 → y < 2 ^ 64 → x % 2 ^ 64 ≡ y % 2 ^ 64 → x ≡ y
mod_small x y lt lt' e = omega arith

module _ (page : ℕ) where
  paddr_splits :
      (e f : PagemapEntry) (vaddr waddr : ℕ)
      → 1 ≤ page
      → e.pfn * page + page ≤ 2 ^ 64
      → f.pfn * page + page ≤ 2 ^ 64
      → paddr_of page e vaddr ≡ paddr_of page f waddr
      → (e.pfn ≡ f.pfn) × (vaddr % page ≡ waddr % page)
  unfolding paddr_of
  paddr_splits e f vaddr waddr pos x y eq =
      let v : vaddr % page < page = omega arith in
      let w : waddr % page < page = omega arith in
      split_unique page e.pfn f.pfn (vaddr % page) (waddr % page) v w (
        mod_small (e.pfn * page + vaddr % page) (f.pfn * page + waddr % page) (omega arith)
          (omega arith) eq)

  -- When `virt_to_phys_user` returns 0 with the same address for two virtual ones, whose frames lie
  -- below 2 ^ 64, then the two lie in the same frame and at the same offset into it.
  pub same_frame :
      (pread pread' : ℕ → Option (List ℕ)) (junk junk' : List ℕ)
      (vaddr waddr files files' paddr : ℕ) (e f : PagemapEntry)
      → 1 ≤ page
      → pagemap_get_entry page pread junk vaddr ≡ some e
      → pagemap_get_entry page pread' junk' waddr ≡ some f
      → e.pfn * page + page ≤ 2 ^ 64
      → f.pfn * page + page ≤ 2 ^ 64
      → (virt_to_phys_user page pread true junk vaddr files).0 ≡ some paddr
      → (virt_to_phys_user page pread' true junk' waddr files').0 ≡ some paddr
      → (e.pfn ≡ f.pfn) × (vaddr % page ≡ waddr % page)
  unfolding virt_to_phys_user
  same_frame pread pread' junk junk' vaddr waddr files files' paddr e f pos x y le le' got got' =
      paddr_splits e f vaddr waddr pos le le' (ground arith)

  -- When the pagemap file opens and its first read fails or gives nothing, `virt_to_phys_user`
  -- returns 1, and its descriptor stays open.
  pub failed_read_leaks :
      (pread : ℕ → Option (List ℕ)) (junk : List ℕ) (vaddr files : ℕ)
      → (pread (base_of page vaddr) ≡ none) ⊎ (pread (base_of page vaddr) ≡ some [])
      → virt_to_phys_user page pread true junk vaddr files ≡ (none, suc files)
  unfolding virt_to_phys_user pagemap_get_entry read_loop stored
  failed_read_leaks pread junk vaddr files fails = ground arith
