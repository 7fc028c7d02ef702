-- ===== src/Usr/Pagemap.antt =====
-- old/usr/vm.c, `pagemap_get_entry` and `virt_to_phys_user`: the physical address behind a virtual
-- one, from a `/proc` file.
pub mod Entry
pub mod Translate
use kernel_module_memo.Base.{
  ℕ, zero, suc, ◌+◌, ◌*◌, ◌/◌, ◌%◌, ◌^◌, Bool, true, false, Option, none, some, List, [], ◌∷◌, ◌++◌,
  length, drop, ltb, if◌then◌else◌,
}

pub record PagemapEntry : Type 0 where
  pub pfn : ℕ
  pub soft_dirty : ℕ
  pub file_page : ℕ
  pub swapped : ℕ
  pub present : ℕ

-- The number that bytes stand for, the lowest first.
unfoldable pub word : List ℕ → ℕ
word [] = 0
word (x ∷ xs) = x + 256 * word xs

-- The bit fields of the word that was read.
unfoldable pub fields : ℕ → PagemapEntry
fields w = record {
  pfn = w % 2 ^ 54;
  soft_dirty = w / 2 ^ 54 % 2;
  file_page = w / 2 ^ 61 % 2;
  swapped = w / 2 ^ 62 % 2;
  present = w / 2 ^ 63 % 2;
}

-- How the loop ends: with `data`, with `return 1`, or without fuel.
pub data Outcome : Type 0 where
  filled : (data_bytes : List ℕ) → Outcome
  failed : Outcome
  out_of_fuel : Outcome

-- `pread` answers at an offset of the file: `none` for an error, else the bytes it read, of at most
-- eight. Each turn asks at another offset, so that a function of the offset is any answers at all.
-- Each answer lands at the start of `data`.
unfoldable pub read_loop :
    (pread : ℕ → Option (List ℕ)) (base fuel nread : ℕ) (data_bytes : List ℕ) → Outcome
read_loop pread base zero nread data_bytes = out_of_fuel
read_loop pread base (suc fuel) nread data_bytes =
    if ltb nread 8
    then elim (pread (base + nread)) [
      | none ↦ failed
      | some [] ↦ failed
      | some (x ∷ xs) ↦
          read_loop pread base fuel (nread + length (x ∷ xs))
            ((x ∷ xs) ++ drop (length (x ∷ xs)) data_bytes)
    ]
    else filled data_bytes

-- What the caller finds in `*entry`; `none` for `return 1`.
unfoldable pub stored : Outcome → Option PagemapEntry
stored (filled data_bytes) = some (fields (word data_bytes))
stored failed = none
stored out_of_fuel = none

-- Each turn that goes on reads a byte at least, so that there are nine at most, the last test
-- included.
abbrev pub turns : ℕ
turns = 9

module _ (sysconf_page_size : ℕ) where
  abbrev pub base_of : (vaddr : ℕ) → ℕ
  base_of vaddr = vaddr / sysconf_page_size * 8

  -- `entry.pfn * sysconf(_SC_PAGE_SIZE)`, and the offset into the page.
  unfoldable pub paddr_of : PagemapEntry → (vaddr : ℕ) → ℕ
  paddr_of entry vaddr = (entry.pfn * sysconf_page_size + vaddr % sysconf_page_size) % 2 ^ 64

module _ (sysconf_page_size : ℕ) (pread : ℕ → Option (List ℕ)) where
  -- `junk` is in `data` at the beginning.
  unfoldable pub pagemap_get_entry : (junk : List ℕ) (vaddr : ℕ) → Option PagemapEntry
  pagemap_get_entry junk vaddr =
      stored (read_loop pread (base_of sysconf_page_size vaddr) turns 0 junk)

  -- The physical address, `none` for `return 1`, and how many files the process then has open, of
  -- `files` before. `opened`: `open` gives a descriptor.
  unfoldable pub virt_to_phys_user :
      (opened : Bool) (junk : List ℕ) (vaddr files : ℕ) → Option ℕ × ℕ
  virt_to_phys_user false junk vaddr files = (none, files)
  virt_to_phys_user true junk vaddr files = elim (pagemap_get_entry junk vaddr) [
    | none ↦ (none, suc files)
    | some entry ↦ (some (paddr_of sysconf_page_size entry vaddr), files)
  ]
