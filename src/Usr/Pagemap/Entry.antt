-- ===== src/Usr/Pagemap/Entry.antt =====
-- What `pagemap_get_entry` makes of the words of a pagemap file.
use kernel_module_memo.Base.{
  ℕ, zero, suc, ◌+◌, ◌*◌, ◌/◌, ◌%◌, ◌^◌, ◌≤◌, ◌<◌, ◌≡◌, refl, ◌≢◌, ap, ◌∙◌, Option, some, List, [],
  ◌∷◌, ◌++◌, length, length-append, length-drop, append_nil, arith, drop, inl, inr, dec_lt,
  Option-cases,
}
use kernel_module_memo.Usr.Pagemap.{
  PagemapEntry, word, fields, filled, out_of_fuel, read_loop, stored, turns, base_of,
  pagemap_get_entry,
}

-- The word that the kernel documents for an entry: the frame number in bits 0 to 54, soft-dirty in
-- bit 55, and the other flags from bit 61 on; `between` are the bits 56 to 60.
unfoldable pub documented : (between : ℕ) → PagemapEntry → ℕ
documented between e =
    e.pfn
    + 2 ^ 55 * (e.soft_dirty + 2 * (between + 32 * (e.file_page + 2 * (e.swapped + 2 * e.present))))

-- The eight bytes of a word, the lowest first.
unfoldable pub bytes_of : (n w : ℕ) → List ℕ
bytes_of zero w = []
bytes_of (suc n) w = w % 256 ∷ bytes_of n (w / 256)

abbrev pub IsEntry : PagemapEntry → Type 0
IsEntry e =
    (e.pfn < 2 ^ 55) × (e.soft_dirty < 2) × (e.file_page < 2) × (e.swapped < 2) × (e.present < 2)

-- What the code makes of an entry, whose frame number it takes for one of 54 bits.
abbrev pub shifted : PagemapEntry → PagemapEntry
shifted e = record e { pfn = e.pfn % 2 ^ 54; soft_dirty = e.pfn / 2 ^ 54 }

fields-documented :
    (between : ℕ) (e : PagemapEntry)
    → between < 32
    → IsEntry e
    → fields (documented between e) ≡ shifted e
unfolding fields documented
fields-documented between e lt (a, b, c, d, f) = ground arith

documented_lt :
    (between : ℕ) (e : PagemapEntry) → between < 32 → IsEntry e → documented between e < 2 ^ 64
unfolding documented
documented_lt between e lt is_entry = ground arith

eight : (w : ℕ) → length (bytes_of 8 w) ≡ 8
unfolding bytes_of
eight w = refl

word-bytes_of : (w : ℕ) → w < 2 ^ 64 → word (bytes_of 8 w) ≡ w
unfolding word bytes_of
word-bytes_of w lt = omega arith

read_loop_ends :
    (pread : ℕ → Option (List ℕ)) (base fuel nread : ℕ) (data_bytes : List ℕ)
    → 9 ≤ fuel + nread
    → 1 ≤ fuel
    → read_loop pread base fuel nread data_bytes ≢ out_of_fuel
unfolding read_loop
read_loop_ends pread base zero nread data_bytes h g = elim g [ ]
read_loop_ends pread base (suc fuel) nread data_bytes h g = elim (dec_lt nread 8) [
  | no ge ↦ ground arith
  | yes lt ↦ elim (Option-cases (pread (base + nread))) [
    | inl e ↦ ground arith
    | inr ([], e) ↦ ground arith
    | inr (x ∷ xs, e) ↦ ground (
      arith,
      read_loop_ends pread base fuel (nread + length (x ∷ xs))
          ((x ∷ xs) ++ drop (length (x ∷ xs)) data_bytes) (omega arith) (omega arith),
    )
  ]
]

drop_all : (n : ℕ) (xs : List ℕ) → length xs ≤ n → drop n xs ≡ []
drop_all zero [] h = refl
drop_all zero (x ∷ xs) h = elim h [ ]
drop_all (suc n) [] h = refl
drop_all (suc n) (x ∷ xs) h = drop_all n xs (omega arith)

module _ (pread : ℕ → Option (List ℕ)) (base fuel nread : ℕ) (data_bytes : List ℕ) where
  -- One turn.
  turn :
      (x : ℕ) (xs : List ℕ)
      → nread < 8
      → pread (base + nread) ≡ some (x ∷ xs)
      → read_loop pread base (suc fuel) nread data_bytes
        ≡ read_loop pread base fuel
            (nread + suc (length xs))
            (x ∷ xs ++ drop (suc (length xs)) data_bytes)
  unfolding read_loop
  turn x xs lt e = ground arith

  -- A turn that reads all eight bytes is the last.
  last_turn :
      (ys : List ℕ)
      → nread < 8
      → length data_bytes ≡ 8
      → length ys ≡ 8
      → pread (base + nread) ≡ some ys
      → read_loop pread base (suc (suc fuel)) nread data_bytes ≡ filled ys
  unfolding read_loop
  last_turn [] lt d y e = cc
  last_turn (x ∷ xs) lt d y e =
      ground (arith, drop_all (suc (length xs)) data_bytes (omega arith), append_nil xs)

module _ (page : ℕ) (pread : ℕ → Option (List ℕ)) (junk : List ℕ) (vaddr : ℕ) where
  -- `pagemap_get_entry` ends, whatever the file answers: at most eight answers are asked for.
  pub loop_ends : read_loop pread (base_of page vaddr) turns 0 junk ≢ out_of_fuel
  loop_ends = read_loop_ends pread (base_of page vaddr) turns 0 junk (omega arith) (omega arith)

  -- When the file answers with all eight bytes of the word that the kernel documents for an entry
  -- (the frame number in bits 0 to 54, soft-dirty in bit 55, the other three flags in bits 61 to
  -- 63), `pagemap_get_entry` returns 0 and stores those three flags and the lower 54 bits of the
  -- frame number. What it stores as `soft_dirty` is the highest bit of the frame number: the flag
  -- itself has no part in what it stores, nor have the bits 56 to 60.
  pub pagemap_get_entry_lem :
      (between : ℕ) (e : PagemapEntry)
      → between < 32
      → IsEntry e
      → length junk ≡ 8
      → pread (base_of page vaddr) ≡ some (bytes_of 8 (documented between e))
      → pagemap_get_entry page pread junk vaddr ≡ some (shifted e)
  unfolding pagemap_get_entry stored
  pagemap_get_entry_lem between e lt is_entry size answer =
      ap stored (
        last_turn pread (base_of page vaddr) 7 0 junk (bytes_of 8 (documented between e))
          (omega arith) size (eight (documented between e)) (ground (arith, answer)))
      ∙ ap (λ w. some (fields w))
          (word-bytes_of (documented between e) (documented_lt between e lt is_entry))
      ∙ ap some (fields-documented between e lt is_entry)

  -- When the first answer is short, the next one is stored from the start of `data` again, so that
  -- the bytes of the first are lost: `pagemap_get_entry` returns 0 with what the eight bytes behind
  -- them stand for.
  pub short_read_shifts :
      (x : ℕ) (xs ys : List ℕ)
      → length junk ≡ 8
      → length xs < 7
      → length ys ≡ 8
      → pread (base_of page vaddr) ≡ some (x ∷ xs)
      → pread (base_of page vaddr + suc (length xs)) ≡ some ys
      → pagemap_get_entry page pread junk vaddr ≡ some (fields (word ys))
  unfolding pagemap_get_entry stored
  short_read_shifts x xs ys size short full first second =
      let rest = x ∷ xs ++ drop (suc (length xs)) junk in
      let size' : length rest ≡ 8 = omega (
        arith,
        length-append (x ∷ xs) (drop (suc (length xs)) junk),
        length-drop (suc (length xs)) junk,
      ) in
      ap stored (
        turn pread (base_of page vaddr) 8 0 junk x xs (omega arith) (ground (arith, first))
        ∙ last_turn pread (base_of page vaddr) 6 (0 + suc (length xs)) rest ys (omega arith) size'
            full (ground (arith, second)))
