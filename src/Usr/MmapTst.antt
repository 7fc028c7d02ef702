-- ===== src/Usr/MmapTst.antt =====
-- old/usr/test/mmap_tst.c, which prints a file that it maps.
use kernel_module_memo.Base.{
  ℕ, zero, suc, ◌+◌, ◌-◌, ◌*◌, ◌/◌, ◌%◌, ◌≤◌, ◌<◌, ◌≡◌, ◌≢◌, ◌↔◌, refl, ap, ◌∙◌, Bool, true, false,
  Option, none, some, List, [], ◌∷◌, ◌++◌, replicate, length, take, append_nil, ◌==◌, if◌then◌else◌,
  arith, ℕ_discrete,
}
use kernel_module_memo.Kernel.Run.{Ret, done, fail, eperm}
use kernel_module_memo.Usr.Stdio.{c_string, IsText, c_string_text}

pub data Outcome : Type 0 where
  ended : Ret → (printed : List ℕ) → Outcome
  crashed : Outcome

abbrev pub file_size : ℕ
file_size = 1024

-- The size of the mapping, in whole pages.
unfoldable pub map_size : (page_size : ℕ) → ℕ
map_size page_size = (file_size / page_size + 1) * page_size

-- What the kernel puts behind the end of the file: zeros up to the end of its last page.
abbrev padding : (page_size length : ℕ) → ℕ
padding page_size n = if n % page_size == 0 then 0 else page_size - n % page_size

-- The bytes that can be read through the mapping: up to its end, and up to the last page of the
-- file.
abbrev accessible : (page_size : ℕ) → List ℕ → List ℕ
accessible page_size file =
    take (map_size page_size) (file ++ replicate (padding page_size (length file)) 0)

-- `printf("%s", map)`
abbrev print : Option (List ℕ) → Outcome
print none = crashed
print (some text) = ended (done 0) text

-- `main`, for the file that `open` finds, if any, and whether `mmap` succeeds. `mmap == MAP_FAILED`
-- compares the function, and never holds; `MAP_FAILED` points to nothing. The messages are left out.
unfoldable pub main : (page_size : ℕ) (maps : Bool) → Option (List ℕ) → Outcome
unfolding c_string map_size
main page_size maps none = ended (fail eperm) []
main page_size maps (some file) =
    if maps then print (c_string (accessible page_size file)) else crashed

map_size-gt : (p : ℕ) → 0 < p → file_size < map_size p
unfolding map_size
map_size-gt p pos = grind arith

take_whole : (xs ys : List ℕ) (k : ℕ) → take (length xs + k) (xs ++ ys) ≡ xs ++ take k ys
take_whole [] ys k = ap (λ n. take n ys) (omega arith)
take_whole (x ∷ xs) ys k =
    let e : suc (length xs) + k ≡ suc (length xs + k) = omega arith in
    ap (λ n. take n (x ∷ (xs ++ ys))) e ∙ ap (◌∷◌ x) (take_whole xs ys k)

take-nil : (n : ℕ) → take {A = ℕ} n [] ≡ []
take-nil zero = refl
take-nil (suc n) = refl

c_string-none : (cs : List ℕ) → IsText cs → c_string cs ≡ none
unfolding c_string
c_string-none [] h = refl
c_string-none (c ∷ cs) (ne, h) = ground (arith, c_string-none cs h)

module _ (p : ℕ) (file : List ℕ) (pos : 0 < p) (small : length file ≤ file_size) where
  -- The bytes of the file, and of the padding as far as the mapping goes.
  seen :
      (pad : List ℕ) → take (map_size p) (file ++ pad) ≡ file ++ take (map_size p - length file) pad
  seen pad =
      let e : map_size p ≡ length file + (map_size p - length file) =
        omega (arith, map_size-gt p pos) in
      ap (λ n. take n (file ++ pad)) e ∙ take_whole file pad (map_size p - length file)

  padded : length file % p ≢ 0 → IsText file → c_string (accessible p file) ≡ some file
  padded ne h =
      let zeros : List ℕ = replicate (p - length file % p - 1) 0 in
      let pads : padding p (length file) ≡ suc (p - length file % p - 1) = grind arith in
      let room : map_size p - length file ≡ suc (map_size p - length file - 1) =
        omega (arith, map_size-gt p pos) in
      ap (λ n. c_string (take (map_size p) (file ++ replicate n 0))) pads
      ∙ ap c_string (seen (0 ∷ zeros))
      ∙ ap (λ n. c_string (file ++ take n (0 ∷ zeros))) room
      ∙ c_string_text file (take (map_size p - length file - 1) zeros) h

  unpadded : length file % p ≡ 0 → IsText file → c_string (accessible p file) ≡ none
  unpadded e h =
      let pads : padding p (length file) ≡ 0 = ground (arith, e) in
      ap (λ n. c_string (take (map_size p) (file ++ replicate n 0))) pads
      ∙ ap c_string
          (seen [] ∙ ap (λ t. file ++ t) (take-nil (map_size p - length file)) ∙ append_nil file)
      ∙ c_string-none file h

  -- For a text file of at most 1024 bytes: when `mmap` succeeds, the program prints the whole file
  -- and returns 0 exactly if its size is not a multiple of the page size, and crashes exactly if it
  -- is, as for an empty file; when `mmap` fails, it crashes, too.
  pub main-print :
      IsText file
      → ((main p true (some file) ≡ ended (done 0) file) ↔ (length file % p ≢ 0))
        × ((main p true (some file) ≡ crashed) ↔ (length file % p ≡ 0))
        × (main p false (some file) ≡ crashed)
  unfolding main
  main-print h = elim (ℕ_discrete (length file % p) 0) [
    | yes e ↦ rw (unpadded e h) ((λ x. cc, λ ne. absurd (ne e)), (λ x. e, λ x. refl), refl)
    | no ne ↦ rw (padded ne h) ((λ x. ne, λ x. refl), (λ x. cc, λ e. absurd (ne e)), refl)
  ]
