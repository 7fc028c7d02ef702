-- ===== src/Usr/Stdio.antt =====
-- What the user programs use of C's standard library: strings, and lines of the standard input.
use kernel_module_memo.Base.{
  ℕ, zero, suc, ◌-◌, ◌≤◌, ◌<◌, ◌≡◌, ◌≢◌, refl, Option, none, some, List, [], ◌∷◌, ◌++◌, length,
  if◌then◌else◌, ◌==◌, arith,
}

-- What `%s` prints of these bytes: those before the first 0, and `none` where there is no 0.
unfoldable pub c_string : List ℕ → Option (List ℕ)
c_string [] = none
c_string (c ∷ cs) =
    let rest = c_string cs in
    if c == 0 then some [] else elim rest [ none ↦ none | some text ↦ some (c ∷ text) ]

-- The first line of the input with its newline, cut off behind `room` bytes.
unfoldable pub line : (room : ℕ) → List ℕ → List ℕ
line zero cs = []
line (suc room) [] = []
line (suc room) (c ∷ cs) = if c == 10 then c ∷ [] else c ∷ line room cs

-- `fgets(ch, size, stdin)`: the bytes that it stores with the 0 behind them, or NULL.
unfoldable pub fgets : (size : ℕ) → List ℕ → Option (List ℕ)
unfolding line
fgets size [] = none
fgets size (c ∷ cs) = some (line (size - 1) (c ∷ cs) ++ 0 ∷ [])

-- No byte is 0.
abbrev pub IsText : List ℕ → Type 0
IsText [] = Unit
IsText (c ∷ cs) = (c ≢ 0) × IsText cs

pub c_string_text : (text rest : List ℕ) → IsText text → c_string (text ++ (0 ∷ rest)) ≡ some text
unfolding c_string
c_string_text [] rest h = refl
c_string_text (c ∷ cs) rest (ne, h) = ground (arith, c_string_text cs rest h)

pub length-line : (room : ℕ) (cs : List ℕ) → length (line room cs) ≤ room
unfolding line
length-line zero cs = omega arith
length-line (suc room) [] = omega arith
length-line (suc room) (c ∷ cs) = ground (arith, length-line room cs)

pub line_some : (room c : ℕ) (cs : List ℕ) → 0 < length (line (suc room) (c ∷ cs))
unfolding line
line_some room c cs = ground arith
