-- ===== src/Kernel/Uaccess.antt =====
-- `copy_from_user` and `copy_to_user`, which the kernel provides: an interface with the documented
-- behaviour that the modules rely on, and a concrete user memory that meets it.
use kernel_module_memo.Base.{
  ℕ, zero, suc, ◌≤◌, ◌≡◌, refl, List, [], ◌∷◌, ◌++◌, length, take, drop, leb, if◌then◌else◌, arith,
  length-append, length-drop,
}

-- A buffer of kernel memory is the list of its bytes.
pub record Uaccess : Type 1 where
  -- the user memory behind a `char __user *`, and its first `n` bytes
  pub User : Type 0
  pub bytes : User → ℕ → List ℕ
  -- the new contents of the target, and the number of bytes that could not be copied
  pub copy_from_user : (to : List ℕ) (from : User) (n : ℕ) → List ℕ × ℕ
  pub copy_to_user : (to : User) (from : List ℕ) (n : ℕ) → User × ℕ
  pub length-bytes : (u : User) (n : ℕ) → length (bytes u n) ≡ n
  -- a copy within the target leaves its size alone, also where it fails
  pub length-copy_from_user :
      (to : List ℕ) (u : User) (n : ℕ)
      → n ≤ length to
      → length (copy_from_user to u n).0 ≡ length to
  pub from_all :
      (to : List ℕ) (u : User) (n : ℕ)
      → n ≤ length to
      → (copy_from_user to u n).1 ≡ 0
      → (copy_from_user to u n).0 ≡ bytes u n ++ drop n to
  pub to_all :
      (u : User) (from : List ℕ) (n : ℕ)
      → n ≤ length from
      → (copy_to_user u from n).1 ≡ 0
      → bytes (copy_to_user u from n).0 n ≡ take n from

-- A user buffer with `limit` accessible bytes.
pub record Flat : Type 0 where
  pub limit : ℕ
  pub at : ℕ → ℕ

unfoldable pub bytes_from : (ℕ → ℕ) → ℕ → ℕ → List ℕ
bytes_from at i zero = []
bytes_from at i (suc n) = at i ∷ bytes_from at (suc i) n

pub length-bytes_from : (at : ℕ → ℕ) (i n : ℕ) → length (bytes_from at i n) ≡ n
unfolding bytes_from
length-bytes_from at i zero = refl
length-bytes_from at i (suc n) = omega (arith, length-bytes_from at (suc i) n)

-- The first bytes of a list, and zeros behind it.
unfoldable pub nth : List ℕ → ℕ → ℕ
nth [] i = 0
nth (x ∷ xs) zero = x
nth (x ∷ xs) (suc i) = nth xs i

bytes_from-suc :
    (x : ℕ) (xs : List ℕ) (i n : ℕ) → bytes_from (nth (x ∷ xs)) (suc i) n ≡ bytes_from (nth xs) i n
unfolding bytes_from nth
bytes_from-suc x xs i zero = refl
bytes_from-suc x xs i (suc n) = rw (bytes_from-suc x xs (suc i) n)

bytes_from-nth : (xs : List ℕ) (n : ℕ) → n ≤ length xs → bytes_from (nth xs) 0 n ≡ take n xs
unfolding bytes_from nth
bytes_from-nth [] zero h = refl
bytes_from-nth [] (suc n) h = elim h [ ]
bytes_from-nth (x ∷ xs) zero h = refl
bytes_from-nth (x ∷ xs) (suc n) h =
    rw (bytes_from-suc x xs 0 n) (rw (bytes_from-nth xs n (omega arith)))

unfoldable pub from_flat : List ℕ → Flat → ℕ → List ℕ × ℕ
from_flat to u n = if leb n u.limit then (bytes_from u.at 0 n ++ drop n to, 0) else (to, n)

unfoldable pub to_flat : Flat → List ℕ → ℕ → Flat × ℕ
to_flat u from n = if leb n u.limit then (record u { at = nth from }, 0) else (u, n)

pub length-from_flat :
    (to : List ℕ) (u : Flat) (n : ℕ) → n ≤ length to → length (from_flat to u n).0 ≡ length to
unfolding from_flat
length-from_flat to u n h = ground (
  arith,
  length-append (bytes_from u.at 0 n) (drop n to),
  length-bytes_from u.at 0 n,
  length-drop n to,
)

pub from_flat_all :
    (to : List ℕ) (u : Flat) (n : ℕ)
    → n ≤ length to
    → (from_flat to u n).1 ≡ 0
    → (from_flat to u n).0 ≡ bytes_from u.at 0 n ++ drop n to
unfolding from_flat
from_flat_all to u zero h e = ground arith
from_flat_all to u (suc n) h e = ground arith

pub to_flat_all :
    (u : Flat) (from : List ℕ) (n : ℕ)
    → n ≤ length from
    → (to_flat u from n).1 ≡ 0
    → bytes_from (to_flat u from n).0.at 0 n ≡ take n from
unfolding to_flat bytes_from
to_flat_all u from zero h e = refl
to_flat_all u from (suc n) h e = ground (arith, bytes_from-nth from (suc n) h)

abbrev pub flat : Uaccess
flat = record {
  User = Flat;
  bytes = λ u n. bytes_from u.at 0 n;
  copy_from_user = from_flat;
  copy_to_user = to_flat;
  length-bytes = λ u n. length-bytes_from u.at 0 n;
  length-copy_from_user = length-from_flat;
  from_all = from_flat_all;
  to_all = to_flat_all;
}
