-- ===== src/Usr/Mm/Name.antt =====
-- The string that `mmapfop_open` of old/mma.c leaves in the page of a file, as `strlen` reads it.
use kernel_module_memo.Base.{
  ℕ, zero, suc, ◌+◌, ◌-◌, ◌≤◌, ◌≡◌, refl, ap, sym, ◌∙◌, some, List, [], ◌∷◌, ◌++◌, replicate,
  length, drop, arith,
}
use kernel_module_memo.Mapped.Mma.{strlen, greeting}
use kernel_module_memo.Mapped.Opening.{greeted, named}

strlen_zero : (xs ys : List ℕ) → (k : ℕ) × (strlen (xs ++ (0 ∷ ys)) ≡ some k)
unfolding strlen
strlen_zero [] ys = (0, refl)
strlen_zero (zero ∷ xs) ys = (0, refl)
strlen_zero (suc x ∷ xs) ys = let (k, e) = strlen_zero xs ys in (suc k, ground (arith, e))

abbrev zeros : ℕ → List ℕ
zeros n = replicate n 0

drop-zeros : (n m : ℕ) → drop n (zeros (n + m)) ≡ zeros m
drop-zeros zero m = ap zeros (omega arith)
drop-zeros (suc n) m =
    let e : suc n + m ≡ suc (n + m) = omega arith in
    ap (λ t. drop (suc n) (zeros t)) e ∙ drop-zeros n m

drop-nil : (n : ℕ) → drop {A = ℕ} n [] ≡ []
drop-nil zero = refl
drop-nil (suc n) = refl

drop_add : (m n : ℕ) (xs : List ℕ) → drop (m + n) xs ≡ drop n (drop m xs)
drop_add zero n xs = ap (λ t. drop t xs) (omega arith)
drop_add (suc m) n [] =
    let e : suc m + n ≡ suc (m + n) = omega arith in
    ap (λ t. drop {A = ℕ} t []) e ∙ sym (drop-nil n)
drop_add (suc m) n (x ∷ xs) =
    let e : suc m + n ≡ suc (m + n) = omega arith in ap (λ t. drop t (x ∷ xs)) e ∙ drop_add m n xs

greeted_tail : drop 32 greeted.bytes ≡ zeros 4064
unfolding greeted
greeted_tail = refl

-- A name that leaves room for a zero byte is a string within the page.
pub named_string :
    (name : List ℕ) → length name ≤ 4063 → (k : ℕ) × (strlen (named name).bytes ≡ some k)
unfolding named greeted
named_string name short =
    let left = 4063 - length name in
    let total : length name + suc left ≡ 4064 = omega (arith, short) in
    let behind : drop (32 + length name) greeted.bytes ≡ zeros (suc left) =
      drop_add 32 (length name) greeted.bytes
      ∙ ap (drop (length name)) greeted_tail
      ∙ ap (λ t. drop (length name) (zeros t)) (sym total)
      ∙ drop-zeros (length name) (suc left) in
    let (k, e) = strlen_zero (greeting ++ name) (zeros left) in
    (k, ap (λ bs. strlen (greeting ++ (name ++ bs))) behind ∙ e)
