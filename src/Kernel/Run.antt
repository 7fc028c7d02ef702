-- ===== src/Kernel/Run.antt =====
-- Results of handlers, and commands over a state that may fault.
use kernel_module_memo.Base.{ℕ}

-- The error numbers that the modules return, as `-EFAULT` and so on.
pub data Errno : Type 0 where
  eperm eintr eio e2big eagain enomem efault enodev einval : Errno
  -- any other, from a call into the kernel
  other : (code : ℕ) → Errno

-- What a `ssize_t` or an `int` return value stands for.
pub data Ret : Type 0 where
  done : (value : ℕ) → Ret
  fail : (error : Errno) → Ret

-- `oops`: an access outside of any live object, a bad `kfree`, a `BUG()`, a misused lock.
pub data Run (S A : Type 0) : Type 0 where
  ok : A → S → Run S A
  oops : Run S A

abbrev pub Cmd : Type 0 → Type 0 → Type 0
Cmd S A = S → Run S A

abbrev pub pure : {S A : Type 0} → A → Cmd S A
pure a s = ok a s

abbrev pub fault : {S A : Type 0} → Cmd S A
fault _ = oops

module _ {S A B : Type 0} where
  abbrev pub then_run : Run S A → (A → Cmd S B) → Run S B
  then_run (ok a s) k = k a s
  then_run oops k = oops

  infixl 5 ◌>>=◌ ◌>>◌
  abbrev pub ◌>>=◌ : Cmd S A → (A → Cmd S B) → Cmd S B
  c >>= k = λ s. then_run (c s) k

  abbrev pub ◌>>◌ : Cmd S A → Cmd S B → Cmd S B
  c >> d = c >>= λ _. d

-- The run ends without a fault, and as `P` says.
abbrev pub Ends : {S A : Type 0} → (A → S → Type 0) → Run S A → Type 0
Ends P (ok a s) = P a s
Ends P oops = ⊥

pub then_run-Ends :
    {S A B : Type 0} (P : A → S → Type 0) (Q : B → S → Type 0) (r : Run S A) (k : A → Cmd S B)
    → Ends P r
    → ((a : A) (s : S) → P a s → Ends Q (k a s))
    → Ends Q (then_run r k)
then_run-Ends P Q (ok a s) k h next = next a s h
then_run-Ends P Q oops k h next = absurd h

pub Ends-map :
    {S A : Type 0} (P Q : A → S → Type 0) (r : Run S A)
    → ((a : A) (s : S) → P a s → Q a s)
    → Ends P r
    → Ends Q r
Ends-map P Q (ok a s) weaker h = weaker a s h
Ends-map P Q oops weaker h = absurd h
