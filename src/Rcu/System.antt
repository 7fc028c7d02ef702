-- ===== src/Rcu/System.antt =====
-- Any number of threads over one memory, interleaved in any order.
use kernel_module_memo.Base.{ℕ, ◌<◌, false, none, some}
use kernel_module_memo.Base.Family.{update}
use kernel_module_memo.Rcu.Lock.{rcu_gp_mutex}
use kernel_module_memo.Rcu.Thread.{Ptr, Memory, Pc, Move}

pub record System : Type 0 where
  pub mem : Memory
  pub pc : ℕ → Pc

-- Thread `i`, of threads 0 to `n - 1`, makes one move.
pub data Step (n : ℕ) (before : System) : System → Type 0 where
  pick :
      (i : ℕ)
      → i < n
      → {after : Memory} {there : Pc} → Move before.mem (before.pc i) after there
      → Step n before (record { mem = after; pc = update before.pc i there })

-- `init_foo`: `kmalloc` returns `p` with `b` and `c` as they were, and `a` is set to 5.
abbrev pub init_foo : Ptr → ℕ → ℕ → Memory
init_foo p b c = record {
  gbl_foo = p;
  foo_mutex = false;
  gp = rcu_gp_mutex;
  cell = update (λ _. none) p (some (record { a = 5; b = b; c = c }));
}

abbrev pub init : Ptr → ℕ → ℕ → System
init p b c = record { mem = init_foo p b c; pc = λ _. Pc.idle }

pub data Reach (n : ℕ) (p : Ptr) (b c : ℕ) : System → Type 0 where
  start : Reach n p b c (init p b c)
  later : {s t : System} → Reach n p b c s → Step n s t → Reach n p b c t

-- Any number of steps.
pub data Steps (n : ℕ) (s : System) : System → Type 0 where
  rest : Steps n s s
  more : {t u : System} → Steps n s t → Step n t u → Steps n s u
