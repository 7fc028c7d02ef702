-- ===== src/Rcu/Invariant/Defs.antt =====
-- What holds of `rcu_gp_mutex` in every reachable state.
use kernel_module_memo.Base.{ℕ, ◌≤◌, ◌≡◌, Bool, true, false}
use kernel_module_memo.Base.Family.{total}
use kernel_module_memo.Rcu.Thread.{Memory, Pc, idle, waited}
use kernel_module_memo.Rcu.Roles.{reading}

-- Under the lock for writing.
abbrev pub excluding : Pc → Bool
excluding (waited _) = true
excluding _ = false

pub record Inv (n : ℕ) (m : Memory) (pc : ℕ → Pc) : Type 0 where
  pub parked : (i : ℕ) → n ≤ i → pc i ≡ idle
  pub readers : m.gp.readers ≡ total reading n pc
  pub write_held : (i : ℕ) → excluding (pc i) ≡ true → m.gp.writing ≡ true
  pub write_one : (i j : ℕ) → excluding (pc i) ≡ true → excluding (pc j) ≡ true → i ≡ j
  pub write_alone : m.gp.writing ≡ true → m.gp.readers ≡ 0
