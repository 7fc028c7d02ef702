-- ===== src/Rcu/Grace/Invariant/Defs.antt =====
-- What holds in every reachable state of the samples with the kernel's RCU.
use kernel_module_memo.Base.{ℕ, ◌≤◌, ◌≡◌, ◌≢◌, ◌⊎◌, true, Option, none, some}
use kernel_module_memo.Rcu.Thread.{Ptr, Pc, idle, published, unlocked, waited}
use kernel_module_memo.Rcu.Roles.{own, seen, current, reading, updating, IsLive, IsFilled}
use kernel_module_memo.Rcu.Grace.{Memory}

-- The object that no reader may look at: not yet published, or past its grace period.
abbrev pub hidden : Pc → Option Ptr
hidden (published q) = none
hidden (unlocked q) = none
hidden (waited q) = none
hidden pc = own pc

-- The object whose grace period this thread waits for.
abbrev pub blocked : Pc → Option Ptr
blocked (waited q) = some q
blocked _ = none

-- An object that is not lost: the current one, one that some thread has yet to free, or one whose
-- callback has yet to run.
abbrev pub Tracked : Memory → (ℕ → Pc) → Ptr → Type 0
Tracked m pc p = (p ≡ m.gbl_foo) ⊎ ((i : ℕ) × (own (pc i) ≡ some p)) ⊎ (m.pending p ≡ true)

pub record Inv (n b c : ℕ) (m : Memory) (pc : ℕ → Pc) : Type 0 where
  pub parked : (i : ℕ) → n ≤ i → pc i ≡ idle
  pub whole : (x : ℕ) × (m.cell m.gbl_foo ≡ some (record { a = x; b = b; c = c }))
  pub own_live : (i : ℕ) (p : Ptr) → own (pc i) ≡ some p → IsLive m.cell p × (p ≢ m.gbl_foo)
  pub own_apart : (i j : ℕ) (p : Ptr) → own (pc i) ≡ some p → own (pc j) ≡ some p → i ≡ j
  pub pending_live : (p : Ptr) → m.pending p ≡ true → IsLive m.cell p × (p ≢ m.gbl_foo)
  pub pending_apart : (i : ℕ) (p : Ptr) → m.pending p ≡ true → own (pc i) ≡ some p → ⊥
  pub tracked : (p : Ptr) → IsLive m.cell p → Tracked m pc p
  pub seen_live : (i : ℕ) (p : Ptr) → seen (pc i) ≡ some p → IsLive m.cell p
  pub seen_apart : (i j : ℕ) (p : Ptr) → seen (pc i) ≡ some p → hidden (pc j) ≡ some p → ⊥
  pub inside_lem : (i : ℕ) → reading (pc i) ≡ 1 → m.inside i ≡ true
  pub pending_waits :
      (i : ℕ) (p : Ptr) → seen (pc i) ≡ some p → m.pending p ≡ true → m.waits p i ≡ true
  pub blocked_waits :
      (i j : ℕ) (p : Ptr) → seen (pc i) ≡ some p → blocked (pc j) ≡ some p → m.waits p i ≡ true
  pub fetched_gbl : (i : ℕ) (p : Ptr) → current (pc i) ≡ some p → p ≡ m.gbl_foo
  pub filled_lem : (i : ℕ) → IsFilled b c m.cell (pc i)
  pub mutex_held : (i : ℕ) → updating (pc i) ≡ true → m.foo_mutex ≡ true
  pub mutex_one : (i j : ℕ) → updating (pc i) ≡ true → updating (pc j) ≡ true → i ≡ j
