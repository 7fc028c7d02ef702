-- ===== src/Rcu/Invariant.antt =====
-- The invariant of `rcu_gp_mutex`: true at the start and kept by every step.
mod Defs
mod Locks
pub use Defs.*
pub use Locks.{none_reading}
use Locks.{Move-Inv}
use kernel_module_memo.Rcu.Roles.{reading}
use kernel_module_memo.Base.{ℕ, refl, sym}
use kernel_module_memo.Base.Family.{total_const}
use kernel_module_memo.Rcu.Thread.{Ptr, idle}
use kernel_module_memo.Rcu.System.{System, pick, init, Reach, start, later}

Inv-init : (n : ℕ) (p : Ptr) (b c : ℕ) → Inv n (init p b c).mem (init p b c).pc
Inv-init n p b c = record {
  parked = λ i ge. refl;
  readers = sym (total_const reading n idle refl);
  write_held = λ i e. cc;
  write_one = λ i j e f. cc;
  write_alone = λ e. refl;
}

pub Reach-Inv : {n b c : ℕ} {p : Ptr} {s : System} → Reach n p b c s → Inv n s.mem s.pc
Reach-Inv {n} {b} {c} {p} start = Inv-init n p b c
Reach-Inv (later r (pick i lt mv)) = Move-Inv (Reach-Inv r) i lt mv
