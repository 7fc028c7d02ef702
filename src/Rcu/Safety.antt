-- ===== src/Rcu/Safety.antt =====
-- What the toy RCU and its user guarantee in every reachable state.
use kernel_module_memo.Base.{ℕ, ◌≡◌, inl, inr, true, false, some, is_some}
use kernel_module_memo.Rcu.Thread.{Ptr, idle, IsSound, at_null}
use kernel_module_memo.Rcu.System.{System, Reach}
use kernel_module_memo.Rcu.Roles.{updating}
use kernel_module_memo.Rcu.Refinement.{toy_refines, Reach-Grace}
use kernel_module_memo.Rcu.Grace.Safety.{no_early_kfree, no_lost_object}

module _ {n b c : ℕ} {o : Ptr} {s : System} (r : Reach n o b c s) where
  -- In every reachable state, the next statement of each thread touches live objects only, unless
  -- `kmalloc` has returned NULL to this very thread.
  pub no_use_after_free : (i : ℕ) → at_null (s.pc i) ≡ false → IsSound s.mem.cell (s.pc i)
  no_use_after_free i h = (no_early_kfree (toy_refines r) i h).0

  -- In every reachable state, the object behind `gbl_foo` is live and has the `b` and `c` of the
  -- first one.
  pub only_a_changes : (x : ℕ) × (s.mem.cell s.mem.gbl_foo ≡ some (record { a = x; b = b; c = c }))
  only_a_changes = (Reach-Grace r).whole

  -- Two threads are never both between `spin_lock` and `spin_unlock`.
  pub one_updater : (i j : ℕ) → updating (s.pc i) ≡ true → updating (s.pc j) ≡ true → i ≡ j
  one_updater = (Reach-Grace r).mutex_one

  -- No memory leaks: while every thread is outside `foo_get_a` and `foo_update_a`, the object
  -- behind `gbl_foo` is the only live one.
  pub no_leak :
      ((i : ℕ) → s.pc i ≡ idle) → (p : Ptr) → is_some (s.mem.cell p) ≡ true → p ≡ s.mem.gbl_foo
  no_leak quiet p live = elim (no_lost_object (toy_refines r) quiet p live) [
    | inl g ↦ g
    | inr w ↦ cc
  ]
