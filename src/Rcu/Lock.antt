-- ===== src/Rcu/Lock.antt =====
-- rcu/toy_impl/sample_locking.c: the three primitives over the lock `rcu_gp_mutex`.
use kernel_module_memo.Base.{
  ℕ, ◌+◌, ◌-◌, Bool, true, false, Option, none, some, ◌==◌, ◌||◌, not, if◌then◌else◌,
}

-- `rcu_gp_mutex`: how many hold it for reading, and whether one holds it for writing.
pub record RwLock : Type 0 where
  pub readers : ℕ
  pub writing : Bool

-- `DEFINE_RWLOCK(rcu_gp_mutex)`
abbrev pub rcu_gp_mutex : RwLock
rcu_gp_mutex = record { readers = 0; writing = false }

-- `read_lock`; `none` means that the caller has to wait.
unfoldable pub toy_rcu_read_lock : RwLock → Option RwLock
toy_rcu_read_lock l = if l.writing then none else some (record l { readers = l.readers + 1 })

-- `read_unlock`
unfoldable pub toy_rcu_read_unlock : RwLock → RwLock
toy_rcu_read_unlock l = record l { readers = l.readers - 1 }

-- The first half of `toy_synchronize_rcu`: `write_lock`, and the barrier behind it.
unfoldable pub synchronize_enter : RwLock → Option RwLock
synchronize_enter l =
    if l.writing || not (l.readers == 0) then none else some (record l { writing = true })

-- The second half: `write_unlock`.
unfoldable pub synchronize_leave : RwLock → RwLock
synchronize_leave l = record l { writing = false }
