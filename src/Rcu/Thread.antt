-- ===== src/Rcu/Thread.antt =====
-- One thread of rcu/toy_impl/sample_use.c: `foo_get_a` and `foo_update_a`, one shared access a step.
use kernel_module_memo.Base.{ℕ, ◌≡◌, ◌≢◌, Bool, true, false, Option, none, some, is_some}
use kernel_module_memo.Base.Family.{update}
use kernel_module_memo.Rcu.Lock.{
  RwLock, toy_rcu_read_lock, toy_rcu_read_unlock, synchronize_enter, synchronize_leave,
}

-- The fields are carried as bit patterns.
pub record Foo : Type 0 where
  pub a : ℕ
  pub b : ℕ
  pub c : ℕ

abbrev pub Ptr : Type 0
Ptr = ℕ

-- What the threads share: the pointer, the spinlock, the reader-writer lock, and the slab heap.
pub record Memory : Type 0 where
  pub gbl_foo : Ptr
  pub foo_mutex : Bool
  pub gp : RwLock
  pub cell : Ptr → Option Foo

-- Where a thread stands, with the locals that are live there. `new_fp` is `none` for NULL.
pub data Pc : Type 0 where
  idle : Pc
  -- `foo_get_a`
  entered : Pc  -- behind `toy_rcu_read_lock`
  derefed : (p : Ptr) → Pc  -- behind `rcu_dereference`
  loaded : (retval : ℕ) → Pc  -- behind the load of `->a`
  returned : (retval : ℕ) → Pc  -- behind `toy_rcu_read_unlock`
  -- `foo_update_a`
  allocated : (new_fp : Option Ptr) (new_a : ℕ) → Pc  -- behind `kmalloc`
  locked : (new_fp : Option Ptr) (new_a : ℕ) → Pc  -- behind `spin_lock`
  fetched : (new_fp : Option Ptr) (new_a : ℕ) (old_fp : Ptr) → Pc  -- `old_fp` is read
  copied : (new_fp : Ptr) (new_a : ℕ) (old_fp : Ptr) → Pc  -- behind `*new_fp = *old_fp`
  filled : (new_fp : Ptr) (new_a : ℕ) (old_fp : Ptr) → Pc  -- behind `new_fp->a = new_a`
  published : (old_fp : Ptr) → Pc  -- behind `rcu_assign_pointer`
  unlocked : (old_fp : Ptr) → Pc  -- behind `spin_unlock`
  waited : (old_fp : Ptr) → Pc  -- in `toy_synchronize_rcu`, behind `write_lock`
  expired : (old_fp : Ptr) → Pc  -- behind `toy_synchronize_rcu`

-- One step of one thread. `kmalloc` picks any free address and leaves any contents there, or fails.
pub data Move (m : Memory) : Pc → Memory → Pc → Type 0 where
  read_lock :
      {g : RwLock} → toy_rcu_read_lock m.gp ≡ some g → Move m idle (record m { gp = g }) entered
  dereference : Move m entered m (derefed m.gbl_foo)
  load_a : {p : Ptr} {f : Foo} → m.cell p ≡ some f → Move m (derefed p) m (loaded f.a)
  read_unlock :
      {v : ℕ} → Move m (loaded v) (record m { gp = toy_rcu_read_unlock m.gp }) (returned v)
  finish : {v : ℕ} → Move m (returned v) m idle
  kmalloc :
      (p : Ptr) (junk : Foo) (v : ℕ)
      → p ≢ 0
      → m.cell p ≡ none
      → Move m idle (record m { cell = update m.cell p (some junk) }) (allocated (some p) v)
  kmalloc_fails : (v : ℕ) → Move m idle m (allocated none v)
  spin_lock :
      {n : Option Ptr} {v : ℕ}
      → m.foo_mutex ≡ false
      → Move m (allocated n v) (record m { foo_mutex = true }) (locked n v)
  fetch : {n : Option Ptr} {v : ℕ} → Move m (locked n v) m (fetched n v m.gbl_foo)
  copy :
      {p q : Ptr} {v : ℕ} {f g : Foo}
      → m.cell q ≡ some f
      → m.cell p ≡ some g
      → Move m (fetched (some p) v q) (record m { cell = update m.cell p (some f) }) (copied p v q)
  fill :
      {p q : Ptr} {v : ℕ} {f : Foo}
      → m.cell p ≡ some f
      → Move m
          (copied p v q)
          (record m { cell = update m.cell p (some (record f { a = v })) })
          (filled p v q)
  publish : {p q : Ptr} {v : ℕ} → Move m (filled p v q) (record m { gbl_foo = p }) (published q)
  spin_unlock : {q : Ptr} → Move m (published q) (record m { foo_mutex = false }) (unlocked q)
  synchronize :
      {q : Ptr} {g : RwLock}
      → synchronize_enter m.gp ≡ some g
      → Move m (unlocked q) (record m { gp = g }) (waited q)
  grace_over : {q : Ptr} → Move m (waited q) (record m { gp = synchronize_leave m.gp }) (expired q)
  kfree :
      {q : Ptr} {f : Foo}
      → m.cell q ≡ some f
      → Move m (expired q) (record m { cell = update m.cell q none }) idle

-- The next statement of a thread reads, writes and frees live objects only.
abbrev pub IsSound : (Ptr → Option Foo) → Pc → Type 0
IsSound cell (derefed p) = is_some (cell p) ≡ true
IsSound cell (fetched none v q) = ⊥
IsSound cell (fetched (some p) v q) = (is_some (cell q) ≡ true) × (is_some (cell p) ≡ true)
IsSound cell (copied p v q) = is_some (cell p) ≡ true
IsSound cell (expired q) = is_some (cell q) ≡ true
IsSound cell _ = Unit

-- The thread is about to store through a NULL `new_fp`.
abbrev pub at_null : Pc → Bool
at_null (fetched none v q) = true
at_null _ = false
