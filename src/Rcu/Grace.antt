-- ===== src/Rcu/Grace.antt =====
-- rcu/use_example/sample_call_rcu.c and sample_synchronize_rcu.c: `foo_get_a` and `foo_update_a`
-- with the kernel's RCU, one shared access a step, for any number of threads.
--
-- Of RCU the model has what its documentation promises, and no more: a grace period may end as soon
-- as every read-side critical section that was open when it began has been left. `waits q` says
-- which threads the grace period of the object at `q` still waits for.
pub mod Invariant
pub mod Safety
pub mod Progress
pub mod Deadlock
pub mod Snapshot
mod Tests
use kernel_module_memo.Base.{ℕ, ◌<◌, ◌≡◌, ◌≢◌, Bool, true, false, Option, none, some, is_some}
use kernel_module_memo.Base.Family.{update}
use kernel_module_memo.Rcu.Thread.{
  Foo, Ptr, Pc, idle, entered, derefed, loaded, returned, allocated, locked, fetched, copied,
  filled, published, unlocked, waited, expired, IsSound,
}

-- How `foo_update_a` frees the old object.
pub data Variant : Type 0 where
  by_call_rcu by_synchronize_rcu : Variant

-- What is shared: the pointer, the spinlock, the slab heap, and of RCU the threads inside a
-- read-side critical section, the waits, and the objects whose callback has not run.
pub record Memory : Type 0 where
  pub gbl_foo : Ptr
  pub foo_mutex : Bool
  pub cell : Ptr → Option Foo
  pub inside : ℕ → Bool
  pub waits : Ptr → ℕ → Bool
  pub pending : Ptr → Bool

-- Thread `i` no longer holds up any grace period.
abbrev pub left : ℕ → (Ptr → ℕ → Bool) → Ptr → ℕ → Bool
left i waits q = update (waits q) i false

-- The grace period of `q` begins.
abbrev pub begin : Ptr → Memory → Ptr → ℕ → Bool
begin q m = update m.waits q m.inside

-- One step of thread `i`. In `waited` it is blocked in `synchronize_rcu`. `call_rcu` writes to the
-- `rcu_head` of the object, which the other fields do not show.
pub data Move (k : Variant) (i : ℕ) (m : Memory) : Pc → Memory → Pc → Type 0 where
  read_lock : Move k i m idle (record m { inside = update m.inside i true }) entered
  dereference : Move k i m entered m (derefed m.gbl_foo)
  load_a : {p : Ptr} {f : Foo} → m.cell p ≡ some f → Move k i m (derefed p) m (loaded f.a)
  read_unlock :
      {v : ℕ}
      → Move k i m
          (loaded v)
          (record m { inside = update m.inside i false; waits = left i m.waits })
          (returned v)
  finish : {v : ℕ} → Move k i m (returned v) m idle
  kmalloc :
      (p : Ptr) (junk : Foo) (v : ℕ)
      → p ≢ 0
      → m.cell p ≡ none
      → Move k i m idle (record m { cell = update m.cell p (some junk) }) (allocated (some p) v)
  kmalloc_fails : (v : ℕ) → Move k i m idle m (allocated none v)
  spin_lock :
      {n : Option Ptr} {v : ℕ}
      → m.foo_mutex ≡ false
      → Move k i m (allocated n v) (record m { foo_mutex = true }) (locked n v)
  fetch : {n : Option Ptr} {v : ℕ} → Move k i m (locked n v) m (fetched n v m.gbl_foo)
  copy :
      {p q : Ptr} {v : ℕ} {f g : Foo}
      → m.cell q ≡ some f
      → m.cell p ≡ some g
      → Move k i m
          (fetched (some p) v q)
          (record m { cell = update m.cell p (some f) })
          (copied p v q)
  fill :
      {p q : Ptr} {v : ℕ} {f : Foo}
      → m.cell p ≡ some f
      → Move k i m
          (copied p v q)
          (record m { cell = update m.cell p (some (record f { a = v })) })
          (filled p v q)
  publish : {p q : Ptr} {v : ℕ} → Move k i m (filled p v q) (record m { gbl_foo = p }) (published q)
  spin_unlock : {q : Ptr} → Move k i m (published q) (record m { foo_mutex = false }) (unlocked q)
  call_rcu :
      {q : Ptr} {f : Foo}
      → k ≡ by_call_rcu
      → m.cell q ≡ some f
      → Move k i m
          (unlocked q)
          (record m { waits = begin q m; pending = update m.pending q true })
          idle
  synchronize :
      {q : Ptr}
      → k ≡ by_synchronize_rcu
      → Move k i m (unlocked q) (record m { waits = begin q m }) (waited q)
  grace_over : {q : Ptr} → ((j : ℕ) → m.waits q j ≡ false) → Move k i m (waited q) m (expired q)
  kfree :
      {q : Ptr} {f : Foo}
      → m.cell q ≡ some f
      → Move k i m (expired q) (record m { cell = update m.cell q none }) idle

-- What `call_rcu` writes to, its argument `&old_fp->rcu`, is within a live object.
abbrev HasHead : Variant → Option Foo → Type 0
HasHead by_call_rcu o = is_some o ≡ true
HasHead by_synchronize_rcu o = Unit

abbrev pub HeadIsLive : Variant → (Ptr → Option Foo) → Pc → Type 0
HeadIsLive k cell (unlocked q) = HasHead k (cell q)
HeadIsLive k cell _ = Unit

-- The next statement touches live objects only.
abbrev pub IsSoundWith : Variant → (Ptr → Option Foo) → Pc → Type 0
IsSoundWith k cell p = IsSound cell p × HeadIsLive k cell p

pub record System : Type 0 where
  pub mem : Memory
  pub pc : ℕ → Pc

-- The kernel runs `foo_reclaim` on `q` when its grace period is over.
abbrev pub IsDue : Memory → Ptr → Type 0
IsDue m q = (m.pending q ≡ true) × ((j : ℕ) → m.waits q j ≡ false)

abbrev pub reclaimed : Memory → Ptr → Memory
reclaimed m q = record m { cell = update m.cell q none; pending = update m.pending q false }

-- Thread `i`, of threads 0 to `n - 1`, makes one move, or the kernel runs a callback.
pub data Step (k : Variant) (n : ℕ) (s : System) : System → Type 0 where
  pick :
      (i : ℕ)
      → i < n
      → {m : Memory} {p : Pc} → Move k i s.mem (s.pc i) m p
      → Step k n s (record { mem = m; pc = update s.pc i p })
  reclaim :
      (q : Ptr) {f : Foo}
      → IsDue s.mem q
      → s.mem.cell q ≡ some f
      → Step k n s (record s { mem = reclaimed s.mem q })

-- Behind `init_foo`: `kmalloc` returns `p` with `b` and `c` as they were, and `a` is set to 5.
abbrev pub init_foo : Ptr → ℕ → ℕ → Memory
init_foo p b c = record {
  gbl_foo = p;
  foo_mutex = false;
  cell = update (λ _. none) p (some (record { a = 5; b = b; c = c }));
  inside = λ _. false;
  waits = λ _ _. false;
  pending = λ _. false;
}

abbrev pub init : Ptr → ℕ → ℕ → System
init p b c = record { mem = init_foo p b c; pc = λ _. idle }

pub data Reach (k : Variant) (n : ℕ) (p : Ptr) (b c : ℕ) : System → Type 0 where
  start : Reach k n p b c (init p b c)
  later : {s t : System} → Reach k n p b c s → Step k n s t → Reach k n p b c t
