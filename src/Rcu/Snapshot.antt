-- ===== src/Rcu/Snapshot.antt =====
-- What one thread may rely on while the others run: readers keep their snapshot, and updates are
-- stores to one register.
use kernel_module_memo.Base.{ℕ, ◌<◌, ◌≡◌, ◌≢◌, ◌⊎◌, refl, Option, some, arith, sym}
use mathlib.Core.Path.{subst}
use kernel_module_memo.Base.Family.{update}
use kernel_module_memo.Rcu.Thread.{
  Foo, Ptr, Memory, Pc, entered, derefed, filled, Move, loaded, dereference,
}
use kernel_module_memo.Rcu.System.{System, Step, pick, Reach, later}
use kernel_module_memo.Rcu.Invariant.{Reach-Inv}
use kernel_module_memo.Rcu.Refinement.{
  abstract_system, toy_refines, Step-refines, Move-refines, Reach-Grace,
}
use kernel_module_memo.Rcu.Grace.{by_synchronize_rcu}
use kernel_module_memo.Rcu.Grace.Snapshot
use kernel_module_memo.Rcu.Grace.Safety.{one_register}

-- Any number of steps in which thread `i` takes no part.
pub data Others (n i : ℕ) (s : System) : System → Type 0 where
  here : Others n i s s
  next :
      {t : System} {m : Memory} {p : Pc} (j : ℕ)
      → Others n i s t
      → j < n
      → i ≢ j
      → Move t.mem (t.pc j) m p
      → Others n i s (record { mem = m; pc = update t.pc j p })

module _ {n b c i : ℕ} {o : Ptr} {s : System} (r : Reach n o b c s) where
  Others-Reach : {t : System} → Others n i s t → Reach n o b c t
  Others-Reach here = r
  Others-Reach (next j past lt ne mv) = later (Others-Reach past) (pick j lt mv)

  Others-refines :
      {t : System}
      → Others n i s t
      → Snapshot.Others by_synchronize_rcu n i (abstract_system s) (abstract_system t)
  Others-refines here = Snapshot.Others.here
  Others-refines (next j past lt ne mv) =
      Snapshot.Others.next j (Others-refines past) lt ne
        (Move-refines (Reach-Inv (Others-Reach past)) j mv refl)

-- The value that `foo_get_a` loads is the `a` that the object behind `gbl_foo` had when the thread
-- dereferenced it, whatever steps the other threads make between the two.
pub snapshot_read :
    {n b c i v : ℕ} {o : Ptr} {s t : System} {m' : Memory}
    → Reach n o b c s
    → i < n
    → s.pc i ≡ entered
    → Others n i (record { mem = s.mem; pc = update s.pc i (derefed s.mem.gbl_foo) }) t
    → Move t.mem (t.pc i) m' (loaded v)
    → s.mem.cell s.mem.gbl_foo ≡ some (record { a = v; b = b; c = c })
snapshot_read {n} {b} {c} {i} {v} {s} {t} {m'} r lt e others mv =
    let r' =
      later r
        (pick i lt (subst (λ p. Move s.mem p s.mem (derefed s.mem.gbl_foo)) (sym e) dereference)) in
    let load = Move-refines (Reach-Inv (Others-Reach r' others)) i mv refl in
    let (f, got, val) =
      Snapshot.frozen_read {q = s.mem.gbl_foo} (toy_refines r') (ground arith)
        (Others-refines r' others) load in
    ground (arith, (Reach-Grace r).whole.1)

-- What a reader that enters now would get.
abbrev pub view : System → Option Foo
view s = s.mem.cell s.mem.gbl_foo

-- A store of `v` by some updater, and nothing else.
abbrev pub Publishes : ℕ → ℕ → System → System → Type 0
Publishes b c s t =
    (i v : ℕ) × (p q : Ptr) × (s.pc i ≡ filled p v q)
    × (view t ≡ some (record { a = v; b = b; c = c }))

-- `gbl_foo` behaves as one atomic register: each step of any thread leaves what readers get as it
-- is, or is the `rcu_assign_pointer` of an updater and stores that updater's `new_a`, with `b` and
-- `c` as ever.
pub atomic_register :
    {n b c : ℕ} {o : Ptr} {s t : System}
    → Reach n o b c s
    → Step n s t
    → (view t ≡ view s) ⊎ Publishes b c s t
atomic_register r st = one_register (toy_refines r) (Step-refines r st)
