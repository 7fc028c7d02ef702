-- ===== src/Rcu/Progress.antt =====
-- Why the toy RCU does not stop: whoever waits for a lock waits for a thread that can go on.
use mathlib.Core.Path.{subst}
use kernel_module_memo.Base.{
  ℕ, ◌+◌, ◌≡◌, ◌≢◌, refl, ◌⊎◌, inl, inr, ◌∙◌, sym, Bool, true, false, none, some, Bool-cases,
  Option-cases, arith,
}
use kernel_module_memo.Base.Family.{update, total_some}
use kernel_module_memo.Rcu.Lock.{
  RwLock, toy_rcu_read_lock, toy_rcu_read_unlock, synchronize_enter, synchronize_leave,
}
use kernel_module_memo.Rcu.Thread.{
  Ptr, Memory, Pc, idle, entered, derefed, loaded, returned, allocated, locked, fetched, copied,
  filled, published, unlocked, waited, expired, Move, read_lock, read_unlock, spin_lock,
  spin_unlock, synchronize, grace_over, IsSound, at_null,
}
use kernel_module_memo.Rcu.System.{System, pick, Reach, start, later}
use kernel_module_memo.Rcu.Roles.{reading, updating}
use kernel_module_memo.Rcu.Invariant.{excluding, Reach-Inv}
use kernel_module_memo.Rcu.Safety.{no_use_after_free}

-- Each lock that is held has a holder.
record Holders (m : Memory) (pc : ℕ → Pc) : Type 0 where
  held_by : m.foo_mutex ≡ true → (i : ℕ) × (updating (pc i) ≡ true)
  written_by : m.gp.writing ≡ true → (i : ℕ) × (excluding (pc i) ≡ true)

module _ {m : Memory} {pc : ℕ → Pc} (w : Holders m pc) (i : ℕ) where
  Move-held_by :
      {p p' : Pc} {m' : Memory}
      → Move m p m' p'
      → pc i ≡ p
      → m'.foo_mutex ≡ true
      → (j : ℕ) × (updating (update pc i p' j) ≡ true)
  Move-held_by (spin_lock f) e h = (i, ground arith)
  Move-held_by spin_unlock e h = cc
  Move-held_by (read_lock g) e h = let (j, up) = w.held_by h in (j, ground arith)
  Move-held_by mv e h = let (j, up) = w.held_by h in (j, ground arith)

  Move-written_by :
      {p p' : Pc} {m' : Memory}
      → Move m p m' p'
      → pc i ≡ p
      → m'.gp.writing ≡ true
      → (j : ℕ) × (excluding (update pc i p' j) ≡ true)
  unfolding toy_rcu_read_lock toy_rcu_read_unlock synchronize_leave
  Move-written_by (synchronize x) e h = (i, ground arith)
  Move-written_by grace_over e h = cc
  Move-written_by (read_lock g) e h = let (j, up) = w.written_by (ground arith) in (j, ground arith)
  Move-written_by mv e h = let (j, up) = w.written_by h in (j, ground arith)

Reach-Holders : {n b c : ℕ} {o : Ptr} {s : System} → Reach n o b c s → Holders s.mem s.pc
Reach-Holders start = record { held_by = λ h. cc; written_by = λ h. cc }
Reach-Holders (later r (pick i lt mv)) = record {
  held_by = Move-held_by (Reach-Holders r) i mv refl;
  written_by = Move-written_by (Reach-Holders r) i mv refl;
}

abbrev pub CanMove : Memory → Pc → Type 0
CanMove m p = (m' : Memory) × (p' : Pc) × Move m p m' p'

-- Where a thread may have to wait for a lock.
abbrev waiting : Pc → Bool
waiting idle = true
waiting (allocated n v) = true
waiting (unlocked q) = true
waiting _ = false

-- Elsewhere it can go on.
runs :
    (m : Memory) (p : Pc) → waiting p ≡ false → at_null p ≡ false → IsSound m.cell p → CanMove m p
runs m entered w h sound = (_, _, Move.dereference)
runs m (derefed p) w h sound = elim (Option-cases (m.cell p)) [
  | inl e ↦ cc
  | inr (f, e) ↦ (_, _, Move.load_a e)
]
runs m (loaded v) w h sound = (_, _, read_unlock)
runs m (returned v) w h sound = (_, _, Move.finish)
runs m (locked n v) w h sound = (_, _, Move.fetch)
runs m (fetched none v q) w h sound = cc
runs m (fetched (some p) v q) w h (live, mine) = elim (Option-cases (m.cell q)) [
  | inl e ↦ cc
  | inr (f, e) ↦ elim (Option-cases (m.cell p)) [
    | inl e' ↦ cc
    | inr (g, e') ↦ (_, _, Move.copy e e')
  ]
]
runs m (copied p v q) w h sound = elim (Option-cases (m.cell p)) [
  | inl e ↦ cc
  | inr (f, e) ↦ (_, _, Move.fill e)
]
runs m (filled p v q) w h sound = (_, _, Move.publish)
runs m (published q) w h sound = (_, _, spin_unlock)
runs m (waited q) w h sound = (_, _, grace_over)
runs m (expired q) w h sound = elim (Option-cases (m.cell q)) [
  | inl e ↦ cc
  | inr (f, e) ↦ (_, _, Move.kfree e)
]
runs m idle w h sound = cc
runs m _ w h sound = cc

updating-runs : (p : Pc) → updating p ≡ true → (waiting p ≡ false) × (p ≢ idle)
updating-runs (locked n v) u = (refl, λ e. cc)
updating-runs idle u = cc
updating-runs p u = ground arith

excluding-runs : (p : Pc) → excluding p ≡ true → (waiting p ≡ false) × (p ≢ idle)
excluding-runs (waited q) u = (refl, λ e. cc)
excluding-runs idle u = cc
excluding-runs p u = ground arith

reading-runs : (p : Pc) → reading p ≢ 0 → (waiting p ≡ false) × (p ≢ idle)
reading-runs entered u = (refl, λ e. cc)
reading-runs (derefed q) u = (refl, λ e. cc)
reading-runs (loaded v) u = (refl, λ e. cc)
reading-runs idle u = absurd (u refl)
reading-runs p u = absurd (u refl)

-- With `rcu_gp_mutex` not to be had for writing, there is a writer or a reader.
lock_busy : (l : RwLock) → synchronize_enter l ≡ none → (l.writing ≡ true) ⊎ (l.readers ≢ 0)
unfolding synchronize_enter
lock_busy l e = ground arith

module _ {n b c : ℕ} {o : Ptr} {s : System} (r : Reach n o b c s)
    (alive : (i : ℕ) → at_null (s.pc i) ≡ false) where
  abbrev SomeoneMoves : Type 0
  SomeoneMoves = (j : ℕ) × (s.pc j ≢ idle) × CanMove s.mem (s.pc j)

  goes_on : (j : ℕ) → (waiting (s.pc j) ≡ false) × (s.pc j ≢ idle) → SomeoneMoves
  goes_on j (not_waiting, busy) =
      (j, busy, runs s.mem (s.pc j) not_waiting (alive j) (no_use_after_free r j (alive j)))

  -- No deadlock: in every reachable state where no thread is about to store through NULL, if some
  -- thread is within `foo_get_a` or `foo_update_a`, then some such thread can make a step.
  pub no_deadlock : (i : ℕ) → s.pc i ≢ idle → (j : ℕ) × (s.pc j ≢ idle) × CanMove s.mem (s.pc j)
  no_deadlock i busy = by_pc (s.pc i) refl
    where
      itself : (p : Pc) → s.pc i ≡ p → CanMove s.mem p → SomeoneMoves
      itself p e can = (i, busy, subst (CanMove s.mem) (sym e) can)

      by_pc : (p : Pc) → s.pc i ≡ p → SomeoneMoves
      by_pc (allocated m v) e = elim (Bool-cases s.mem.foo_mutex) [
        | inl held ↦
            let (j, up) = (Reach-Holders r).held_by held in goes_on j (updating-runs (s.pc j) up)
        | inr free ↦ itself _ e (_, _, spin_lock free)
      ]
      by_pc (unlocked q) e = elim (Option-cases (synchronize_enter s.mem.gp)) [
        | inr (g, free) ↦ itself _ e (_, _, synchronize free)
        | inl taken ↦ elim (lock_busy s.mem.gp taken) [
          | inl writing ↦
              let (j, up) = (Reach-Holders r).written_by writing in
              goes_on j (excluding-runs (s.pc j) up)
          | inr some_reader ↦
              let (j, up) =
                total_some reading n s.pc (λ z. some_reader ((Reach-Inv r).readers ∙ z)) in
              goes_on j (reading-runs (s.pc j) up)
        ]
      ]
      by_pc idle e = absurd (busy e)
      by_pc p e = goes_on i (ground arith, busy)

-- While all threads are outside, a reader gets in.
pub read_lock_free :
    {n b c : ℕ} {o : Ptr} {s : System}
    → Reach n o b c s
    → ((i : ℕ) → s.pc i ≡ idle)
    → (g : RwLock) × (toy_rcu_read_lock s.mem.gp ≡ some g)
unfolding toy_rcu_read_lock
read_lock_free {s} r quiet = elim (Bool-cases s.mem.gp.writing) [
  | inl writing ↦ let (j, up) = (Reach-Holders r).written_by writing in ground (arith, quiet j)
  | inr free ↦ (record s.mem.gp { readers = s.mem.gp.readers + 1 }, rw free refl)
]
