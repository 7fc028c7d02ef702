-- ===== src/Rcu/Grace/Deadlock.antt =====
-- Why the samples with the kernel's RCU do not stop: whoever waits for `foo_mutex` or for a grace
-- period waits for a thread that can go on; and a call can always begin.
use mathlib.Core.Path.{subst}
use kernel_module_memo.Base.{
  ℕ, suc, ◌+◌, ◌≤◌, ◌≡◌, ◌≢◌, refl, inl, inr, sym, ap, Bool, true, false, Option, none, some,
  Bool-cases, Option-cases, ℕ_discrete, dec_lt, arith,
}
use kernel_module_memo.Base.Family.{update, total, total_some, le-total}
use kernel_module_memo.Rcu.Thread.{
  Foo, Ptr, Pc, idle, entered, derefed, loaded, returned, allocated, locked, fetched, copied,
  filled, published, unlocked, waited, expired, at_null,
}
use kernel_module_memo.Rcu.Roles.{reading, updating}
use kernel_module_memo.Rcu.Grace.{
  Variant, by_call_rcu, by_synchronize_rcu, Memory, Move, kmalloc, copy, fill, kfree, read_lock,
  spin_lock, spin_unlock, System, pick, reclaim, Reach, IsSoundWith, start, later,
}
use kernel_module_memo.Rcu.Grace.Invariant.{Reach-Inv}
use kernel_module_memo.Rcu.Grace.Safety.{no_early_kfree}
use kernel_module_memo.Rcu.Grace.Progress.{no_waits}

-- `foo_mutex` has a holder while it is held.
Move-held_by :
    {k : Variant} {i : ℕ} {m m' : Memory} {p p' : Pc} (pc : ℕ → Pc)
    → (m.foo_mutex ≡ true → (j : ℕ) × (updating (pc j) ≡ true))
    → Move k i m p m' p'
    → pc i ≡ p
    → m'.foo_mutex ≡ true
    → (j : ℕ) × (updating (update pc i p' j) ≡ true)
Move-held_by {i} pc w (spin_lock f) e h = (i, ground arith)
Move-held_by pc w spin_unlock e h = cc
Move-held_by pc w read_lock e h = let (j, up) = w h in (j, ground arith)
Move-held_by pc w mv e h = let (j, up) = w h in (j, ground arith)

held_by :
    {k : Variant} {n b c : ℕ} {o : Ptr} {s : System}
    → Reach k n o b c s
    → s.mem.foo_mutex ≡ true
    → (j : ℕ) × (updating (s.pc j) ≡ true)
held_by start h = cc
held_by (later {s} r (pick i lt mv)) h = Move-held_by s.pc (held_by r) mv refl h
held_by (later r (reclaim q due e)) h = held_by r h

abbrev pub CanMove : Variant → ℕ → Memory → Pc → Type 0
CanMove k i m p = (m' : Memory) × (p' : Pc) × Move k i m p m' p'

-- Where a thread may have to wait, or does not call.
abbrev waiting : Pc → Bool
waiting idle = true
waiting (allocated n v) = true
waiting (waited q) = true
waiting _ = false

runs :
    (k : Variant) (i : ℕ) (m : Memory) (p : Pc)
    → waiting p ≡ false
    → at_null p ≡ false
    → IsSoundWith k m.cell p
    → CanMove k i m p
runs k i m entered w h sound = (_, _, Move.dereference)
runs k i m (derefed p) w h sound = elim (Option-cases (m.cell p)) [
  | inl e ↦ cc
  | inr (f, e) ↦ (_, _, Move.load_a e)
]
runs k i m (loaded v) w h sound = (_, _, Move.read_unlock)
runs k i m (returned v) w h sound = (_, _, Move.finish)
runs k i m (locked n v) w h sound = (_, _, Move.fetch)
runs k i m (fetched none v q) w h sound = cc
runs k i m (fetched (some p) v q) w h (live, mine) = elim (Option-cases (m.cell q)) [
  | inl e ↦ cc
  | inr (f, e) ↦ elim (Option-cases (m.cell p)) [
    | inl e' ↦ cc
    | inr (g, e') ↦ (_, _, Move.copy e e')
  ]
]
runs k i m (copied p v q) w h sound = elim (Option-cases (m.cell p)) [
  | inl e ↦ cc
  | inr (f, e) ↦ (_, _, Move.fill e)
]
runs k i m (filled p v q) w h sound = (_, _, Move.publish)
runs k i m (published q) w h sound = (_, _, spin_unlock)
runs by_call_rcu i m (unlocked q) w h sound = elim (Option-cases (m.cell q)) [
  | inl e ↦ cc
  | inr (f, e) ↦ (_, _, Move.call_rcu refl e)
]
runs by_synchronize_rcu i m (unlocked q) w h sound = (_, _, Move.synchronize refl)
runs k i m (expired q) w h sound = elim (Option-cases (m.cell q)) [
  | inl e ↦ cc
  | inr (f, e) ↦ (_, _, Move.kfree e)
]
runs k i m idle w h sound = cc
runs k i m (allocated n v) w h sound = cc
runs k i m (waited q) w h sound = cc

updating-runs : (p : Pc) → updating p ≡ true → (waiting p ≡ false) × (p ≢ idle)
updating-runs (locked n v) u = (refl, λ e. cc)
updating-runs idle u = cc
updating-runs p u = ground arith

reading-runs : (p : Pc) → reading p ≢ 0 → (waiting p ≡ false) × (p ≢ idle)
reading-runs entered u = (refl, λ e. cc)
reading-runs (derefed q) u = (refl, λ e. cc)
reading-runs (loaded v) u = (refl, λ e. cc)
reading-runs idle u = absurd (u refl)
reading-runs p u = absurd (u refl)

module _ {k : Variant} {n b c : ℕ} {o : Ptr} {s : System} (r : Reach k n o b c s)
    (alive : (i : ℕ) → at_null (s.pc i) ≡ false) where
  abbrev SomeoneMoves : Type 0
  SomeoneMoves = (j : ℕ) × (s.pc j ≢ idle) × CanMove k j s.mem (s.pc j)

  goes_on : (j : ℕ) → (waiting (s.pc j) ≡ false) × (s.pc j ≢ idle) → SomeoneMoves
  goes_on j (not_waiting, busy) =
      (j, busy, runs k j s.mem (s.pc j) not_waiting (alive j) (no_early_kfree r j (alive j)))

  -- A thread whom nobody reads past.
  nobody_reads : total reading n s.pc ≡ 0 → (i : ℕ) → reading (s.pc i) ≡ 0
  nobody_reads z i = elim (dec_lt i n) [
    | yes lt ↦ omega (arith, le-total reading n i s.pc lt)
    | no ge ↦ ap reading ((Reach-Inv r).parked i (omega arith))
  ]

  -- With either variant there is no deadlock: if no thread is about to store through NULL, and some
  -- thread is within `foo_get_a` or `foo_update_a`, then some such thread can make a step.
  pub no_deadlock : (i : ℕ) → s.pc i ≢ idle → (j : ℕ) × (s.pc j ≢ idle) × CanMove k j s.mem (s.pc j)
  no_deadlock i busy = by_pc (s.pc i) refl
    where
      itself : (p : Pc) → s.pc i ≡ p → CanMove k i s.mem p → SomeoneMoves
      itself p e can = (i, busy, subst (CanMove k i s.mem) (sym e) can)

      by_pc : (p : Pc) → s.pc i ≡ p → SomeoneMoves
      by_pc (allocated m v) e = elim (Bool-cases s.mem.foo_mutex) [
        | inl held ↦ let (j, up) = held_by r held in goes_on j (updating-runs (s.pc j) up)
        | inr free ↦ itself _ e (_, _, spin_lock free)
      ]
      by_pc (waited q) e = elim (ℕ_discrete (total reading n s.pc) 0) [
        | yes z ↦ itself _ e (_, _, Move.grace_over (no_waits r (nobody_reads z) q))
        | no some_reader ↦
            let (j, up) = total_some reading n s.pc some_reader in
            goes_on j (reading-runs (s.pc j) up)
      ]
      by_pc idle e = absurd (busy e)
      by_pc p e = goes_on i (ground arith, busy)

-- All objects lie below some address.
abbrev IsBounded : (Ptr → Option Foo) → Type 0
IsBounded cell = (end : ℕ) × ((p : Ptr) → end ≤ p → cell p ≡ none)

update-IsBounded :
    {cell : Ptr → Option Foo} (q : Ptr) (new : Option Foo)
    → IsBounded cell
    → IsBounded (update cell q new)
update-IsBounded q new (end, above) = (end + suc q, λ p le. ground (arith, above p))

Move-IsBounded :
    {k : Variant} {i : ℕ} {m m' : Memory} {p p' : Pc}
    → Move k i m p m' p'
    → IsBounded m.cell
    → IsBounded m'.cell
Move-IsBounded (kmalloc q junk v ne free) w = update-IsBounded q _ w
Move-IsBounded (copy x y) w = update-IsBounded _ _ w
Move-IsBounded (fill x) w = update-IsBounded _ _ w
Move-IsBounded (kfree {q} x) w = update-IsBounded q none w
Move-IsBounded mv w = w

bounded :
    {k : Variant} {n b c : ℕ} {o : Ptr} {s : System} → Reach k n o b c s → IsBounded s.mem.cell
bounded {o} start = (suc o, λ p le. ground arith)
bounded (later r (pick i lt mv)) = Move-IsBounded mv (bounded r)
bounded (later r (reclaim q due e)) = update-IsBounded q none (bounded r)

-- `kmalloc` has an address to give.
pub room :
    {k : Variant} {n b c : ℕ} {o : Ptr} {s : System}
    → Reach k n o b c s
    → (p : Ptr) × (p ≢ 0) × (s.mem.cell p ≡ none)
room r = let (end, above) = bounded r in (suc end, ground arith, above (suc end) (omega arith))
