-- ===== src/Rcu/Schedule.antt =====
-- Reachable states by evaluation: the threads run in a given order, with what each begins given.
use mathlib.Core.List.{foldl}
use mathlib.Core.Logic.{dite}
use kernel_module_memo.Base.{
  ℕ, inl, inr, Option, none, some, List, Option-cases, Bool-cases, ℕ_discrete, dec_lt,
}
use kernel_module_memo.Rcu.Lock.{
  toy_rcu_read_lock, toy_rcu_read_unlock, synchronize_enter, synchronize_leave,
}
use kernel_module_memo.Rcu.Thread.{
  Foo, Ptr, Memory, Pc, idle, entered, derefed, loaded, returned, allocated, locked, fetched,
  copied, filled, published, unlocked, waited, expired, Move,
}
use kernel_module_memo.Rcu.System.{System, pick, init, Reach, start, later}

-- What an idle thread begins: `foo_get_a`, or `foo_update_a` with what `kmalloc` returns.
pub data Call : Type 0 where
  get_a : Call
  update_a : (new_fp : Ptr) (new_a : ℕ) → Call
  starve_a : (new_a : ℕ) → Call

abbrev pub junk : Foo
junk = record { a = 9; b = 9; c = 9 }

abbrev Next : Memory → Pc → Type 0
Next m p = Option ((m' : Memory) × (p' : Pc) × Move m p m' p')

-- `none`: the thread has to wait, or faults.
next_move : Call → (m : Memory) (p : Pc) → Next m p
unfolding ℕ_discrete
next_move get_a m idle = elim (Option-cases (toy_rcu_read_lock m.gp)) [
  | inl _ ↦ none
  | inr (g, e) ↦ some (_, _, Move.read_lock e)
]
next_move (update_a q v) m idle =
    dite (ℕ_discrete q 0) (λ _. none)
      (λ ne. elim (Option-cases (m.cell q)) [
        | inl free ↦ some (_, _, Move.kmalloc q junk v ne free)
        | inr _ ↦ none
      ])
next_move (starve_a v) m idle = some (_, _, Move.kmalloc_fails v)
next_move c m entered = some (_, _, Move.dereference)
next_move c m (derefed p) = elim (Option-cases (m.cell p)) [
  | inl _ ↦ none
  | inr (f, e) ↦ some (_, _, Move.load_a e)
]
next_move c m (loaded v) = some (_, _, Move.read_unlock)
next_move c m (returned v) = some (_, _, Move.finish)
next_move c m (allocated p v) = elim (Bool-cases m.foo_mutex) [
  | inl _ ↦ none
  | inr e ↦ some (_, _, Move.spin_lock e)
]
next_move c m (locked p v) = some (_, _, Move.fetch)
next_move c m (fetched none v q) = none
next_move c m (fetched (some p) v q) = elim (Option-cases (m.cell q)) [
  | inl _ ↦ none
  | inr (f, e) ↦ elim (Option-cases (m.cell p)) [
    | inl _ ↦ none
    | inr (g, h) ↦ some (_, _, Move.copy e h)
  ]
]
next_move c m (copied p v q) = elim (Option-cases (m.cell p)) [
  | inl _ ↦ none
  | inr (f, e) ↦ some (_, _, Move.fill e)
]
next_move c m (filled p v q) = some (_, _, Move.publish)
next_move c m (published q) = some (_, _, Move.spin_unlock)
next_move c m (unlocked q) = elim (Option-cases (synchronize_enter m.gp)) [
  | inl _ ↦ none
  | inr (g, e) ↦ some (_, _, Move.synchronize e)
]
next_move c m (waited q) = some (_, _, Move.grace_over)
next_move c m (expired q) = elim (Option-cases (m.cell q)) [
  | inl _ ↦ none
  | inr (f, e) ↦ some (_, _, Move.kfree e)
]

pub record Run (n : ℕ) : Type 0 where
  pub last : System
  pub open last use *
  pub reach : Reach n 1 3 4 last

turn : {n : ℕ} → Run n → ℕ × Call → Run n
unfolding next_move dec_lt
turn {n} r (i, c) = elim (dec_lt i n) [
  | yes lt ↦ elim (next_move c r.mem (r.pc i)) [
    | none ↦ r
    | some (m, p, mv) ↦ record { last = _; reach = later r.reach (pick i lt mv) }
  ]
  | no _ ↦ r
]

unfoldable pub run : (n : ℕ) → List (ℕ × Call) → Run n
unfolding turn toy_rcu_read_lock toy_rcu_read_unlock synchronize_enter synchronize_leave
    Option-cases Bool-cases
run n = foldl turn (record { last = init 1 3 4; reach = start })
