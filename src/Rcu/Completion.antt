-- ===== src/Rcu/Completion.antt =====
-- With the toy RCU every call comes to its end.
use kernel_module_memo.Base.{
  ℕ, zero, suc, ◌<◌, ◌≡◌, ◌≢◌, refl, ap, Bool, true, false, none, ℕ_discrete, dec_lt, arith,
}
use kernel_module_memo.Base.Family.{update, total, total_some, total-update, le-total}
use kernel_module_memo.Rcu.Thread.{
  Ptr, Memory, Pc, idle, entered, derefed, loaded, returned, allocated, locked, fetched, copied,
  filled, published, unlocked, waited, expired, Move, at_null, read_lock, kmalloc, kmalloc_fails,
  spin_lock, fetch, publish,
}
use kernel_module_memo.Rcu.System.{System, pick, Reach, later, Steps, rest, more}
use kernel_module_memo.Rcu.Invariant.{Reach-Inv}
use kernel_module_memo.Rcu.Progress.{no_deadlock}

-- How many steps a thread has left until it returns.
abbrev pub rank : Pc → ℕ
rank idle = 0
rank entered = 4
rank (derefed p) = 3
rank (loaded v) = 2
rank (returned v) = 1
rank (allocated n v) = 9
rank (locked n v) = 8
rank (fetched n v q) = 7
rank (copied p v q) = 6
rank (filled p v q) = 5
rank (published q) = 4
rank (unlocked q) = 3
rank (waited q) = 2
rank (expired q) = 1

-- The thread carries out an update without memory.
abbrev pub starved : Pc → Bool
starved (allocated none v) = true
starved (locked none v) = true
starved (fetched none v q) = true
starved _ = false

Move-rank : {m m' : Memory} {p p' : Pc} → Move m p m' p' → p ≢ idle → suc (rank p') ≡ rank p
Move-rank (read_lock g) busy = absurd (busy refl)
Move-rank (kmalloc q f v ne free) busy = absurd (busy refl)
Move-rank (kmalloc_fails v) busy = absurd (busy refl)
Move-rank publish busy = refl
Move-rank mv busy = refl

Move-starved :
    {m m' : Memory} {p p' : Pc} → Move m p m' p' → p ≢ idle → starved p ≡ false → starved p' ≡ false
Move-starved (read_lock g) busy fed = refl
Move-starved (kmalloc q f v ne free) busy fed = refl
Move-starved (kmalloc_fails v) busy fed = absurd (busy refl)
Move-starved (spin_lock {n = none} f) busy fed = cc
Move-starved (fetch {n = none}) busy fed = cc
Move-starved mv busy fed = ground arith

pub starved-null : (p : Pc) → starved p ≡ false → at_null p ≡ false
starved-null (fetched none v q) fed = cc
starved-null idle fed = refl
starved-null p fed = ground arith

pub rank-idle : (p : Pc) → rank p ≡ 0 → p ≡ idle
rank-idle idle e = refl
rank-idle entered e = cc
rank-idle p e = ground arith

-- The steps that all threads have left.
abbrev pub left : ℕ → System → ℕ
left n s = total rank n s.pc

module _ {n b c : ℕ} {o : Ptr} where
  all_idle : {s : System} → Reach n o b c s → left n s ≡ 0 → (i : ℕ) → s.pc i ≡ idle
  all_idle {s} r z i = elim (dec_lt i n) [
    | yes lt ↦ rank-idle (s.pc i) (omega (arith, le-total rank n i s.pc lt))
    | no ge ↦ (Reach-Inv r).parked i (omega arith)
  ]

  -- Each step of a thread that is inside, whichever it is, leaves one step less to make in all.
  pub busy_pick :
      {s : System} (i : ℕ) {m : Memory} {p : Pc}
      → Reach n o b c s
      → s.pc i ≢ idle
      → Move s.mem (s.pc i) m p
      → (i < n) × (suc (total rank n (update s.pc i p)) ≡ left n s)
  busy_pick {s} i {p} r busy mv = elim (dec_lt i n) [
    | no ge ↦ absurd (busy ((Reach-Inv r).parked i (omega arith)))
    | yes lt ↦ (lt, omega (arith, total-update rank n i s.pc p lt, Move-rank mv busy))
  ]

  finishes :
      (k : ℕ) {s0 s : System}
      → Steps n s0 s
      → Reach n o b c s
      → left n s ≡ k
      → ((i : ℕ) → starved (s.pc i) ≡ false)
      → (t : System) × Steps n s0 t × ((i : ℕ) → t.pc i ≡ idle)
  finishes zero {s} past r z fed = (s, past, all_idle r z)
  finishes (suc k) {s} past r z fed =
      let (i, heavy) = total_some rank n s.pc (λ e. absurd (omega arith)) in
      let busy_i : s.pc i ≢ idle = λ e. heavy (ap rank e) in
      let (j, busy, (m, p, mv)) = no_deadlock r (λ l. starved-null (s.pc l) (fed l)) i busy_i in
      let (lt, less) = busy_pick j r busy mv in
      finishes k (more past (pick j lt mv)) (later r (pick j lt mv)) (omega arith) (λ l.
        elim (ℕ_discrete j l) [
          | yes same ↦ ground (arith, Move-starved mv busy (fed j))
          | no other ↦ ground (arith, fed l)
        ])

-- Every call can be completed: from every reachable state in which no thread carries out an update
-- for which `kmalloc` returned NULL, some further steps lead to a state where all threads are
-- outside.
pub calls_complete :
    {n b c : ℕ} {o : Ptr} {s : System}
    → Reach n o b c s
    → ((i : ℕ) → starved (s.pc i) ≡ false)
    → (t : System) × Steps n s t × ((i : ℕ) → t.pc i ≡ idle)
calls_complete r fed = finishes _ rest r refl fed
