-- ===== src/Rcu/Life/Safety.antt =====
-- The memory of a sample module from its loading to its unloading.
use kernel_module_memo.Base.{
  ℕ, ◌≡◌, ◌≢◌, refl, ◌↔◌, inl, inr, ◌∙◌, none, true, false, is_some, dec_lt, arith, Option-cases,
}
use kernel_module_memo.Rcu.Thread.{Ptr, Pc, idle, at_null}
use kernel_module_memo.Rcu.Grace.{
  Variant, by_synchronize_rcu, System, pick, reclaim, Memory, Move, read_lock, call_rcu, Reach,
  IsSoundWith,
}
use kernel_module_memo.Rcu.Grace.Invariant.{Inv, Reach-Inv}
use kernel_module_memo.Rcu.Grace.Safety.{no_early_kfree, no_lost_object}
use kernel_module_memo.Rcu.Life.{
  Threads, unborn, left, Phase, starting, running, stopping, freed, Life, Event, Lives, heap,
  heap_at, kthread_run, started, turn, call, work, back, leave, callback, rmmod, kthread_stop,
  stopped, kfree,
}
use kernel_module_memo.Rcu.Life.Stages.{Staged, Lives-Staged, joined}

-- `synchronize_rcu` registers no callback.
Move-pending :
    {i : ℕ} {m m' : Memory} {p p' : Pc}
    → Move by_synchronize_rcu i m p m' p'
    → (q : Ptr) → m'.pending q ≡ m.pending q
Move-pending (call_rcu e there) q = cc
Move-pending read_lock q = refl
Move-pending mv q = refl

sync_pending :
    {n b c : ℕ} {o : Ptr} {s : System}
    → Reach by_synchronize_rcu n o b c s
    → (q : Ptr) → s.mem.pending q ≡ false
sync_pending Reach.start q = refl
sync_pending (Reach.later r (pick i lt mv)) q = Move-pending mv q ∙ sync_pending r q
sync_pending (Reach.later r (reclaim p due e)) q = ground (arith, sync_pending r q)

-- No event can come any more but a callback.
abbrev pub IsOver :
    {k : Variant} {n : ℕ} {o : Ptr} {b c : ℕ} (T : Threads k n o b c) (readers : ℕ)
    → Life T readers
    → Type 0
IsOver T readers l = (l' : Life T readers) → Event T readers l l' → T.Callback l.sys l'.sys

module _ {k : Variant} {n : ℕ} {o : Ptr} {b c : ℕ} (T : Threads k n o b c) (readers : ℕ)
    {l : Life T readers} (r : Lives T readers l) where
  open T use {view}

  staged : Staged T readers l
  staged = Lives-Staged T readers r

  abbrev now : System
  now = view l.sys

  reach : Reach k n o b c now
  reach = T.view-Reach l.sys staged.reached

  inv : Inv n b c now.mem now.pc
  inv = Reach-Inv reach

  -- Behind the last `kthread_stop` every thread is outside.
  all_outside : joined T readers l.phase ≡ n → (i : ℕ) → now.pc i ≡ idle
  all_outside e i = elim (dec_lt i n) [
    | yes lt ↦ ground (arith, staged.outside i, staged.ended i)
    | no ge ↦ inv.parked i (omega arith)
  ]

  ended_all : l.phase ≡ freed → (i : ℕ) → l.stage i ≢ unborn → l.stage i ≢ left → ⊥
  ended_all e i born out = elim (dec_lt i n) [
    | yes lt ↦ ground (arith, staged.ended i)
    | no ge ↦ ground (arith, staged.uncreated i)
  ]

  at_phase :
      (ph : Phase)
      → l.phase ≡ ph
      → (i : ℕ) → at_null (now.pc i) ≡ false
      → IsSoundWith k (heap_at T readers ph l.sys) (now.pc i)
  at_phase freed e i h = rw (all_outside (ground arith) i) (tt, tt)
  at_phase (starting j) e i h = no_early_kfree reach i h
  at_phase running e i h = no_early_kfree reach i h
  at_phase (stopping j) e i h = no_early_kfree reach i h

  -- From the first `kthread_run` to the end of the exit function, with any RCU that fills the
  -- interface and any interleaving of the threads, of the callbacks and of loading and unloading:
  -- the next statement of each thread touches live objects only, `call_rcu` with the `rcu_head` that
  -- it writes included, unless `kmalloc` has returned NULL to this very thread.
  pub threads-IsSound :
      (i : ℕ) → at_null (now.pc i) ≡ false → IsSoundWith k (heap T readers l) (now.pc i)
  threads-IsSound = at_phase l.phase refl

  -- When all threads have been stopped, the object that the exit function frees is live.
  pub exit_sound : l.phase ≡ stopping n → is_some (heap T readers l now.mem.gbl_foo) ≡ true
  exit_sound e = rw e (ground (arith, inv.whole.1))

  over : l.phase ≡ freed → IsOver T readers l
  over e l' (kthread_run f lt) = ground arith
  over e l' (started f) = ground arith
  over e l' (turn i random f g) = absurd (ended_all e i (ground arith) (ground arith))
  over e l' (call i lt f g a) = ground (arith, staged.ended i)
  over e l' (work i lt f g a) = ground (arith, staged.ended i)
  over e l' (back i f g) = absurd (ended_all e i (ground arith) (ground arith))
  over e l' (leave i f g) = absurd (ended_all e i (ground arith) (ground arith))
  over e l' (callback a) = a
  over e l' (rmmod f) = ground arith
  over e l' (kthread_stop f lt) = ground arith
  over e l' (stopped f lt g) = ground arith
  over e l' (kfree f) = ground arith

  left_behind :
      (p : Ptr)
      → is_some (heap_at T readers freed l.sys p) ≡ true
      → l.phase ≡ freed
      → now.mem.pending p ≡ true
  left_behind p live e = elim (no_lost_object reach (all_outside (ground arith)) p (ground arith)) [
    | inl g ↦ ground arith
    | inr w ↦ w
  ]

  -- When the exit function is over, no thread does anything any more: the only events that are left
  -- are callbacks of `call_rcu`, for which the exit function has not waited. The live objects are
  -- exactly those whose callback has been registered and has not run.
  pub exit_leaves :
      l.phase ≡ freed
      → IsOver T readers l
        × ((p : Ptr) → (is_some (heap T readers l p) ≡ true) ↔ (now.mem.pending p ≡ true))
  exit_leaves e =
      (over e, λ p. rw e (λ live. left_behind p live e, λ w. ground (arith, inv.pending_live p w)))

-- Where the old object is freed behind `synchronize_rcu`, no object is left when the exit function
-- is over.
pub exit_frees_all :
    {n : ℕ} {o : Ptr} {b c : ℕ} (T : Threads by_synchronize_rcu n o b c) (readers : ℕ)
    {l : Life T readers}
    → Lives T readers l
    → l.phase ≡ freed
    → (p : Ptr) → heap T readers l p ≡ none
exit_frees_all T readers {l} r e p = elim (Option-cases (heap T readers l p)) [
  | inl gone ↦ gone
  | inr (f, there) ↦ ground (
    arith,
    ((exit_leaves T readers r e).1 p).0,
    sync_pending (T.view-Reach l.sys (Lives-Staged T readers r).reached) p,
  )
]
