-- ===== src/Rcu/Grace/Progress.antt =====
-- When callbacks and `synchronize_rcu` get on: grace periods wait for readers only.
use kernel_module_memo.Base.{ℕ, ◌≡◌, refl, Bool-cases, inl, inr, true, false, Option-cases, arith}
use kernel_module_memo.Base.Family.{update}
use kernel_module_memo.Rcu.Thread.{Ptr, Pc, waited}
use kernel_module_memo.Rcu.Roles.{reading, IsLive}
use kernel_module_memo.Rcu.Grace.{
  Variant, Memory, Move, read_lock, read_unlock, call_rcu, synchronize, System, Step, pick, reclaim,
  reclaimed, Reach, start, later,
}
use kernel_module_memo.Rcu.Grace.Invariant.{Reach-Inv}

-- A grace period waits for threads inside a read-side critical section only.
record Waits (m : Memory) (pc : ℕ → Pc) : Type 0 where
  inside_reading : (j : ℕ) → m.inside j ≡ true → reading (pc j) ≡ 1
  waits_inside : (q : Ptr) (j : ℕ) → m.waits q j ≡ true → m.inside j ≡ true

module _ {k : Variant} {m : Memory} {pc : ℕ → Pc} (w : Waits m pc) (i : ℕ) where
  Move-inside_reading :
      {p p' : Pc} {m' : Memory}
      → Move k i m p m' p'
      → pc i ≡ p
      → (j : ℕ) → m'.inside j ≡ true
      → reading (update pc i p' j) ≡ 1
  Move-inside_reading read_lock e j x = ground (arith, w.inside_reading j)
  Move-inside_reading read_unlock e j x = ground (arith, w.inside_reading j)
  Move-inside_reading mv e j x = ground (arith, w.inside_reading j)

  Move-waits_inside :
      {p p' : Pc} {m' : Memory}
      → Move k i m p m' p'
      → (q : Ptr) (j : ℕ) → m'.waits q j ≡ true
      → m'.inside j ≡ true
  Move-waits_inside read_lock q j x = ground (arith, w.waits_inside q j)
  Move-waits_inside read_unlock q j x = ground (arith, w.waits_inside q j)
  Move-waits_inside (call_rcu v there) q j x = ground (arith, w.waits_inside q j)
  Move-waits_inside (synchronize v) q j x = ground (arith, w.waits_inside q j)
  Move-waits_inside mv q j x = w.waits_inside q j x

Step-Waits :
    {k : Variant} {n : ℕ} {s t : System} → Step k n s t → Waits s.mem s.pc → Waits t.mem t.pc
Step-Waits (pick i lt mv) w = record {
  inside_reading = Move-inside_reading w i mv refl;
  waits_inside = Move-waits_inside w i mv;
}
Step-Waits (reclaim q due e) w = record {
  inside_reading = w.inside_reading;
  waits_inside = w.waits_inside;
}

Reach-Waits :
    {k : Variant} {n b c : ℕ} {p : Ptr} {s : System} → Reach k n p b c s → Waits s.mem s.pc
Reach-Waits start = record { inside_reading = λ j e. cc; waits_inside = λ q j e. cc }
Reach-Waits (later r st) = Step-Waits st (Reach-Waits r)

module _ {k : Variant} {n b c : ℕ} {o : Ptr} {s : System} (r : Reach k n o b c s)
    (out : (i : ℕ) → reading (s.pc i) ≡ 0) where
  pub no_waits : (q : Ptr) (j : ℕ) → s.mem.waits q j ≡ false
  no_waits q j = elim (Bool-cases (s.mem.waits q j)) [
    | inl e ↦
        ground (arith, (Reach-Waits r).inside_reading j, (Reach-Waits r).waits_inside q j, out j)
    | inr e ↦ e
  ]

  -- Once no thread is between `rcu_read_lock` and `rcu_read_unlock`, the kernel can run each
  -- callback that `call_rcu` registered, and what it frees is live.
  pub grace_periods_end :
      (q : Ptr)
      → s.mem.pending q ≡ true
      → IsLive s.mem.cell q × Step k n s (record s { mem = reclaimed s.mem q })
  grace_periods_end q e = elim (Option-cases (s.mem.cell q)) [
    | inl none_there ↦ ground (arith, (Reach-Inv r).pending_live q)
    | inr (f, there) ↦ (ground arith, reclaim q (e, no_waits q) there)
  ]

  -- Then `synchronize_rcu` can return, too.
  pub synchronize_returns : (i : ℕ) (q : Ptr) → Move k i s.mem (waited q) s.mem (Pc.expired q)
  synchronize_returns i q = Move.grace_over (no_waits q)
