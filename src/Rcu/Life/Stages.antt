-- ===== src/Rcu/Life/Stages.antt =====
-- What the stages of the kthreads say about where they stand in RCU.
use kernel_module_memo.Base.{Bool, true, false, ℕ, ◌<◌, ◌≡◌, ◌≤◌, ◌⊎◌, inr, refl, ap, arith}
use kernel_module_memo.Base.Family.{update}
use kernel_module_memo.Rcu.Thread.{Ptr, Pc, idle}
use kernel_module_memo.Rcu.Grace.{Variant}
use kernel_module_memo.Rcu.Life.{
  Stage, Threads, unborn, calling, left, Phase, starting, stopping, freed, Life, Event, kthread_run,
  started, turn, call, work, back, leave, callback, rmmod, kthread_stop, stopped, kfree, Lives,
  start, later,
}

module _ {k : Variant} {n : ℕ} {o : Ptr} {b c : ℕ} (T : Threads k n o b c) (readers : ℕ) where
  open T use {State, view, Act, Callback, IsReached}

  -- The threads before this index have ended.
  abbrev pub joined : Phase → ℕ
  joined (stopping j) = j
  joined freed = n
  joined _ = 0

  -- How many threads there are.
  abbrev pub created : Phase → ℕ
  created (starting j) = j
  created _ = n

  abbrev pub is_born : Stage → Bool
  is_born unborn = false
  is_born _ = true

  -- Outside of the call a thread is outside of RCU, and those that `kthread_stop` has waited for
  -- have left their loops.
  pub record Staged (l : Life T readers) : Type 0 where
    pub reached : IsReached l.sys
    pub outside : (i : ℕ) → (l.stage i ≡ calling) ⊎ ((view l.sys).pc i ≡ idle)
    pub uncreated : (i : ℕ) → created l.phase ≤ i → l.stage i ≡ unborn
    pub born : (i : ℕ) → i < created l.phase → is_born (l.stage i) ≡ true
    pub within : joined l.phase ≤ n
    pub ended : (i : ℕ) → i < joined l.phase → l.stage i ≡ left

  Act-pc :
      {i : ℕ} {s t : State} {p : Pc}
      → IsReached s
      → Act i s p t
      → (view t).pc ≡ update (view s).pc i p
  Act-pc {i} {s} {t} {p} r a = let (m, mv, e) = T.view-Move i s p t r a in ap (λ v. v.pc) e

  Callback-pc : {s t : State} → IsReached s → Callback s t → (view t).pc ≡ (view s).pc
  Callback-pc {s} {t} r a = let (q, f, due, there, e) = T.view-Callback s t r a in ap (λ v. v.pc) e

  Event-Staged : {l l' : Life T readers} → Staged l → Event T readers l l' → Staged l'
  Event-Staged {l} h (kthread_run {i} e lt) = record {
    reached = h.reached;
    outside = λ j. ground (arith, h.outside j, h.uncreated i);
    uncreated = λ j ge. ground (arith, h.uncreated j);
    born = λ j lt'. ground (arith, h.born j);
    within = ground arith;
    ended = λ j lt'. absurd (omega arith);
  }
  Event-Staged h (started e) = record {
    reached = h.reached;
    outside = h.outside;
    uncreated = λ j ge. ground (arith, h.uncreated j);
    born = λ j lt'. ground (arith, h.born j);
    within = ground arith;
    ended = λ j lt'. absurd (omega arith);
  }
  Event-Staged h (turn i random e f) = record {
    reached = h.reached;
    outside = λ j. ground (arith, h.outside j);
    uncreated = λ j ge. ground (arith, h.uncreated j);
    born = λ j lt'. ground (arith, h.born j);
    within = h.within;
    ended = λ j lt'. ground (arith, h.ended j);
  }
  Event-Staged h (call i lt e f a) = record {
    reached = T.act-IsReached i _ _ _ h.reached lt a;
    outside = λ j. ground (arith, ap (λ g. g j) (Act-pc h.reached a), h.outside j);
    uncreated = λ j ge. ground (arith, h.uncreated j);
    born = λ j lt'. ground (arith, h.born j);
    within = h.within;
    ended = λ j lt'. ground (arith, h.ended j);
  }
  Event-Staged h (work i lt e f a) = record {
    reached = T.act-IsReached i _ _ _ h.reached lt a;
    outside = λ j. ground (arith, ap (λ g. g j) (Act-pc h.reached a), h.outside j);
    uncreated = λ j ge. ground (arith, h.uncreated j);
    born = λ j lt'. ground (arith, h.born j);
    within = h.within;
    ended = h.ended;
  }
  Event-Staged h (back i e f) = record {
    reached = h.reached;
    outside = λ j. ground (arith, h.outside j);
    uncreated = λ j ge. ground (arith, h.uncreated j);
    born = λ j lt'. ground (arith, h.born j);
    within = h.within;
    ended = λ j lt'. ground (arith, h.ended j);
  }
  Event-Staged h (leave i e f) = record {
    reached = h.reached;
    outside = λ j. ground (arith, h.outside j);
    uncreated = λ j ge. ground (arith, h.uncreated j);
    born = λ j lt'. ground (arith, h.born j);
    within = h.within;
    ended = λ j lt'. ground (arith, h.ended j);
  }
  Event-Staged h (callback f) = record {
    reached = T.callback-IsReached _ _ h.reached f;
    outside = λ j. ground (arith, ap (λ g. g j) (Callback-pc h.reached f), h.outside j);
    uncreated = λ j ge. ground (arith, h.uncreated j);
    born = λ j lt'. ground (arith, h.born j);
    within = h.within;
    ended = h.ended;
  }
  Event-Staged h (rmmod e) = record {
    reached = h.reached;
    outside = h.outside;
    uncreated = λ j ge. ground (arith, h.uncreated j);
    born = λ j lt'. ground (arith, h.born j);
    within = ground arith;
    ended = λ j lt'. absurd (omega arith);
  }
  Event-Staged h (kthread_stop e lt) = record {
    reached = h.reached;
    outside = h.outside;
    uncreated = λ j ge. ground (arith, h.uncreated j);
    born = λ j lt'. ground (arith, h.born j);
    within = h.within;
    ended = h.ended;
  }
  Event-Staged h (stopped {i} e lt f) = record {
    reached = h.reached;
    outside = h.outside;
    uncreated = λ j ge. ground (arith, h.uncreated j);
    born = λ j lt'. ground (arith, h.born j);
    within = ground arith;
    ended = λ j lt'. ground (arith, h.ended j);
  }
  Event-Staged h (kfree e) = record {
    reached = h.reached;
    outside = h.outside;
    uncreated = λ j ge. ground (arith, h.uncreated j);
    born = λ j lt'. ground (arith, h.born j);
    within = ground arith;
    ended = λ j lt'. ground (arith, h.ended j);
  }

  pub Lives-Staged : {l : Life T readers} → Lives T readers l → Staged l
  Lives-Staged start = record {
    reached = T.boot-IsReached;
    outside = λ i. inr (ap (λ v. v.pc i) T.view_boot);
    uncreated = λ j ge. refl;
    born = λ j lt. absurd (omega arith);
    within = omega arith;
    ended = λ j lt. absurd (omega arith);
  }
  Lives-Staged (later r e) = Event-Staged (Lives-Staged r) e
