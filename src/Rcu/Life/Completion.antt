-- ===== src/Rcu/Life/Completion.antt =====
-- The exit function of a sample module comes to its end.
use kernel_module_memo.Base.{
  ℕ, zero, suc, ◌+◌, ◌-◌, ◌≤◌, ◌<◌, ◌≡◌, refl, ap, ◌∙◌, true, false, arith,
}
use kernel_module_memo.Base.Family.{update, total}
use kernel_module_memo.Rcu.Thread.{Ptr, idle}
use kernel_module_memo.Rcu.Completion.{rank, starved}
use kernel_module_memo.Rcu.Grace.{Variant}
use kernel_module_memo.Rcu.Life.{
  Threads, role, Stage, unborn, top, sleeping, calling, left, stopping, freed, Life, call, back,
  leave, kthread_stop, stopped, kfree, Lives, later, Events, here, more,
}
use kernel_module_memo.Rcu.Life.Settle.{fed_update, settle}
use kernel_module_memo.Rcu.Life.Stages.{Lives-Staged}

module _ {k : Variant} {n : ℕ} {o : Ptr} {b c : ℕ} (T : Threads k n o b c) (readers : ℕ) where
  open T use {view}

  -- Behind further events, thread `j` has ended while `kthread_stop` waits for it.
  record Quit (l0 : Life T readers) (j : ℕ) : Type 0 where
    last : Life T readers
    quiet : (i : ℕ) → (view last.sys).pc i ≡ idle
    past : Events T readers l0 last
    lives : Lives T readers last
    waits : last.phase ≡ stopping j
    gone : last.stage j ≡ left

  module _ {l0 : Life T readers} (j : ℕ) where
    quits_at_top :
        {l : Life T readers}
        → Events T readers l0 l
        → Lives T readers l
        → ((i : ℕ) → (view l.sys).pc i ≡ idle)
        → l.phase ≡ stopping j
        → l.asked j ≡ true
        → l.stage j ≡ top
        → Quit l0 j
    quits_at_top {l} past r quiet p a s = record {
      last = record l { stage = update l.stage j left };
      quiet = quiet;
      past = more past (leave j s a);
      lives = later r (leave j s a);
      waits = p;
      gone = ground arith;
    }

    quits_calling :
        {l : Life T readers}
        → Events T readers l0 l
        → Lives T readers l
        → ((i : ℕ) → (view l.sys).pc i ≡ idle)
        → l.phase ≡ stopping j
        → l.asked j ≡ true
        → l.stage j ≡ calling
        → Quit l0 j
    quits_calling past r quiet p a s =
        let ev = back j s (quiet j) in
        quits_at_top (more past ev) (later r ev) quiet p a (ground arith)

    quits_asleep :
        {l : Life T readers} (random : ℕ)
        → j < n
        → Events T readers l0 l
        → Lives T readers l
        → ((i : ℕ) → (view l.sys).pc i ≡ idle)
        → l.phase ≡ stopping j
        → l.asked j ≡ true
        → l.stage j ≡ sleeping random
        → Quit l0 j
    quits_asleep {l} random lt past r quiet p a s =
        let h = Lives-Staged T readers r in
        let (place, t, starts, new, act) =
          T.can_call l.sys h.reached quiet j (role readers j) random in
        let ev = call j lt s starts act in
        let (m, mv, e) = T.view-Move j l.sys place t h.reached act in
        let pcs : (view t).pc ≡ update (view l.sys).pc j place = ap (λ v. v.pc) e in
        let fed : (x : ℕ) → starved ((view t).pc x) ≡ false = λ x.
          ap (λ f. starved (f x)) pcs
          ∙ fed_update (view l.sys).pc j place x (λ i. ap starved (quiet i)) new in
        let rest =
          settle T readers (total rank n (view t).pc) (more past ev) (later r ev) fed
            (omega arith) in
        quits_calling rest.past rest.lives rest.quiet p a (ground arith)

    quits :
        {l : Life T readers}
        → j < n
        → Events T readers l0 l
        → Lives T readers l
        → ((i : ℕ) → (view l.sys).pc i ≡ idle)
        → l.phase ≡ stopping j
        → l.asked j ≡ true
        → (s : Stage) → l.stage j ≡ s
        → Quit l0 j
    quits lt past r quiet p a unborn s = absurd (ground (arith, (Lives-Staged T readers r).born j))
    quits lt past r quiet p a top s = quits_at_top past r quiet p a s
    quits lt past r quiet p a (sleeping random) s = quits_asleep random lt past r quiet p a s
    quits lt past r quiet p a calling s = quits_calling past r quiet p a s
    quits {l} lt past r quiet p a left s = record {
      last = l;
      quiet = quiet;
      past = past;
      lives = r;
      waits = p;
      gone = s;
    }

  -- The loop of `kthread_stop`s, and `kfree`.
  stops :
      (left_over : ℕ) {l0 l : Life T readers} (j : ℕ)
      → j + left_over ≡ n
      → Events T readers l0 l
      → Lives T readers l
      → ((i : ℕ) → (view l.sys).pc i ≡ idle)
      → l.phase ≡ stopping j
      → (l' : Life T readers) × Events T readers l0 l' × (l'.phase ≡ freed)
  stops zero {l0} {l} j e past r quiet p =
      let at_end : l.phase ≡ stopping n = p ∙ ap stopping (omega arith) in
      (_, more past (kfree at_end), refl)
  stops (suc d) {l0} {l} j e past r quiet p =
      let lt : j < n = omega arith in
      let ev = kthread_stop p lt in
      let q = quits j lt (more past ev) (later r ev) quiet p (ground arith) (l.stage j) refl in
      let ended = stopped q.waits lt q.gone in
      stops d (suc j) (omega arith) (more q.past ended) (later q.lives ended) q.quiet refl

  -- `rmmod` ends: from each state in which the exit function has begun and no thread carries out an
  -- update for which `kmalloc` returned NULL, some further events, with memory granted, lead behind
  -- its `kfree`.
  pub exit_completes :
      {l : Life T readers} (j : ℕ)
      → Lives T readers l
      → l.phase ≡ stopping j
      → ((i : ℕ) → starved ((view l.sys).pc i) ≡ false)
      → (l' : Life T readers) × Events T readers l l' × (l'.phase ≡ freed)
  exit_completes {l} j r p fed =
      let rest = settle T readers (total rank n (view l.sys).pc) here r fed (omega arith) in
      let within : j ≤ n = ground (arith, (Lives-Staged T readers r).within) in
      stops (n - j) j (omega arith) rest.past rest.lives rest.quiet p
