-- ===== src/Rcu/Life/Settle.antt =====
-- The calls that the kthreads of a sample module are in come to their ends.
use kernel_module_memo.Base.{
  ℕ, zero, suc, ◌≤◌, ◌<◌, ◌≡◌, ◌≢◌, refl, ap, ◌∙◌, false, none, ℕ_discrete, dec_lt, arith,
}
use kernel_module_memo.Base.Family.{update, total, total_some, total-update, le-total}
use kernel_module_memo.Rcu.Thread.{Ptr, Pc, idle}
use kernel_module_memo.Rcu.Completion.{rank, starved, starved-null, rank-idle}
use kernel_module_memo.Rcu.Grace.{
  Variant, Memory, Move, read_lock, kmalloc, kmalloc_fails, spin_lock, fetch, publish,
}
use kernel_module_memo.Rcu.Grace.Invariant.{Reach-Inv}
use kernel_module_memo.Rcu.Life.{Threads, Life, Event, work, Lives, later, Events, more}
use kernel_module_memo.Rcu.Life.Stages.{Lives-Staged}

Move-rank :
    {k : Variant} {i : ℕ} {m m' : Memory} {p p' : Pc}
    → Move k i m p m' p'
    → p ≢ idle
    → rank p' < rank p
Move-rank read_lock busy = absurd (busy refl)
Move-rank (kmalloc q f v ne free) busy = absurd (busy refl)
Move-rank (kmalloc_fails v) busy = absurd (busy refl)
Move-rank publish busy = omega arith
Move-rank mv busy = omega arith

Move-starved :
    {k : Variant} {i : ℕ} {m m' : Memory} {p p' : Pc}
    → Move k i m p m' p'
    → p ≢ idle
    → starved p ≡ false
    → starved p' ≡ false
Move-starved read_lock busy fed = refl
Move-starved (kmalloc q f v ne free) busy fed = refl
Move-starved (kmalloc_fails v) busy fed = absurd (busy refl)
Move-starved (spin_lock {n = none} f) busy fed = cc
Move-starved (fetch {n = none}) busy fed = cc
Move-starved mv busy fed = ground arith

pub fed_update :
    (pc : ℕ → Pc) (j : ℕ) (p : Pc) (x : ℕ)
    → ((i : ℕ) → starved (pc i) ≡ false)
    → starved p ≡ false
    → starved (update pc j p x) ≡ false
fed_update pc j p x fed new = ground (arith, fed x)

module _ {k : Variant} {n : ℕ} {o : Ptr} {b c : ℕ} (T : Threads k n o b c) (readers : ℕ) where
  open T use {State, view}

  -- Nobody carries out an update without memory.
  abbrev pub IsFed : Life T readers → Type 0
  IsFed l = (i : ℕ) → starved ((view l.sys).pc i) ≡ false

  -- Behind further events, the same stages and the same phase with all threads outside of RCU.
  pub record Rested (l0 l : Life T readers) : Type 0 where
    pub last : State
    pub quiet : (i : ℕ) → (view last).pc i ≡ idle
    pub past : Events T readers l0 (record l { sys = last })
    pub lives : Lives T readers (record l { sys = last })

  all_idle :
      {l : Life T readers}
      → Lives T readers l
      → total rank n (view l.sys).pc ≡ 0
      → (i : ℕ) → (view l.sys).pc i ≡ idle
  all_idle {l} r z i = elim (dec_lt i n) [
    | yes lt ↦ rank-idle ((view l.sys).pc i) (omega (arith, le-total rank n i (view l.sys).pc lt))
    | no ge ↦
        (Reach-Inv (T.view-Reach l.sys (Lives-Staged T readers r).reached)).parked i (omega arith)
  ]

  inside : {l : Life T readers} → Lives T readers l → (j : ℕ) → (view l.sys).pc j ≢ idle → j < n
  inside {l} r j busy = elim (dec_lt j n) [
    | yes lt ↦ lt
    | no ge ↦ absurd (
        busy (
          (Reach-Inv (T.view-Reach l.sys (Lives-Staged T readers r).reached)).parked j
            (omega arith)))
  ]

  -- A step of a call, which leaves fewer steps to make.
  record Worked (l : Life T readers) : Type 0 where
    last : State
    event : Event T readers l (record l { sys = last })
    fed : IsFed (record l { sys = last })
    less : total rank n (view last).pc < total rank n (view l.sys).pc

  works :
      {l : Life T readers}
      → Lives T readers l
      → IsFed l
      → total rank n (view l.sys).pc ≢ 0
      → Worked l
  works {l} r fed some_rank =
      let h = Lives-Staged T readers r in
      let (i, heavy) = total_some rank n (view l.sys).pc some_rank in
      let (j, p, t, busy, a) =
        T.can_act l.sys h.reached (λ x. starved-null _ (fed x)) i (λ e. heavy (ap rank e)) in
      let lt : j < n = inside r j busy in
      let (m, mv, e) = T.view-Move j l.sys p t h.reached a in
      let pcs : (view t).pc ≡ update (view l.sys).pc j p = ap (λ v. v.pc) e in
      record {
        last = t;
        event = work j lt (ground (arith, h.outside j, busy)) busy a;
        fed = λ x.
            ap (λ f. starved (f x)) pcs
            ∙ fed_update (view l.sys).pc j p x fed (Move-starved mv busy (fed j));
        less =
            rw pcs (omega (arith, total-update rank n j (view l.sys).pc p lt, Move-rank mv busy));
      }

  pub settle :
      (fuel : ℕ) {l0 l : Life T readers}
      → Events T readers l0 l
      → Lives T readers l
      → IsFed l
      → total rank n (view l.sys).pc ≤ fuel
      → Rested l0 l
  settle zero {l0} {l} past r fed le = record {
    last = l.sys;
    quiet = all_idle r (omega arith);
    past = past;
    lives = r;
  }
  settle (suc fuel) {l0} {l} past r fed le = elim (ℕ_discrete (total rank n (view l.sys).pc) 0) [
    | yes z ↦ record { last = l.sys; quiet = all_idle r z; past = past; lives = r }
    | no some_rank ↦
        let w = works r fed some_rank in
        let rest =
          settle fuel (more past w.event) (later r w.event) w.fed (omega (arith, w.less)) in
        record { last = rest.last; quiet = rest.quiet; past = rest.past; lives = rest.lives }
  ]
