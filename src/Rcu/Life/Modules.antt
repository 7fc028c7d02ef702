-- ===== src/Rcu/Life/Modules.antt =====
-- The three modules that work on `gbl_foo` from kthreads: rcu/use_example/sample_synchronize_rcu.c
-- and sample_call_rcu.c, over the kernel's RCU, and rcu/toy_impl/sample_use.c.
use kernel_module_memo.Base.{ℕ, ◌%◌, ◌<◌, ◌≡◌, ◌≢◌, refl, sym, false, some}
use kernel_module_memo.Base.Family.{update}
use kernel_module_memo.Rcu.Thread.{Foo, Ptr, Pc, idle, entered, allocated, at_null, Memory, Move}
use kernel_module_memo.Rcu.System.{System, Reach, start, later, pick, init}
use kernel_module_memo.Rcu.Invariant.{Reach-Inv}
use kernel_module_memo.Rcu.Refinement.{abstract_system, toy_refines, Move-refines}
use kernel_module_memo.Rcu.Grace
use kernel_module_memo.Rcu.Grace.{Variant, by_call_rcu, by_synchronize_rcu, IsDue, reclaimed}
use kernel_module_memo.Rcu.Life.{Threads, Role, reader, writer, Starts}
use kernel_module_memo.Rcu.Grace.Deadlock
use kernel_module_memo.Rcu.Progress.{no_deadlock, read_lock_free}
use kernel_module_memo.Rcu.Completion.{starved}
use mathlib.Core.Path.{subst}

-- Thread `i` makes a step of the samples over the kernel's RCU.
pub data Act (k : Variant) (i : ℕ) (s : Grace.System) : Pc → Grace.System → Type 0 where
  act :
      {m : Grace.Memory} {p : Pc}
      → Grace.Move k i s.mem (s.pc i) m p
      → Act k i s p (record { mem = m; pc = update s.pc i p })

-- The kernel runs `foo_reclaim`.
pub data Callback (s : Grace.System) : Grace.System → Type 0 where
  foo_reclaim :
      (q : Ptr) {f : Foo}
      → IsDue s.mem q
      → s.mem.cell q ≡ some f
      → Callback s (record s { mem = reclaimed s.mem q })

-- Thread `i` makes a step over the toy RCU.
pub data ToyAct (i : ℕ) (s : System) : Pc → System → Type 0 where
  toy_act :
      {m : Memory} {p : Pc}
      → Move s.mem (s.pc i) m p
      → ToyAct i s p (record { mem = m; pc = update s.pc i p })

pub kernel-Act :
    {k : Variant} {i : ℕ} {s : Grace.System} {p : Pc} {t : Grace.System}
    → Act k i s p t
    → (m : Grace.Memory) × Grace.Move k i s.mem (s.pc i) m p
      × (t ≡ record { mem = m; pc = update s.pc i p })
kernel-Act (act {m} mv) = (m, mv, refl)

pub kernel-Callback :
    {s t : Grace.System}
    → Callback s t
    → (q : Ptr) × (f : Foo) × IsDue s.mem q
      × (s.mem.cell q ≡ some f)
      × (t ≡ record s { mem = reclaimed s.mem q })
kernel-Callback (foo_reclaim q {f} due e) = (q, f, due, e, refl)

idle-Act :
    {k : Variant} {i : ℕ} {s : Grace.System} {m : Grace.Memory} {p : Pc}
    → s.pc i ≡ idle
    → Grace.Move k i s.mem idle m p
    → Act k i s p (record { mem = m; pc = update s.pc i p })
idle-Act {k} {i} {s} {m} {p} out mv = act (subst (λ x. Grace.Move k i s.mem x m p) (sym out) mv)

idle-ToyAct :
    {i : ℕ} {s : System} {m : Memory} {p : Pc}
    → s.pc i ≡ idle
    → Move s.mem idle m p
    → ToyAct i s p (record { mem = m; pc = update s.pc i p })
idle-ToyAct {i} {s} {m} {p} out mv = toy_act (subst (λ x. Move s.mem x m p) (sym out) mv)

junk : Foo
junk = record { a = 0; b = 0; c = 0 }

module _ (n : ℕ) (o : Ptr) (b c : ℕ) where
  pub kernel-Act-Reach :
      {k : Variant} {i : ℕ} {s : Grace.System} {p : Pc} {t : Grace.System}
      → Grace.Reach k n o b c s
      → i < n
      → Act k i s p t
      → Grace.Reach k n o b c t
  kernel-Act-Reach {i} r lt (act mv) = Grace.Reach.later r (Grace.Step.pick i lt mv)

  pub kernel-Callback-Reach :
      {k : Variant} {s t : Grace.System}
      → Grace.Reach k n o b c s
      → Callback s t
      → Grace.Reach k n o b c t
  kernel-Callback-Reach r (foo_reclaim q due e) = Grace.Reach.later r (Grace.Step.reclaim q due e)

  pub kernel_goes_on :
      {k : Variant} (s : Grace.System)
      → Grace.Reach k n o b c s
      → ((i : ℕ) → at_null (s.pc i) ≡ false)
      → (i : ℕ) → s.pc i ≢ idle
      → (j : ℕ) × (p : Pc) × (t : Grace.System) × (s.pc j ≢ idle) × Act k j s p t
  kernel_goes_on s r alive i busy =
      let (j, busy_j, (m, p, mv)) = Deadlock.no_deadlock r alive i busy in (j, p, _, busy_j, act mv)

  pub kernel_can_call :
      {k : Variant} (s : Grace.System)
      → Grace.Reach k n o b c s
      → (i : ℕ) → s.pc i ≡ idle
      → (who : Role) (random : ℕ)
      → (p : Pc) × (t : Grace.System) × Starts who random p × (starved p ≡ false) × Act k i s p t
  kernel_can_call s r i out reader random =
      (entered, _, refl, refl, idle-Act out Grace.Move.read_lock)
  kernel_can_call s r i out writer random =
      let (q, ne, free) = Deadlock.room r in
      let v : ℕ = random % 100 in
      (
        allocated (some q) v,
        _,
        (some q, refl),
        refl,
        idle-Act out (Grace.Move.kmalloc q junk v ne free),
      )

  abbrev pub kernel_threads : (k : Variant) → Threads k n o b c
  kernel_threads k = record {
    State = Grace.System;
    view = λ s. s;
    IsReached = Grace.Reach k n o b c;
    Act = Act k;
    Callback = Callback;
    boot = Grace.init o b c;
    boot-IsReached = Grace.Reach.start;
    view_boot = refl;
    act-IsReached = λ i s p t r lt a. kernel-Act-Reach r lt a;
    callback-IsReached = λ s t r a. kernel-Callback-Reach r a;
    view-Reach = λ s r. r;
    view-Move = λ i s p t r a. kernel-Act a;
    view-Callback = λ s t r a. kernel-Callback a;
    can_act = kernel_goes_on;
    can_call = λ s r quiet i who random. kernel_can_call s r i (quiet i) who random;
  }

  pub ToyAct-Reach :
      {i : ℕ} {s : System} {p : Pc} {t : System}
      → Reach n o b c s
      → i < n
      → ToyAct i s p t
      → Reach n o b c t
  ToyAct-Reach {i} r lt (toy_act mv) = later r (pick i lt mv)

  pub ToyAct-Move :
      {i : ℕ} {s : System} {p : Pc} {t : System}
      → Reach n o b c s
      → ToyAct i s p t
      → (m : Grace.Memory) × Grace.Move by_synchronize_rcu i (abstract_system s).mem (s.pc i) m p
        × (abstract_system t ≡ record { mem = m; pc = update s.pc i p })
  ToyAct-Move {i} r (toy_act mv) = (_, Move-refines (Reach-Inv r) i mv refl, refl)

  -- `toy_synchronize_rcu` returns before the old object is freed; there are no callbacks.
  pub toy_goes_on :
      (s : System)
      → Reach n o b c s
      → ((i : ℕ) → at_null (s.pc i) ≡ false)
      → (i : ℕ) → s.pc i ≢ idle
      → (j : ℕ) × (p : Pc) × (t : System) × (s.pc j ≢ idle) × ToyAct j s p t
  toy_goes_on s r alive i busy =
      let (j, busy_j, (m, p, mv)) = no_deadlock r alive i busy in (j, p, _, busy_j, toy_act mv)

  pub toy_can_call :
      (s : System)
      → Reach n o b c s
      → ((i : ℕ) → s.pc i ≡ idle)
      → (i : ℕ) (who : Role) (random : ℕ)
      → (p : Pc) × (t : System) × Starts who random p × (starved p ≡ false) × ToyAct i s p t
  toy_can_call s r quiet i reader random =
      let (g, free) = read_lock_free r quiet in
      (entered, _, refl, refl, idle-ToyAct (quiet i) (Move.read_lock free))
  toy_can_call s r quiet i writer random =
      let (q, ne, free) = Deadlock.room (toy_refines r) in
      let v : ℕ = random % 100 in
      (
        allocated (some q) v,
        _,
        (some q, refl),
        refl,
        idle-ToyAct (quiet i) (Move.kmalloc q junk v ne free),
      )

  abbrev pub toy_threads : Threads by_synchronize_rcu n o b c
  toy_threads = record {
    State = System;
    view = abstract_system;
    IsReached = Reach n o b c;
    Act = ToyAct;
    Callback = λ s t. ⊥;
    boot = init o b c;
    boot-IsReached = start;
    view_boot = refl;
    act-IsReached = λ i s p t r lt a. ToyAct-Reach r lt a;
    callback-IsReached = λ s t r a. absurd a;
    view-Reach = λ s r. toy_refines r;
    view-Move = λ i s p t r a. ToyAct-Move r a;
    view-Callback = λ s t r a. absurd a;
    can_act = toy_goes_on;
    can_call = toy_can_call;
  }

-- The modules, with their numbers of readers and one writer.
module _ (o : Ptr) (b c : ℕ) where
  abbrev pub sample_synchronize_rcu : Threads by_synchronize_rcu 11 o b c
  sample_synchronize_rcu = kernel_threads 11 o b c by_synchronize_rcu

  abbrev pub sample_call_rcu : Threads by_call_rcu 11 o b c
  sample_call_rcu = kernel_threads 11 o b c by_call_rcu

  abbrev pub sample_toy_rcu : Threads by_synchronize_rcu 3 o b c
  sample_toy_rcu = toy_threads 3 o b c
