-- ===== src/Rcu/Quiz.antt =====
-- The question at the end of rcu/toy_impl/sample_locking.c: how the toy RCU can deadlock, with
-- another lock that an interrupt handler takes. CPU 0 holds that lock, with its interrupts off,
-- around a read-side critical section; CPU 1 calls `toy_synchronize_rcu`, and interrupts come at
-- any time.
use kernel_module_memo.Base.{
  ◌+◌, ◌≡◌, refl, ◌↔◌, inl, inr, Bool, true, false, ◌&&◌, ◌||◌, if◌then◌else◌, Bool-cases, some,
  arith,
}
use kernel_module_memo.Rcu.Lock.{
  RwLock, rcu_gp_mutex, toy_rcu_read_lock, toy_rcu_read_unlock, synchronize_enter,
  synchronize_leave,
}

pub data Cpu0 : Type 0 where
  before locked inside behind : Cpu0

pub data Cpu1 : Type 0 where
  calling writing synced : Cpu1

-- The handler on CPU 1: not running, at its `spin_lock`, or behind it.
pub data Handler : Type 0 where
  asleep spinning holding : Handler

pub record Cpus : Type 0 where
  pub gp : RwLock
  pub problematic_lock : Bool
  pub cpu0 : Cpu0
  pub cpu1 : Cpu1
  pub handler : Handler

abbrev pub boot : Cpus
boot = record {
  gp = rcu_gp_mutex;
  problematic_lock = false;
  cpu0 = before;
  cpu1 = calling;
  handler = asleep;
}

-- CPU 0 begins again behind its `spin_unlock`, and CPU 1 goes on only outside of the handler.
pub data Step (s : Cpus) : Cpus → Type 0 where
  spin_lock_irqsave :
      s.cpu0 ≡ before
      → s.problematic_lock ≡ false
      → Step s (record s { problematic_lock = true; cpu0 = locked })
  read_lock :
      {g : RwLock}
      → s.cpu0 ≡ locked
      → toy_rcu_read_lock s.gp ≡ some g
      → Step s (record s { gp = g; cpu0 = inside })
  read_unlock : s.cpu0 ≡ inside → Step s (record s { gp = toy_rcu_read_unlock s.gp; cpu0 = behind })
  spin_unlock_irqrestore :
      s.cpu0 ≡ behind → Step s (record s { problematic_lock = false; cpu0 = before })
  write_lock :
      {g : RwLock}
      → s.handler ≡ asleep
      → s.cpu1 ≡ calling
      → synchronize_enter s.gp ≡ some g
      → Step s (record s { gp = g; cpu1 = writing })
  write_unlock :
      s.handler ≡ asleep
      → s.cpu1 ≡ writing
      → Step s (record s { gp = synchronize_leave s.gp; cpu1 = synced })
  interrupt : s.handler ≡ asleep → Step s (record s { handler = spinning })
  handler_lock :
      s.handler ≡ spinning
      → s.problematic_lock ≡ false
      → Step s (record s { problematic_lock = true; handler = holding })
  handler_unlock :
      s.handler ≡ holding → Step s (record s { problematic_lock = false; handler = asleep })

pub data Reach : Cpus → Type 0 where
  start : Reach boot
  later : {s t : Cpus} → Reach s → Step s t → Reach t

abbrev inside_of : Cpu0 → Bool
inside_of inside = true
inside_of _ = false

abbrev writing_of : Cpu1 → Bool
writing_of writing = true
writing_of _ = false

abbrev holds_of : Cpu0 → Bool
holds_of before = false
holds_of _ = true

abbrev taken_by : Handler → Bool
taken_by holding = true
taken_by _ = false

-- The locks are as the two CPUs have left them, and nobody shares one that excludes the other.
abbrev Inv : Cpus → Type 0
Inv s =
    (s.gp.readers ≡ (if inside_of s.cpu0 then 1 else 0))
    × (s.gp.writing ≡ writing_of s.cpu1)
    × ((inside_of s.cpu0 && writing_of s.cpu1) ≡ false)
    × (s.problematic_lock ≡ (holds_of s.cpu0 || taken_by s.handler))
    × ((holds_of s.cpu0 && taken_by s.handler) ≡ false)

Step-Inv : {s t : Cpus} → Inv s → Step s t → Inv t
unfolding toy_rcu_read_lock toy_rcu_read_unlock synchronize_enter synchronize_leave
Step-Inv (r, w, x, l, y) (spin_lock_irqsave a b) = ground arith
Step-Inv (r, w, x, l, y) (read_lock a b) = ground arith
Step-Inv (r, w, x, l, y) (read_unlock a) = ground arith
Step-Inv (r, w, x, l, y) (spin_unlock_irqrestore a) = ground arith
Step-Inv (r, w, x, l, y) (write_lock h a b) = ground arith
Step-Inv (r, w, x, l, y) (write_unlock h a) = ground arith
Step-Inv (r, w, x, l, y) (interrupt h) = ground arith
Step-Inv (r, w, x, l, y) (handler_lock h a) = ground arith
Step-Inv (r, w, x, l, y) (handler_unlock h) = ground arith

Reach-Inv : {s : Cpus} → Reach s → Inv s
Reach-Inv start = (refl, refl, refl, refl, refl)
Reach-Inv (later r st) = Step-Inv (Reach-Inv r) st

abbrev pub IsStuck : Cpus → Type 0
IsStuck s = (t : Cpus) → Step s t → ⊥

-- CPU 0 waits for a reader's place in `rcu_gp_mutex`, which CPU 1 holds for writing, while CPU 1 is
-- in the handler, which waits for the lock of CPU 0.
abbrev pub IsDeadlock : Cpus → Type 0
IsDeadlock s = (s.cpu0 ≡ locked) × (s.cpu1 ≡ writing) × (s.handler ≡ spinning)

deadlock-IsStuck : {s : Cpus} → Inv s → IsDeadlock s → IsStuck s
unfolding toy_rcu_read_lock
deadlock-IsStuck (r, w, x, l, y) (a, b, c) t (spin_lock_irqsave d e) = ground arith
deadlock-IsStuck (r, w, x, l, y) (a, b, c) t (read_lock d e) = ground arith
deadlock-IsStuck (r, w, x, l, y) (a, b, c) t (read_unlock d) = ground arith
deadlock-IsStuck (r, w, x, l, y) (a, b, c) t (spin_unlock_irqrestore d) = ground arith
deadlock-IsStuck (r, w, x, l, y) (a, b, c) t (write_lock d e f) = ground arith
deadlock-IsStuck (r, w, x, l, y) (a, b, c) t (write_unlock d e) = ground arith
deadlock-IsStuck (r, w, x, l, y) (a, b, c) t (interrupt d) = ground arith
deadlock-IsStuck (r, w, x, l, y) (a, b, c) t (handler_lock d e) = ground arith
deadlock-IsStuck (r, w, x, l, y) (a, b, c) t (handler_unlock d) = ground arith

lock_free :
    (l : RwLock)
    → l.writing ≡ false
    → toy_rcu_read_lock l ≡ some (record l { readers = l.readers + 1 })
unfolding toy_rcu_read_lock
lock_free l e = rw e refl

-- A state in which nobody can go on is that deadlock.
only-IsDeadlock : (s : Cpus) → Inv s → IsStuck s → IsDeadlock s
only-IsDeadlock s (r, w, x, l, y) stuck = at_handler s.handler refl
  where
    reads : s.cpu0 ≡ locked → s.gp.writing ≡ false → ⊥
    reads e free = stuck _ (read_lock e (lock_free s.gp free))

    at_cpu0 : (c : Cpu0) → s.cpu0 ≡ c → s.handler ≡ spinning → IsDeadlock s
    at_cpu0 before e h = absurd (stuck _ (handler_lock h (ground arith)))
    at_cpu0 inside e h = absurd (stuck _ (read_unlock e))
    at_cpu0 behind e h = absurd (stuck _ (spin_unlock_irqrestore e))
    at_cpu0 locked e h = elim (Bool-cases s.gp.writing) [
      | inl held ↦ (e, ground arith, h)
      | inr free ↦ absurd (reads e free)
    ]

    at_handler : (h : Handler) → s.handler ≡ h → IsDeadlock s
    at_handler asleep e = absurd (stuck _ (interrupt e))
    at_handler holding e = absurd (stuck _ (handler_unlock e))
    at_handler spinning e = at_cpu0 s.cpu0 refl e

-- The answer to the question: in every state that the two CPUs reach, neither they nor the handler
-- can make a step exactly if CPU 0 is at `rcu_read_lock` with the lock of the handler, and CPU 1 is
-- within `toy_synchronize_rcu`, interrupted, with the handler at its `spin_lock`.
pub IsStuck-IsDeadlock : {s : Cpus} → Reach s → IsStuck s ↔ IsDeadlock s
IsStuck-IsDeadlock {s} r = (only-IsDeadlock s (Reach-Inv r), deadlock-IsStuck (Reach-Inv r))
