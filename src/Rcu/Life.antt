-- ===== src/Rcu/Life.antt =====
-- The life of a sample module: its kthreads, which `init_kthread` creates and `exit_sample_` stops,
-- over an RCU that carries out the calls which they make. RCU is an interface, which
-- rcu/toy_impl/sample_use.c and the two modules of rcu/use_example fill in `Modules`.
pub mod Stages
pub mod Safety
pub mod Values
pub mod Settle
pub mod Completion
pub mod Modules
mod Tests
use kernel_module_memo.Base.{
  ℕ, suc, ◌%◌, ◌<◌, ◌≡◌, ◌≢◌, Bool, true, false, Option, none, some, ltb, if◌then◌else◌,
}
use kernel_module_memo.Base.Family.{update}
use kernel_module_memo.Rcu.Thread.{Foo, Ptr, Pc, idle, entered, allocated, at_null}
use kernel_module_memo.Rcu.Completion.{starved}
use kernel_module_memo.Rcu.Grace.{Variant, Memory, System, Move, IsDue, reclaimed, init, Reach}

pub data Role : Type 0 where
  reader writer : Role

-- The first step of the call that the thread makes, with its random number.
abbrev pub Starts : Role → ℕ → Pc → Type 0
Starts reader random p = p ≡ entered
Starts writer random p = (new_fp : Option Ptr) × (p ≡ allocated new_fp (random % 100))

-- An RCU with `n` threads that call `foo_get_a` and `foo_update_a`: `view` shows each of its states
-- as one of the kernel's RCU, and its steps are steps there. `b` and `c` are what `kmalloc` left in
-- the first object, at `o`.
pub record Threads (k : Variant) (n : ℕ) (o : Ptr) (b c : ℕ) : Type 1 where
  pub State : Type 0
  pub view : State → System
  pub IsReached : State → Type 0
  -- Thread `i` makes a step, which takes it to this place.
  pub Act : ℕ → State → Pc → State → Type 0
  -- The kernel runs a callback.
  pub Callback : State → State → Type 0
  pub boot : State
  pub boot-IsReached : IsReached boot
  pub view_boot : view boot ≡ init o b c
  pub act-IsReached :
      (i : ℕ) (s : State) (p : Pc) (t : State) → IsReached s → i < n → Act i s p t → IsReached t
  pub callback-IsReached : (s t : State) → IsReached s → Callback s t → IsReached t
  pub view-Reach : (s : State) → IsReached s → Reach k n o b c (view s)
  pub view-Move :
      (i : ℕ) (s : State) (p : Pc) (t : State)
      → IsReached s
      → Act i s p t
      → (m : Memory) × Move k i (view s).mem ((view s).pc i) m p
        × (view t ≡ record { mem = m; pc = update (view s).pc i p })
  pub view-Callback :
      (s t : State)
      → IsReached s
      → Callback s t
      → (q : Ptr) × (f : Foo) × IsDue (view s).mem q
        × ((view s).mem.cell q ≡ some f)
        × (view t ≡ record (view s) { mem = reclaimed (view s).mem q })
  -- With memory granted, whoever waits waits for a thread that can go on, and in a state where
  -- nobody is inside each thread can begin a call.
  pub can_act :
      (s : State)
      → IsReached s
      → ((i : ℕ) → at_null ((view s).pc i) ≡ false)
      → (i : ℕ) → (view s).pc i ≢ idle
      → (j : ℕ) × (p : Pc) × (t : State) × ((view s).pc j ≢ idle) × Act j s p t
  pub can_call :
      (s : State)
      → IsReached s
      → ((i : ℕ) → (view s).pc i ≡ idle)
      → (i : ℕ) (who : Role) (random : ℕ)
      → (p : Pc) × (t : State) × Starts who random p × (starved p ≡ false) × Act i s p t

-- Where a kthread stands: not yet created, at the test of `kthread_should_stop`, in
-- `schedule_timeout` with its random number, in the call, or behind the loop.
pub data Stage : Type 0 where
  unborn : Stage
  top : Stage
  sleeping : (random : ℕ) → Stage
  calling : Stage
  left : Stage

-- Where the module stands: in `init_kthread` before the thread of this index, behind its init
-- function, in the exit function before the `kthread_stop` of this index, or behind its `kfree`.
pub data Phase : Type 0 where
  starting : (i : ℕ) → Phase
  running : Phase
  stopping : (i : ℕ) → Phase
  freed : Phase

-- `k[i]`: the readers come first.
abbrev pub role : (readers : ℕ) → ℕ → Role
role readers i = if ltb i readers then reader else writer

module _ {k : Variant} {n : ℕ} {o : Ptr} {b c : ℕ} (T : Threads k n o b c) (readers : ℕ) where
  open T use {State, view, Act, Callback, boot}

  -- `asked i` is what `kthread_should_stop` returns in thread `i`.
  pub record Life : Type 0 where
    pub sys : State
    pub stage : ℕ → Stage
    pub asked : ℕ → Bool
    pub phase : Phase

  pub data Event (l : Life) : Life → Type 0 where
    kthread_run :
        {i : ℕ}
        → l.phase ≡ starting i
        → i < n
        → Event l (record l { stage = update l.stage i top; phase = starting (suc i) })
    started : l.phase ≡ starting n → Event l (record l { phase = running })
    turn :
        (i random : ℕ)
        → l.stage i ≡ top
        → l.asked i ≡ false
        → Event l (record l { stage = update l.stage i (sleeping random) })
    call :
        (i : ℕ) {random : ℕ} {p : Pc} {s : State}
        → i < n
        → l.stage i ≡ sleeping random
        → Starts (role readers i) random p
        → Act i l.sys p s
        → Event l (record l { sys = s; stage = update l.stage i calling })
    work :
        (i : ℕ) {p : Pc} {s : State}
        → i < n
        → l.stage i ≡ calling
        → (view l.sys).pc i ≢ idle
        → Act i l.sys p s
        → Event l (record l { sys = s })
    back :
        (i : ℕ)
        → l.stage i ≡ calling
        → (view l.sys).pc i ≡ idle
        → Event l (record l { stage = update l.stage i top })
    leave :
        (i : ℕ)
        → l.stage i ≡ top
        → l.asked i ≡ true
        → Event l (record l { stage = update l.stage i left })
    -- The exit function does not wait for the callbacks (`rcu_barrier`): they run behind it too, as
    -- far as their code is still there.
    callback : {s : State} → Callback l.sys s → Event l (record l { sys = s })
    rmmod : l.phase ≡ running → Event l (record l { phase = stopping 0 })
    kthread_stop :
        {i : ℕ}
        → l.phase ≡ stopping i
        → i < n
        → Event l (record l { asked = update l.asked i true })
    stopped :
        {i : ℕ}
        → l.phase ≡ stopping i
        → i < n
        → l.stage i ≡ left
        → Event l (record l { phase = stopping (suc i) })
    kfree : l.phase ≡ stopping n → Event l (record l { phase = freed })

  abbrev pub loaded : Life
  loaded = record { sys = boot; stage = λ i. unborn; asked = λ i. false; phase = starting 0 }

  pub data Lives : Life → Type 0 where
    start : Lives loaded
    later : {l l' : Life} → Lives l → Event l l' → Lives l'

  -- Any number of events.
  pub data Events (l : Life) : Life → Type 0 where
    here : Events l l
    more : {l' l'' : Life} → Events l l' → Event l' l'' → Events l l''

  -- The slab heap: in `freed`, the `kfree(gbl_foo)` of the exit function has been carried out.
  abbrev pub heap_at : Phase → State → Ptr → Option Foo
  heap_at freed s = update (view s).mem.cell (view s).mem.gbl_foo none
  heap_at _ s = (view s).mem.cell

  abbrev pub heap : Life → Ptr → Option Foo
  heap l = heap_at l.phase l.sys
