-- ===== src/Rcu/Life/Values.antt =====
-- The numbers that the threads of a sample module write and read.
use kernel_module_memo.Base.{
  ℕ, ◌<◌, ◌≡◌, ◌≢◌, refl, inl, inr, Option, none, some, ℕ_discrete, arith,
}
use kernel_module_memo.Base.Family.{update}
use kernel_module_memo.Rcu.Thread.{
  Foo, Ptr, Pc, idle, derefed, loaded, returned, allocated, locked, fetched, copied, filled,
}
use mathlib.Core.Logic.{dite}
use kernel_module_memo.Rcu.Roles.{seen}
use kernel_module_memo.Rcu.Grace.{
  Variant, Memory, System, Move, read_lock, finish, dereference, load_a, kmalloc, kmalloc_fails,
  publish, Step, pick, reclaim, reclaimed, IsDue, Reach,
}
use kernel_module_memo.Rcu.Life.{
  Threads, Role, reader, writer, role, Starts, Life, Event, Lives, start, later, kthread_run,
  started, turn, call, work, back, leave, callback, rmmod, kthread_stop, stopped, kfree,
}
use kernel_module_memo.Rcu.Life.Stages.{Lives-Staged}
use kernel_module_memo.Rcu.Grace.Invariant.{Inv, Reach-Inv, Move-seen_frame}
use kernel_module_memo.Rcu.Grace.Safety.{view, one_register}

abbrev pub IsSmallFoo : Option Foo → Type 0
IsSmallFoo none = Unit
IsSmallFoo (some f) = f.a < 100

-- What a thread carries or is about to read is below 100.
abbrev pub IsSmallAt : (Ptr → Option Foo) → Pc → Type 0
IsSmallAt cell (derefed p) = IsSmallFoo (cell p)
IsSmallAt cell (loaded v) = v < 100
IsSmallAt cell (returned v) = v < 100
IsSmallAt cell (allocated p v) = v < 100
IsSmallAt cell (locked p v) = v < 100
IsSmallAt cell (fetched p v q) = v < 100
IsSmallAt cell (copied p v q) = v < 100
IsSmallAt cell (filled p v q) = v < 100
IsSmallAt cell _ = Unit

pub record IsSmall (s : System) : Type 0 where
  pub view_small : IsSmallFoo (view s)
  pub small : (i : ℕ) → IsSmallAt s.mem.cell (s.pc i)

-- Other threads: what they look at stays.
IsSmallAt-frame :
    (cell cell' : Ptr → Option Foo) (p : Pc)
    → ((q : Ptr) → seen p ≡ some q → cell' q ≡ cell q)
    → IsSmallAt cell p
    → IsSmallAt cell' p
IsSmallAt-frame cell cell' (derefed q) same h = rw (same q refl) h
IsSmallAt-frame cell cell' idle same h = tt
IsSmallAt-frame cell cell' p same h = h

-- The thread itself, unless it starts a call.
Move-IsSmallAt :
    {k : Variant} {i : ℕ} {m m' : Memory} {p p' : Pc}
    → Move k i m p m' p'
    → IsSmallFoo (m.cell m.gbl_foo)
    → IsSmallAt m.cell p
    → p ≢ idle
    → IsSmallAt m'.cell p'
Move-IsSmallAt read_lock gbl h busy = tt
Move-IsSmallAt dereference gbl h busy = gbl
Move-IsSmallAt (load_a {f} e) gbl h busy = rw e at h
Move-IsSmallAt (kmalloc q junk v ne free) gbl h busy = absurd (busy refl)
Move-IsSmallAt (kmalloc_fails v) gbl h busy = absurd (busy refl)
Move-IsSmallAt finish gbl h busy = tt
Move-IsSmallAt publish gbl h busy = tt
Move-IsSmallAt mv gbl h busy = h

module _ {k : Variant} {n b c : ℕ} {o : Ptr} {s : System} (r : Reach k n o b c s) where
  inv : Inv n b c s.mem s.pc
  inv = Reach-Inv r

  -- What readers get stays, or is the number of a thread that is about to publish.
  view-IsSmall : {t : System} → IsSmall s → Step k n s t → IsSmallFoo (view t)
  view-IsSmall {t} h st = elim (one_register r st) [
    | inl same ↦ rw same h.view_small
    | inr (i, v, p, q, e, new) ↦ rw new (published i v p q e)
  ]
    where
      published : (i v : ℕ) (p q : Ptr) → s.pc i ≡ filled p v q → v < 100
      published i v p q e = ground (arith, h.small i)

  pick-small :
      (i : ℕ) {m : Memory} {p : Pc}
      → Move k i s.mem (s.pc i) m p
      → IsSmallAt m.cell p
      → IsSmall s
      → (j : ℕ) → IsSmallAt m.cell (update s.pc i p j)
  pick-small i {m} {p} mv self h j =
      elim (ℕ_discrete i j) as (λ d. IsSmallAt m.cell (dite d (λ _. p) (λ _. s.pc j))) [
        | yes same ↦ self
        | no other ↦
            IsSmallAt-frame s.mem.cell m.cell (s.pc j) (λ q e. Move-seen_frame inv i mv refl j q e)
              (h.small j)
      ]

  pub pick-IsSmall :
      (i : ℕ) {m : Memory} {p : Pc}
      → i < n
      → Move k i s.mem (s.pc i) m p
      → IsSmallAt m.cell p
      → IsSmall s
      → IsSmall (record { mem = m; pc = update s.pc i p })
  pick-IsSmall i lt mv self h = record {
    view_small = view-IsSmall h (pick i lt mv);
    small = pick-small i mv self h;
  }

  pub reclaim-IsSmall :
      (q : Ptr) {f : Foo}
      → IsDue s.mem q
      → s.mem.cell q ≡ some f
      → IsSmall s
      → IsSmall (record s { mem = reclaimed s.mem q })
  reclaim-IsSmall q due e h = record {
    view_small = view-IsSmall h (reclaim q due e);
    small = λ i.
        IsSmallAt-frame s.mem.cell (reclaimed s.mem q).cell (s.pc i)
          (λ p l. ground (arith, inv.pending_waits i p, due.1 i)) (h.small i);
  }

Starts-IsSmallAt :
    (cell : Ptr → Option Foo) (who : Role) (random : ℕ) (p : Pc)
    → Starts who random p
    → IsSmallAt cell p
Starts-IsSmallAt cell reader random p e = rw e tt
Starts-IsSmallAt cell writer random p (q, e) = rw e (omega arith)

module _ {k : Variant} {n : ℕ} {o : Ptr} {b c : ℕ} (T : Threads k n o b c) (readers : ℕ) where
  acted :
      (i : ℕ) (s : T.State) (p : Pc) (t : T.State)
      → T.IsReached s
      → i < n
      → T.Act i s p t
      → ((m : Memory) → Move k i (T.view s).mem ((T.view s).pc i) m p → IsSmallAt m.cell p)
      → IsSmall (T.view s)
      → IsSmall (T.view t)
  acted i s p t r lt a self h =
      let (m, mv, e) = T.view-Move i s p t r a in
      rw e (pick-IsSmall (T.view-Reach s r) i lt mv (self m mv) h)

  Event-IsSmall :
      {l l' : Life T readers}
      → T.IsReached l.sys
      → Event T readers l l'
      → IsSmall (T.view l.sys)
      → IsSmall (T.view l'.sys)
  Event-IsSmall r (kthread_run e lt) h = h
  Event-IsSmall r (started e) h = h
  Event-IsSmall r (turn i random e f) h = h
  Event-IsSmall {l} r (call i {random} {p} {s} lt e f a) h =
      acted i l.sys p s r lt a (λ m mv. Starts-IsSmallAt m.cell (role readers i) random p f) h
  Event-IsSmall {l} r (work i {p} {s} lt e busy a) h =
      acted i l.sys p s r lt a (λ m mv. Move-IsSmallAt mv h.view_small (h.small i) busy) h
  Event-IsSmall r (back i e f) h = h
  Event-IsSmall r (leave i e f) h = h
  Event-IsSmall {l} r (callback {s} a) h =
      let (q, f, due, there, seen_as) = T.view-Callback l.sys s r a in
      rw seen_as (reclaim-IsSmall (T.view-Reach l.sys r) q due there h)
  Event-IsSmall r (rmmod e) h = h
  Event-IsSmall r (kthread_stop e lt) h = h
  Event-IsSmall r (stopped e lt f) h = h
  Event-IsSmall r (kfree e) h = h

  Lives-IsSmall : {l : Life T readers} → Lives T readers l → IsSmall (T.view l.sys)
  Lives-IsSmall start = rw T.view_boot (record { view_small = ground arith; small = λ i. tt })
  Lives-IsSmall (later r e) = Event-IsSmall (Lives-Staged T readers r).reached e (Lives-IsSmall r)

  -- Whatever the random numbers are, each `kthread_reader` gets a number below 100 from `foo_get_a`.
  pub readers_below :
      {l : Life T readers} (i v : ℕ)
      → Lives T readers l
      → (T.view l.sys).pc i ≡ returned v
      → v < 100
  readers_below i v r e = ground (arith, (Lives-IsSmall r).small i)
