-- ===== src/Rcu/Grace/Invariant.antt =====
-- The invariant of the samples: true at the start and kept by every step.
mod Defs
mod Pointers
mod Readers
mod Contents
pub use Defs.*
pub use Pointers.{Move-frame}
pub use Readers.{Move-seen_frame}
use kernel_module_memo.Base.{ℕ, ◌<◌, ◌≡◌, refl, ◌≢◌, inl, inr, Option, some, none, true, arith}
use kernel_module_memo.Base.Family.{update}
use kernel_module_memo.Rcu.Thread.{Foo, Ptr, Pc}
use kernel_module_memo.Rcu.Roles.{own, seen, IsFilled-frame}
use kernel_module_memo.Rcu.Grace.{
  Variant, Memory, Move, System, Step, pick, reclaim, IsDue, reclaimed, init, Reach, start, later,
}
use Pointers.{
  Move-mutex_held, Move-mutex_one, Move-whole, Move-own-IsLive, Move-own_apart, Move-pending-IsLive,
  Move-pending_apart, Move-fetched_gbl,
}
use Readers.{Move-inside, Move-seen-IsLive, Move-seen_apart, Move-pending_waits, Move-blocked_waits}
use Contents.{Move-IsFilled, Move-Tracked}

Inv-init : (n : ℕ) (p : Ptr) (b c : ℕ) → Inv n b c (init p b c).mem (init p b c).pc
Inv-init n p b c = record {
  parked = λ i ge. refl;
  whole = (5, ground arith);
  own_live = λ i q e. cc;
  own_apart = λ i j q e f. cc;
  pending_live = λ q e. cc;
  pending_apart = λ i q e f. cc;
  tracked = λ q l. inl (ground arith);
  seen_live = λ i q e. cc;
  seen_apart = λ i j q e f. cc;
  inside_lem = λ i e. absurd (omega arith);
  pending_waits = λ i q e f. cc;
  blocked_waits = λ i j q e f. cc;
  fetched_gbl = λ i q e. cc;
  filled_lem = λ i. tt;
  mutex_held = λ i e. cc;
  mutex_one = λ i j e f. cc;
}

module _ {k : Variant} {n b c : ℕ} {m : Memory} {pc : ℕ → Pc} (inv : Inv n b c m pc) where
  Move-Inv :
      (i : ℕ) {p' : Pc} {m' : Memory}
      → i < n
      → Move k i m (pc i) m' p'
      → Inv n b c m' (update pc i p')
  Move-Inv i lt mv = record {
    parked = λ j ge. ground (arith, inv.parked j);
    whole = Move-whole inv i mv refl;
    own_live = Move-own-IsLive inv i mv refl;
    own_apart = Move-own_apart inv i mv refl;
    pending_live = Move-pending-IsLive inv i mv refl;
    pending_apart = Move-pending_apart inv i mv refl;
    tracked = Move-Tracked inv i mv refl;
    seen_live = Move-seen-IsLive inv i mv refl;
    seen_apart = Move-seen_apart inv i mv refl;
    inside_lem = Move-inside inv i mv refl;
    pending_waits = Move-pending_waits inv i mv refl;
    blocked_waits = Move-blocked_waits inv i mv refl;
    fetched_gbl = Move-fetched_gbl inv i mv refl;
    filled_lem = Move-IsFilled inv i mv refl;
    mutex_held = Move-mutex_held inv i mv refl;
    mutex_one = Move-mutex_one inv i mv refl;
  }

module _ {n b c : ℕ} {m : Memory} {pc : ℕ → Pc} (inv : Inv n b c m pc) (q : Ptr)
    (due : IsDue m q) where
  reclaim-Tracked : (p : Ptr) → Tracked m pc p → p ≢ q → Tracked (reclaimed m q) pc p
  reclaim-Tracked p (inl g) ne = inl g
  reclaim-Tracked p (inr (inl w)) ne = inr (inl w)
  reclaim-Tracked p (inr (inr w)) ne = inr (inr (ground arith))

  reclaim-Inv : Inv n b c (reclaimed m q) pc
  reclaim-Inv = record {
    parked = inv.parked;
    whole = (inv.whole.0, ground (arith, inv.whole.1, inv.pending_live q due.0));
    own_live = λ i p e. ground (arith, inv.own_live i p e, inv.pending_apart i q due.0);
    own_apart = inv.own_apart;
    pending_live = λ p e. ground (arith, inv.pending_live p);
    pending_apart = λ i p e f. ground (arith, inv.pending_apart i p);
    tracked = λ p l. reclaim-Tracked p (inv.tracked p (ground arith)) (ground arith);
    seen_live = λ i p e. ground (arith, inv.seen_live i p, inv.pending_waits i p, due.1 i);
    seen_apart = inv.seen_apart;
    inside_lem = inv.inside_lem;
    pending_waits = λ i p e f. ground (arith, inv.pending_waits i p);
    blocked_waits = inv.blocked_waits;
    fetched_gbl = inv.fetched_gbl;
    filled_lem = λ i.
        IsFilled-frame b c m.cell (reclaimed m q).cell (pc i)
          (λ p o. ground (arith, inv.pending_apart i p)) (inv.filled_lem i);
    mutex_held = inv.mutex_held;
    mutex_one = inv.mutex_one;
  }

pub Step-Inv :
    {k : Variant} {n b c : ℕ} {s t : System}
    → Step k n s t
    → Inv n b c s.mem s.pc
    → Inv n b c t.mem t.pc
Step-Inv (pick i lt mv) inv = Move-Inv inv i lt mv
Step-Inv (reclaim q due e) inv = reclaim-Inv inv q due

pub Reach-Inv :
    {k : Variant} {n b c : ℕ} {p : Ptr} {s : System} → Reach k n p b c s → Inv n b c s.mem s.pc
Reach-Inv {n} {b} {c} {p} start = Inv-init n p b c
Reach-Inv (later r st) = Step-Inv st (Reach-Inv r)
