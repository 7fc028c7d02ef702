-- ===== src/Rcu/Grace/Safety.antt =====
-- What the samples guarantee in every state they reach with the kernel's RCU.
use kernel_module_memo.Base.{
  ℕ, ◌≡◌, ◌⊎◌, inl, inr, refl, ◌∙◌, ap, true, false, none, some, is_some, Option, arith,
}
use kernel_module_memo.Base.Family.{update}
use kernel_module_memo.Rcu.Thread.{
  Foo, Ptr, Pc, idle, derefed, fetched, copied, filled, unlocked, expired, IsSound, at_null,
}
use kernel_module_memo.Rcu.Roles.{own, seen}
use kernel_module_memo.Rcu.Grace.{
  Variant, by_call_rcu, by_synchronize_rcu, Memory, Move, read_lock, publish, System, Step, pick,
  reclaim, Reach, HeadIsLive, IsSoundWith,
}
use kernel_module_memo.Rcu.Grace.Invariant.{Inv, Reach-Inv, Move-frame}

module _ {k : Variant} {n b c : ℕ} {o : Ptr} {s : System} (r : Reach k n o b c s) where
  inv : Inv n b c s.mem s.pc
  inv = Reach-Inv r

  head_live : (k : Variant) (i : ℕ) (p : Pc) → s.pc i ≡ p → HeadIsLive k s.mem.cell p
  head_live by_call_rcu i (unlocked q) e = (inv.own_live i q (ap own e)).0
  head_live by_synchronize_rcu i (unlocked q) e = tt
  head_live k i idle e = tt
  head_live k i _ e = tt

  -- With either variant, in every reachable state, the next statement of each thread touches live
  -- objects only, `call_rcu` with the `rcu_head` that it writes included, unless `kmalloc` has
  -- returned NULL to this very thread.
  pub no_early_kfree : (i : ℕ) → at_null (s.pc i) ≡ false → IsSoundWith k s.mem.cell (s.pc i)
  no_early_kfree i h = (sound i (s.pc i) refl h, head_live k i (s.pc i) refl)
    where
      sound : (i : ℕ) (p : Pc) → s.pc i ≡ p → at_null p ≡ false → IsSound s.mem.cell p
      sound i (derefed p) e h = inv.seen_live i p (ap seen e)
      sound i (fetched none v q) e h = cc
      sound i (fetched (some p) v q) e h =
          ground (arith, inv.fetched_gbl i q, inv.whole.1, inv.own_live i p)
      sound i (copied p v q) e h = (inv.own_live i p (ap own e)).0
      sound i (expired q) e h = (inv.own_live i q (ap own e)).0
      sound i idle e h = tt
      sound i _ e h = tt

  -- With either variant, while every thread is outside `foo_get_a` and `foo_update_a`, each live
  -- object is the one behind `gbl_foo` or waits for its callback.
  pub no_lost_object :
      ((i : ℕ) → s.pc i ≡ idle)
      → (p : Ptr) → is_some (s.mem.cell p) ≡ true
      → (p ≡ s.mem.gbl_foo) ⊎ (s.mem.pending p ≡ true)
  no_lost_object quiet p live = elim (inv.tracked p live) [
    | inl g ↦ inl g
    | inr (inl (i, w)) ↦ ground (arith, quiet i)
    | inr (inr w) ↦ inr w
  ]

-- What a reader that enters now would get.
abbrev pub view : System → Option Foo
view s = s.mem.cell s.mem.gbl_foo

-- A store of `v` by some updater, and nothing else.
abbrev pub Publishes : ℕ → ℕ → System → System → Type 0
Publishes b c s t =
    (i v : ℕ) × (p q : Ptr) × (s.pc i ≡ filled p v q)
    × (view t ≡ some (record { a = v; b = b; c = c }))

-- With either variant, `gbl_foo` behaves as one atomic register: a step of any thread or of a
-- callback leaves what readers get as it is, or is the `rcu_assign_pointer` of an updater and stores
-- that updater's `new_a`, with `b` and `c` as ever.
pub one_register :
    {k : Variant} {n b c : ℕ} {o : Ptr} {s t : System}
    → Reach k n o b c s
    → Step k n s t
    → (view t ≡ view s) ⊎ Publishes b c s t
one_register r (reclaim q due e) = inl (ground (arith, (Reach-Inv r).pending_live q due.0))
one_register {k} {n} {b} {c} {s} r (pick i lt mv) = acts mv refl
  where
    inv : Inv n b c s.mem s.pc
    inv = Reach-Inv r

    acts :
        {p p' : Pc} {m' : Memory} (mv : Move k i s.mem p m' p')
        → s.pc i ≡ p
        → (view (record { mem = m'; pc = update s.pc i p' }) ≡ view s)
          ⊎ Publishes b c s (record { mem = m'; pc = update s.pc i p' })
    acts (publish {p} {q} {v}) e = inr (i, v, p, q, e, ground (arith, inv.filled_lem i))
    acts read_lock e = inl refl
    acts {p} mv e = inl (
        Move-frame inv i mv s.mem.gbl_foo (ground (arith, inv.whole.1))
          (λ o. (inv.own_live i s.mem.gbl_foo (ap own e ∙ o)).1 refl))
