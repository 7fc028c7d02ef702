-- ===== src/Rcu/Grace/Invariant/Contents.antt =====
-- A move of one thread keeps what `Inv` says of contents and of owners.
use kernel_module_memo.Base.{ℕ, ◌≡◌, refl, ◌∙◌, ap, sym, inl, inr, arith, ℕ_discrete}
use mathlib.Core.Logic.{if_pos, if_neg}
use kernel_module_memo.Base.Family.{update}
use kernel_module_memo.Rcu.Thread.{Ptr, Pc}
use kernel_module_memo.Rcu.Roles.{own, IsLive, IsFilled, IsFilled-frame}
use kernel_module_memo.Rcu.Grace.{
  Variant, Memory, Move, read_lock, kmalloc, copy, fill, publish, call_rcu, kfree,
}
use kernel_module_memo.Rcu.Grace.Invariant.Pointers.{Move-frame}
use kernel_module_memo.Rcu.Grace.Invariant.Defs.{Tracked, Inv}

-- Nobody loses an object by a move that leaves the mover's own, `gbl_foo` and the callbacks alone.
keep_owner :
    (m : Memory) (pc : ℕ → Pc) (i : ℕ) {p : Pc} (p' : Pc) (m' : Memory)
    → m'.gbl_foo ≡ m.gbl_foo
    → m'.pending ≡ m.pending
    → own p' ≡ own p
    → pc i ≡ p
    → (q : Ptr) → Tracked m pc q
    → Tracked m' (update pc i p') q
keep_owner m pc i p' m' g r o e q (inl h) = inl (h ∙ sym g)
keep_owner m pc i p' m' g r o e q (inr (inl (j, w))) = inr (inl (j, ground arith))
keep_owner m pc i p' m' g r o e q (inr (inr w)) = inr (inr (ap (λ f. f q) r ∙ w))

module _ {k : Variant} {n b c : ℕ} {m : Memory} {pc : ℕ → Pc} (inv : Inv n b c m pc) (i : ℕ) where
  open inv use {own_live, own_apart, fetched_gbl, whole, filled_lem}

  Move-IsFilled_self :
      {p p' : Pc} {m' : Memory} → Move k i m p m' p' → pc i ≡ p → IsFilled b c m'.cell p'
  Move-IsFilled_self (copy {p} {q} x y) e = (whole.0, ground (arith, whole.1, fetched_gbl i q))
  Move-IsFilled_self (fill x) e = ground (arith, filled_lem i)
  Move-IsFilled_self read_lock e = tt
  Move-IsFilled_self mv e = tt

  pub Move-IsFilled :
      {p p' : Pc} {m' : Memory}
      → Move k i m p m' p'
      → pc i ≡ p
      → (j : ℕ) → IsFilled b c m'.cell (update pc i p' j)
  Move-IsFilled {p} {p'} {m'} mv e j = elim (ℕ_discrete i j) [
    | yes here ↦ rw (if_pos _ here) (Move-IsFilled_self mv e)
    | no other ↦ rw (if_neg _ other) (
        IsFilled-frame b c m.cell m'.cell (pc j)
          (λ q o.
            Move-frame inv i mv q (own_live j q o).0
              (λ o'. other (own_apart i j q (ap own e ∙ o') o)))
          (filled_lem j))
  ]

  pub Move-Tracked :
      {p p' : Pc} {m' : Memory}
      → Move k i m p m' p'
      → pc i ≡ p
      → (q : Ptr) → IsLive m'.cell q
      → Tracked m' (update pc i p') q
  Move-Tracked (kmalloc f _ v _ free) e q live = elim (ℕ_discrete f q) [
    | yes new ↦ inr (inl (i, ground arith))
    | no old ↦ elim (inv.tracked q (ground arith)) [
      | inl g ↦ inl g
      | inr (inl (j, w)) ↦ inr (inl (j, ground arith))
      | inr (inr w) ↦ inr (inr w)
    ]
  ]
  Move-Tracked {p'} {m'} (copy {p} x y) e q live =
      keep_owner m pc i p' m' refl refl refl e q (inv.tracked q (ground arith))
  Move-Tracked {p'} {m'} (fill {p} x) e q live =
      keep_owner m pc i p' m' refl refl refl e q (inv.tracked q (ground arith))
  Move-Tracked (publish {p} {q = old}) e q live = elim (inv.tracked q live) [
    | inl g ↦ inr (inl (i, ground (arith, fetched_gbl i old)))
    | inr (inl (j, w)) ↦ elim (ℕ_discrete i j) [
      | yes here ↦ inl (ground arith)
      | no other ↦ inr (inl (j, ground arith))
    ]
    | inr (inr w) ↦ inr (inr w)
  ]
  Move-Tracked (call_rcu {q = old} v there) e q live = elim (inv.tracked q live) [
    | inl g ↦ inl g
    | inr (inl (j, w)) ↦ elim (ℕ_discrete i j) [
      | yes here ↦ inr (inr (ground arith))
      | no other ↦ inr (inl (j, ground arith))
    ]
    | inr (inr w) ↦ inr (inr (ground arith))
  ]
  Move-Tracked (kfree {q = old} x) e q live = elim (inv.tracked q (ground arith)) [
    | inl g ↦ inl g
    | inr (inl (j, w)) ↦ inr (inl (j, ground arith))
    | inr (inr w) ↦ inr (inr w)
  ]
  Move-Tracked {p'} {m'} read_lock e q live =
      keep_owner m pc i p' m' refl refl refl e q (inv.tracked q live)
  Move-Tracked {p'} {m'} mv e q live =
      keep_owner m pc i p' m' refl refl refl e q (inv.tracked q live)
