-- ===== src/Rcu/Grace/Invariant/Pointers.antt =====
-- A move of one thread keeps what `Inv` says of the pointers that threads hold.
use kernel_module_memo.Base.{ℕ, ◌≡◌, refl, ◌≢◌, true, some, arith}
use kernel_module_memo.Base.Family.{update}
use kernel_module_memo.Rcu.Thread.{Ptr, Pc}
use kernel_module_memo.Rcu.Roles.{own, current, updating, IsLive}
use kernel_module_memo.Rcu.Grace.{
  Variant, Memory, Move, read_lock, kmalloc, spin_lock, copy, fill, publish, spin_unlock, call_rcu,
  kfree,
}
use kernel_module_memo.Rcu.Grace.Invariant.Defs.{Inv}

module _ {k : Variant} {n b c : ℕ} {m : Memory} {pc : ℕ → Pc} (inv : Inv n b c m pc) (i : ℕ) where
  open inv use {
    own_live, own_apart, pending_live, pending_apart, seen_live, fetched_gbl, whole, filled_lem,
    mutex_one, mutex_held,
  }

  pub Move-mutex_held :
      {p p' : Pc} {m' : Memory}
      → Move k i m p m' p'
      → pc i ≡ p
      → (j : ℕ) → updating (update pc i p' j) ≡ true
      → m'.foo_mutex ≡ true
  Move-mutex_held read_lock e j x = ground (arith, mutex_held j)
  Move-mutex_held spin_unlock e j x = ground (arith, mutex_held j, mutex_one i j)
  Move-mutex_held mv e j x = ground (arith, mutex_held j)

  pub Move-mutex_one :
      {p p' : Pc} {m' : Memory}
      → Move k i m p m' p'
      → pc i ≡ p
      → (j l : ℕ) → updating (update pc i p' j) ≡ true
      → updating (update pc i p' l) ≡ true
      → j ≡ l
  Move-mutex_one read_lock e j l x y = ground (arith, mutex_one j l)
  Move-mutex_one (spin_lock f) e j l x y = ground (arith, mutex_one j l, mutex_held j, mutex_held l)
  Move-mutex_one mv e j l x y = ground (arith, mutex_one j l)

  -- Live objects that the mover does not own stay as they are.
  pub Move-frame :
      {p p' : Pc} {m' : Memory}
      → Move k i m p m' p'
      → (q : Ptr) → IsLive m.cell q
      → own p ≢ some q
      → m'.cell q ≡ m.cell q
  Move-frame (kmalloc f _ v _ free) q live other = ground arith
  Move-frame (copy x y) q live other = ground arith
  Move-frame (fill x) q live other = ground arith
  Move-frame (kfree x) q live other = ground arith
  Move-frame mv q live other = refl

  pub Move-whole :
      {p p' : Pc} {m' : Memory}
      → Move k i m p m' p'
      → pc i ≡ p
      → (x : ℕ) × (m'.cell m'.gbl_foo ≡ some (record { a = x; b = b; c = c }))
  Move-whole (kmalloc f _ v _ free) e = (whole.0, ground (arith, whole.1))
  Move-whole (copy {p} x y) e = (whole.0, ground (arith, whole.1, own_live i p))
  Move-whole (fill {p} x) e = (whole.0, ground (arith, whole.1, own_live i p))
  Move-whole (publish {v}) e = (v, ground (arith, filled_lem i))
  Move-whole (kfree {q} x) e = (whole.0, ground (arith, whole.1, own_live i q))
  Move-whole mv e = whole

  pub Move-own-IsLive :
      {p p' : Pc} {m' : Memory}
      → Move k i m p m' p'
      → pc i ≡ p
      → (j : ℕ) (q : Ptr) → own (update pc i p' j) ≡ some q
      → IsLive m'.cell q × (q ≢ m'.gbl_foo)
  Move-own-IsLive read_lock e j q x = ground (arith, own_live j q)
  Move-own-IsLive (kmalloc f _ v _ free) e j q x = ground (arith, own_live j q, whole.1)
  Move-own-IsLive (copy {p} _ _) e j q x = ground (arith, own_live j q, own_live i p)
  Move-own-IsLive (publish {p} {q = r}) e j q x =
      ground (arith, own_live j q, own_live i p, fetched_gbl i r, own_apart i j q, whole.1)
  Move-own-IsLive (kfree {q = r} _) e j q x = ground (arith, own_live j q, own_apart i j q)
  Move-own-IsLive mv e j q x = ground (arith, own_live j q)

  pub Move-pending-IsLive :
      {p p' : Pc} {m' : Memory}
      → Move k i m p m' p'
      → pc i ≡ p
      → (q : Ptr) → m'.pending q ≡ true
      → IsLive m'.cell q × (q ≢ m'.gbl_foo)
  Move-pending-IsLive (kmalloc f _ v _ free) e q x = ground (arith, pending_live q)
  Move-pending-IsLive (copy {p} _ _) e q x = ground (arith, pending_live q)
  Move-pending-IsLive (fill {p} _) e q x = ground (arith, pending_live q)
  Move-pending-IsLive (publish {p}) e q x = ground (arith, pending_live q, pending_apart i q)
  Move-pending-IsLive (call_rcu {q = r} v there) e q x =
      ground (arith, pending_live q, own_live i r)
  Move-pending-IsLive (kfree {q = r} _) e q x = ground (arith, pending_live q, pending_apart i q)
  Move-pending-IsLive read_lock e q x = pending_live q x
  Move-pending-IsLive mv e q x = pending_live q x

  pub Move-own_apart :
      {p p' : Pc} {m' : Memory}
      → Move k i m p m' p'
      → pc i ≡ p
      → (j l : ℕ) (q : Ptr) → own (update pc i p' j) ≡ some q
      → own (update pc i p' l) ≡ some q
      → j ≡ l
  Move-own_apart read_lock e j l q x y = ground (arith, own_apart j l q)
  Move-own_apart publish e j l q x y =
      ground (arith, own_apart j l q, own_live j q, own_live l q, fetched_gbl i q)
  Move-own_apart (kmalloc f _ v _ free) e j l q x y =
      ground (arith, own_apart j l q, own_live j q, own_live l q)
  Move-own_apart mv e j l q x y = ground (arith, own_apart j l q)

  pub Move-pending_apart :
      {p p' : Pc} {m' : Memory}
      → Move k i m p m' p'
      → pc i ≡ p
      → (j : ℕ) (q : Ptr) → m'.pending q ≡ true
      → own (update pc i p' j) ≡ some q
      → ⊥
  Move-pending_apart read_lock e j q x y = ground (arith, pending_apart j q)
  Move-pending_apart (kmalloc f _ v _ free) e j q x y =
      ground (arith, pending_apart j q, pending_live q)
  Move-pending_apart publish e j q x y =
      ground (arith, pending_apart j q, pending_live q, fetched_gbl i q)
  Move-pending_apart (call_rcu v there) e j q x y =
      ground (arith, pending_apart j q, own_apart i j q)
  Move-pending_apart mv e j q x y = ground (arith, pending_apart j q)

  pub Move-fetched_gbl :
      {p p' : Pc} {m' : Memory}
      → Move k i m p m' p'
      → pc i ≡ p
      → (j : ℕ) (q : Ptr) → current (update pc i p' j) ≡ some q
      → q ≡ m'.gbl_foo
  Move-fetched_gbl read_lock e j q x = ground (arith, fetched_gbl j q)
  Move-fetched_gbl publish e j q x = ground (arith, fetched_gbl j q, mutex_one i j)
  Move-fetched_gbl mv e j q x = ground (arith, fetched_gbl j q)
