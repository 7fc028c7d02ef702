-- ===== src/Rcu/Grace/Invariant/Readers.antt =====
-- A move of one thread keeps what `Inv` says of readers and of grace periods.
use kernel_module_memo.Base.{ℕ, ◌≡◌, refl, true, some, arith}
use kernel_module_memo.Base.Family.{update}
use kernel_module_memo.Rcu.Thread.{Ptr, Pc}
use kernel_module_memo.Rcu.Roles.{seen, reading, IsLive}
use kernel_module_memo.Rcu.Grace.{
  Variant, Memory, Move, read_lock, dereference, read_unlock, kmalloc, call_rcu, synchronize,
  grace_over, kfree, copy, fill,
}
use kernel_module_memo.Rcu.Grace.Invariant.Defs.{hidden, blocked, Inv}

-- Who looks at an object is in a read-side critical section.
seen-reading : (p : Pc) (q : Ptr) → seen p ≡ some q → reading p ≡ 1
seen-reading (Pc.derefed p) q e = refl
seen-reading Pc.idle q e = cc
seen-reading _ q e = cc

module _ {k : Variant} {n b c : ℕ} {m : Memory} {pc : ℕ → Pc} (inv : Inv n b c m pc) (i : ℕ) where
  open inv use {
    own_live, pending_live, pending_apart, seen_live, seen_apart, fetched_gbl, whole, inside_lem,
    pending_waits, blocked_waits,
  }

  pub Move-inside :
      {p p' : Pc} {m' : Memory}
      → Move k i m p m' p'
      → pc i ≡ p
      → (j : ℕ) → reading (update pc i p' j) ≡ 1
      → m'.inside j ≡ true
  Move-inside read_lock e j x = ground (arith, inside_lem j)
  Move-inside read_unlock e j x = ground (arith, inside_lem j)
  Move-inside mv e j x = ground (arith, inside_lem j)

  pub Move-seen-IsLive :
      {p p' : Pc} {m' : Memory}
      → Move k i m p m' p'
      → pc i ≡ p
      → (j : ℕ) (q : Ptr) → seen (update pc i p' j) ≡ some q
      → IsLive m'.cell q
  Move-seen-IsLive read_lock e j q x = ground (arith, seen_live j q)
  Move-seen-IsLive dereference e j q x = ground (arith, seen_live j q, whole.1)
  Move-seen-IsLive (kfree _) e j q x = ground (arith, seen_live j q, seen_apart j i q)
  Move-seen-IsLive mv e j q x = ground (arith, seen_live j q)

  pub Move-seen_apart :
      {p p' : Pc} {m' : Memory}
      → Move k i m p m' p'
      → pc i ≡ p
      → (j l : ℕ) (q : Ptr) → seen (update pc i p' j) ≡ some q
      → hidden (update pc i p' l) ≡ some q
      → ⊥
  Move-seen_apart read_lock e j l q x y = ground (arith, seen_apart j l q)
  Move-seen_apart dereference e j l q x y = ground (arith, seen_apart j l q, own_live l q)
  Move-seen_apart (kmalloc f _ v _ free) e j l q x y =
      ground (arith, seen_apart j l q, seen_live j q)
  Move-seen_apart (grace_over over) e j l q x y =
      ground (arith, seen_apart j l q, blocked_waits j i q, over j)
  Move-seen_apart mv e j l q x y = ground (arith, seen_apart j l q)

  pub Move-pending_waits :
      {p p' : Pc} {m' : Memory}
      → Move k i m p m' p'
      → pc i ≡ p
      → (j : ℕ) (q : Ptr) → seen (update pc i p' j) ≡ some q
      → m'.pending q ≡ true
      → m'.waits q j ≡ true
  Move-pending_waits read_lock e j q x y = ground (arith, pending_waits j q)
  Move-pending_waits dereference e j q x y = ground (arith, pending_waits j q, pending_live q)
  Move-pending_waits read_unlock e j q x y = ground (arith, pending_waits j q)
  Move-pending_waits (call_rcu v there) e j q x y =
      ground (arith, pending_waits j q, inside_lem j, seen-reading (pc j) q)
  Move-pending_waits (synchronize v) e j q x y =
      ground (arith, pending_waits j q, inside_lem j, seen-reading (pc j) q)
  Move-pending_waits mv e j q x y = ground (arith, pending_waits j q)

  pub Move-blocked_waits :
      {p p' : Pc} {m' : Memory}
      → Move k i m p m' p'
      → pc i ≡ p
      → (j l : ℕ) (q : Ptr) → seen (update pc i p' j) ≡ some q
      → blocked (update pc i p' l) ≡ some q
      → m'.waits q j ≡ true
  Move-blocked_waits read_lock e j l q x y = ground (arith, blocked_waits j l q)
  Move-blocked_waits dereference e j l q x y = ground (arith, blocked_waits j l q, own_live l q)
  Move-blocked_waits read_unlock e j l q x y = ground (arith, blocked_waits j l q)
  Move-blocked_waits (call_rcu v there) e j l q x y =
      ground (arith, blocked_waits j l q, inside_lem j, seen-reading (pc j) q)
  Move-blocked_waits (synchronize v) e j l q x y =
      ground (arith, blocked_waits j l q, inside_lem j, seen-reading (pc j) q)
  Move-blocked_waits mv e j l q x y = ground (arith, blocked_waits j l q)

  -- What a thread looks at stays as it is while another moves.
  pub Move-seen_frame :
      {p p' : Pc} {m' : Memory}
      → Move k i m p m' p'
      → pc i ≡ p
      → (j : ℕ) (q : Ptr) → seen (pc j) ≡ some q
      → m'.cell q ≡ m.cell q
  Move-seen_frame (kmalloc f _ v _ free) e j q s = ground (arith, seen_live j q)
  Move-seen_frame (copy _ _) e j q s = ground (arith, seen_apart j i q)
  Move-seen_frame (fill _) e j q s = ground (arith, seen_apart j i q)
  Move-seen_frame (kfree _) e j q s = ground (arith, seen_apart j i q)
  Move-seen_frame mv e j q s = refl
