-- ===== src/Rcu/Grace/Snapshot.antt =====
-- What a reader of the samples gets while other threads update, and callbacks free, objects.
use mathlib.Core.Path.{subst}
use kernel_module_memo.Base.{ℕ, ◌<◌, ◌≡◌, ◌≢◌, refl, ◌∙◌, ap, sym, some, arith}
use kernel_module_memo.Base.Family.{update}
use kernel_module_memo.Rcu.Thread.{Foo, Ptr, Pc, entered, derefed, loaded}
use kernel_module_memo.Rcu.Roles.{seen}
use kernel_module_memo.Rcu.Grace.{
  Variant, Memory, Move, read_lock, dereference, load_a, System, pick, reclaim, reclaimed, IsDue,
  Reach, later,
}
use kernel_module_memo.Rcu.Grace.Invariant.{Reach-Inv, Move-seen_frame}

-- Any number of steps, of callbacks and of threads but thread `i`.
pub data Others (k : Variant) (n i : ℕ) (s : System) : System → Type 0 where
  here : Others k n i s s
  next :
      {t : System} {m : Memory} {p : Pc} (j : ℕ)
      → Others k n i s t
      → j < n
      → i ≢ j
      → Move k j t.mem (t.pc j) m p
      → Others k n i s (record { mem = m; pc = update t.pc j p })
  foo_reclaim :
      {t : System} {f : Foo} (q : Ptr)
      → Others k n i s t
      → IsDue t.mem q
      → t.mem.cell q ≡ some f
      → Others k n i s (record t { mem = reclaimed t.mem q })

module _ {k : Variant} {n b c i : ℕ} {o : Ptr} {s : System} (r : Reach k n o b c s) where
  Others-Reach : {t : System} → Others k n i s t → Reach k n o b c t
  Others-Reach here = r
  Others-Reach (next j past lt ne mv) = later (Others-Reach past) (pick j lt mv)
  Others-Reach (foo_reclaim q past due e) = later (Others-Reach past) (reclaim q due e)

  Others-pc : {t : System} → Others k n i s t → t.pc i ≡ s.pc i
  Others-pc here = refl
  Others-pc (next j past lt ne mv) = ground (arith, Others-pc past)
  Others-pc (foo_reclaim q past due e) = Others-pc past

  Others-frame :
      {t : System} (q : Ptr)
      → seen (s.pc i) ≡ some q
      → Others k n i s t
      → t.mem.cell q ≡ s.mem.cell q
  Others-frame q e here = refl
  Others-frame q e (next j past lt ne mv) =
      Move-seen_frame (Reach-Inv (Others-Reach past)) j mv refl i q (ap seen (Others-pc past) ∙ e)
      ∙ Others-frame q e past
  Others-frame q e (foo_reclaim {t} p past due there) =
      let inv = Reach-Inv (Others-Reach past) in
      let looks : seen (t.pc i) ≡ some q = ap seen (Others-pc past) ∙ e in
      let apart : p ≢ q = λ x. ground (arith, inv.pending_waits i q looks, due.0, due.1 i, x) in
      ground (arith, apart, Others-frame q e past)

load_inverts :
    {k : Variant} {i : ℕ} {m m' : Memory} {p p' : Pc} (q : Ptr) (v : ℕ)
    → Move k i m p m' p'
    → p ≡ derefed q
    → p' ≡ loaded v
    → (f : Foo) × (m.cell q ≡ some f) × (f.a ≡ v)
load_inverts q v (load_a {f} h) e e' = (f, ground arith, ground arith)
load_inverts q v read_lock e e' = cc
load_inverts q v dereference e e' = cc
load_inverts q v mv e e' = cc

-- A thread that looks at an object loads what the object held when it began to.
pub frozen_read :
    {k : Variant} {n b c i v : ℕ} {o q : Ptr} {s t : System} {m' : Memory}
    → Reach k n o b c s
    → s.pc i ≡ derefed q
    → Others k n i s t
    → Move k i t.mem (t.pc i) m' (loaded v)
    → (f : Foo) × (s.mem.cell q ≡ some f) × (f.a ≡ v)
frozen_read {v} {q} r e others mv =
    let (f, got, val) = load_inverts q v mv (Others-pc r others ∙ e) refl in
    (f, sym (Others-frame r q (ap seen e) others) ∙ got, val)

-- With either variant, the value that `foo_get_a` loads is the `a` that the object behind `gbl_foo`
-- had when the thread dereferenced it, whatever steps other threads and callbacks make between the
-- two.
pub reads_snapshot :
    {k : Variant} {n b c i v : ℕ} {o : Ptr} {s t : System} {m' : Memory}
    → Reach k n o b c s
    → i < n
    → s.pc i ≡ entered
    → Others k n i (record { mem = s.mem; pc = update s.pc i (derefed s.mem.gbl_foo) }) t
    → Move k i t.mem (t.pc i) m' (loaded v)
    → s.mem.cell s.mem.gbl_foo ≡ some (record { a = v; b = b; c = c })
reads_snapshot {k} {n} {b} {c} {i} {v} {s} {t} {m'} r lt e others mv =
    let moved : Move k i s.mem (s.pc i) s.mem (derefed s.mem.gbl_foo) =
      subst (λ p. Move k i s.mem p s.mem (derefed s.mem.gbl_foo)) (sym e) dereference in
    let r' = later r (pick i lt moved) in
    let (f, got, val) = frozen_read {q = s.mem.gbl_foo} r' (ground arith) others mv in
    ground (arith, (Reach-Inv r).whole.1)
