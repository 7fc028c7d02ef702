-- ===== src/Rcu/Oom.antt =====
-- `foo_update_a` does not test what `kmalloc` returns: what follows when it is NULL.
use kernel_module_memo.Base.{ℕ, ◌≡◌, ◌≢◌, refl, ◌∙◌, ap, true, none, arith}
use kernel_module_memo.Rcu.Thread.{Ptr, Memory, Pc, fetched, Move, read_lock, publish}
use kernel_module_memo.Rcu.System.{System, pick, Reach, later, Steps, rest, more}
use kernel_module_memo.Rcu.Refinement.{Reach-Grace}
use kernel_module_memo.Rcu.Roles.{updating}

-- A thread that is about to store through NULL makes no step.
null_stuck :
    {m m' : Memory} {p p' : Pc} (v : ℕ) (q : Ptr) → Move m p m' p' → p ≡ fetched none v q → ⊥
null_stuck v q (read_lock g) e = cc
null_stuck v q mv e = cc

-- Under `foo_mutex` only its holder assigns `gbl_foo`.
same_gbl :
    {m m' : Memory} (pc : ℕ → Pc) {p p' : Pc} (i j : ℕ)
    → ((i j : ℕ) → updating (pc i) ≡ true → updating (pc j) ≡ true → i ≡ j)
    → Move m p m' p'
    → pc j ≡ p
    → updating (pc i) ≡ true
    → j ≢ i
    → (m'.gbl_foo ≡ m.gbl_foo)
same_gbl pc i j one publish e up ne = ground (arith, one j i)
same_gbl pc i j one (read_lock g) e up ne = refl
same_gbl pc i j one mv e up ne = refl

module _ {n b c : ℕ} {o : Ptr} {s : System} (r : Reach n o b c s) where
  -- `s` has gone on to `t`, and thread `i` has not.
  record Jammed (i v : ℕ) (q : Ptr) (t : System) : Type 0 where
    reach : Reach n o b c t
    here : t.pc i ≡ fetched none v q
    same : t.mem.gbl_foo ≡ s.mem.gbl_foo

  Steps-Jammed :
      {t : System} (i v : ℕ) (q : Ptr) → s.pc i ≡ fetched none v q → Steps n s t → Jammed i v q t
  Steps-Jammed i v q e rest = record { reach = r; here = e; same = refl }
  Steps-Jammed i v q e (more {t = u} past (pick j lt mv)) =
      let jam = Steps-Jammed i v q e past in
      let other : j ≢ i = λ h. null_stuck v q mv (ap u.pc h ∙ jam.here) in
      record {
        reach = later jam.reach (pick j lt mv);
        here = ground (arith, jam.here);
        same =
            same_gbl u.pc i j (Reach-Grace jam.reach).mutex_one mv refl (ap updating jam.here) other
            ∙ jam.same;
      }

  -- If `kmalloc` returned NULL to an updater and it took `foo_mutex`, then in every later state the
  -- mutex is held and `gbl_foo` is as it was: no update is ever published again.
  pub null_blocks_updates :
      {t : System} (i v : ℕ) (q : Ptr)
      → s.pc i ≡ fetched none v q
      → Steps n s t
      → (t.mem.foo_mutex ≡ true) × (t.mem.gbl_foo ≡ s.mem.gbl_foo)
  null_blocks_updates i v q e past =
      let jam = Steps-Jammed i v q e past in
      ((Reach-Grace jam.reach).mutex_held i (ap updating jam.here), jam.same)
