-- ===== src/Samples/Loading.antt =====
-- Loading and unloading of the samples.
use kernel_module_memo.Base.{
  ℕ, zero, suc, ◌+◌, ◌≤◌, ◌<◌, ◌≡◌, refl, sym, ap, ◌∙◌, Bool, true, false, Option, none, some, List,
  [], ◌∷◌, ◌++◌, replicate, append_nil, append_assoc, arith, ℕ_discrete, dec_lt,
}
use kernel_module_memo.Base.Family.{update}
use kernel_module_memo.Kernel.Run.{done, Run, ok, oops, pure, Ends, then_run, ◌>>◌}
use kernel_module_memo.Kernel.Heap.{Ptr, Heap, put, IsFresh, SameObjects}
use kernel_module_memo.Samples.{
  Foo, Role, out, reader, writer, World, init_kthread, init_sample, exit_sample, spawn, update_call,
  grace_period,
}
use kernel_module_memo.Samples.Updates.{Holds}

module _ (runs : ℕ → Bool) where
  spawn_all :
      (role : Role) (i n : ℕ) (w : World)
      → ((j : ℕ) → i ≤ j → j < i + n → runs j ≡ true)
      → spawn role runs i n w ≡ ok tt (record w { threads = w.threads ++ replicate n role })
  unfolding spawn
  spawn_all role i zero w all =
      ap (λ t. ok tt (record w { threads = t })) (sym (append_nil w.threads))
  spawn_all role i (suc n) w all = rw (all i (omega arith) (omega arith)) (
      spawn_all role (suc i) n (record w { threads = w.threads ++ (role ∷ []) })
        (λ j le lt. all j (omega arith) (omega arith))
      ∙ ap (λ t. ok tt (record w { threads = t }))
          (append_assoc w.threads (role ∷ []) (replicate n role)))

  spawn_fails :
      (role : Role) (i n j : ℕ) (w : World)
      → i ≤ j
      → j < i + n
      → runs j ≡ false
      → spawn role runs i n w ≡ oops
  unfolding spawn
  spawn_fails role i zero j w le lt e = absurd (omega arith)
  spawn_fails role i (suc n) j w le lt e = elim (ℕ_discrete i j) [
    | yes same ↦ ground arith
    | no other ↦
        let w' = record w { threads = w.threads ++ (role ∷ []) } in
        ground (arith, spawn_fails role (suc i) n j w' (omega arith) (omega arith) e)
  ]

-- The heap behind `init_foo`.
abbrev pub with_foo : Foo → Heap Foo → Heap Foo
with_foo junk h = record {
  next = suc h.next;
  cell = update (update h.cell h.next (some junk)) h.next (some (record junk { a = 5 }));
}

-- The world behind the init function.
abbrev pub started : ℕ → Foo → World → World
started readers junk w = record w {
  heap = with_foo junk w.heap;
  gbl_foo = some w.heap.next;
  threads = w.threads ++ (replicate readers reader ++ (writer ∷ []));
  loaded = true;
}

-- The world behind the exit function, for `gbl_foo` at `p`.
abbrev pub stopped : World → Ptr → World
stopped v p = record v { heap = put v.heap p none; threads = []; loaded = false }

exit_at :
    (v : World) (p : Ptr) (f : Foo)
    → v.gbl_foo ≡ some p
    → v.heap.cell p ≡ some f
    → exit_sample v ≡ ok tt (stopped v p)
unfolding exit_sample
exit_at v p f g c = ground arith

abbrev pub AllRun : ℕ → (ℕ → Bool) → Type 0
AllRun n runs = (j : ℕ) → j < n → runs j ≡ true

module _ (readers : ℕ) (junk : Foo) (runs : ℕ → Bool) (w : World) where
  abbrev ready : World
  ready = record w { heap = with_foo junk w.heap; gbl_foo = some w.heap.next }

  init_lem :
      AllRun (readers + 1) runs
      → init_sample readers true junk runs w ≡ ok (done 0) (started readers junk w)
  unfolding init_sample init_kthread out
  init_lem all =
      ap
        (λ r.
          then_run (then_run (then_run r (λ _. spawn writer runs readers 1)) (λ _. pure (done 0)))
            out)
        (spawn_all runs reader 0 readers ready (λ j le lt. all j (omega arith)))
      ∙ ap (λ r. then_run (then_run r (λ _. pure (done 0))) out)
          (spawn_all runs writer readers 1
            (record ready { threads = w.threads ++ replicate readers reader })
            (λ j le lt. all j lt))
      ∙ ap (λ t. ok (done 0) (record (started readers junk w) { threads = t }))
          (append_assoc w.threads (replicate readers reader) (writer ∷ []))

  writer_fails :
      (j : ℕ)
      → j ≡ readers
      → runs j ≡ false
      → (r : Run World (Unit {0}))
      → then_run (then_run (then_run r (λ _. spawn writer runs readers 1)) (λ _. pure (done 0))) out
        ≡ oops
  writer_fails j at e oops = refl
  writer_fails j at e (ok u v) =
      ap (λ r. then_run (then_run r (λ _. pure (done 0))) out)
        (spawn_fails runs writer readers 1 j v (omega arith) (omega arith) e)

  -- If `init_foo` gets its memory and the kernel cannot start one of the threads, loading faults:
  -- the clean-up behind the label `out` is never reached.
  pub thread_failure_faults :
      (j : ℕ) → j < readers + 1 → runs j ≡ false → init_sample readers true junk runs w ≡ oops
  unfolding init_sample init_kthread
  thread_failure_faults j lt e = elim (dec_lt j readers) [
    | yes is_reader ↦
        ap
          (λ r.
            then_run (then_run (then_run r (λ _. spawn writer runs readers 1)) (λ _. pure (done 0)))
              out)
          (spawn_fails runs reader 0 readers j ready (omega arith) (omega arith) e)
    | no is_writer ↦ writer_fails j (omega arith) e (spawn reader runs 0 readers ready)
  ]

  -- When the allocation and every thread succeeds, on a heap that hands out new addresses only,
  -- loading and unloading again ends without a fault, with the objects from before, no thread and
  -- the module not loaded.
  pub init-exit :
      AllRun (readers + 1) runs
      → IsFresh w.heap
      → Ends
          (λ _ w'. SameObjects w.heap w'.heap × (w'.threads ≡ []) × (w'.loaded ≡ false))
          ((init_sample readers true junk runs >> exit_sample) w)
  init-exit all fresh =
      let v = started readers junk w in
      let whole : (init_sample readers true junk runs >> exit_sample) w
          ≡ ok tt (stopped v w.heap.next) =
        ap (λ r. then_run r (λ _. exit_sample)) (init_lem all)
        ∙ exit_at v w.heap.next (record junk { a = 5 }) refl (ground arith) in
      rw whole (λ q. ground (arith, fresh q), refl, refl)

grace_faults :
    (xs : List Ptr) (p : Ptr) (v : World)
    → v.callbacks ≡ xs ++ (p ∷ [])
    → v.loaded ≡ false
    → grace_period v ≡ oops
unfolding grace_period
grace_faults [] p v e l = ground arith
grace_faults (x ∷ xs) p v e l = ground arith

update_call_at :
    (junk : Foo) (w : World) (p : Ptr) (f : Foo) (v : ℕ)
    → w.gbl_foo ≡ some p
    → w.heap.cell p ≡ some f
    → p < w.heap.next
    → update_call true junk v w
      ≡ ok tt (record w {
        heap = record {
          next = suc w.heap.next;
          cell =
              update
                (update w.heap.cell w.heap.next (some junk))
                w.heap.next
                (some (record f { a = v }));
        };
        gbl_foo = some w.heap.next;
        callbacks = w.callbacks ++ (p ∷ []);
      })
unfolding update_call
update_call_at junk w p f v g c lt = ground arith

-- While `gbl_foo` points to a live object, an update with `call_rcu` that gets its memory and whose
-- grace period ends only after the module has been unloaded faults:
-- `exit_sample_` does not wait for callbacks, so `foo_reclaim` is called when it is no longer there.
pub late_callback_faults :
    (junk : Foo) (w : World) (f : Foo) (rest : Ptr → Option Foo) (v : ℕ)
    → Holds w f rest
    → (update_call true junk v >> exit_sample >> grace_period) w ≡ oops
late_callback_faults junk w f rest v (p, g, lt, gone, cells, fresh) =
    let here : w.heap.cell p ≡ some f = ground (arith, cells p) in
    let w' = record w {
      heap = record {
        next = suc w.heap.next;
        cell =
            update (update w.heap.cell w.heap.next (some junk)) w.heap.next
              (some (record f { a = v }));
      };
      gbl_foo = some w.heap.next;
      callbacks = w.callbacks ++ (p ∷ []);
    } in
    ap (λ r. then_run (then_run r (λ _. exit_sample)) (λ _. grace_period))
      (update_call_at junk w p f v g here lt)
    ∙ ap (λ r. then_run r (λ _. grace_period))
        (exit_at w' w.heap.next (record f { a = v }) refl (ground arith))
    ∙ grace_faults w.callbacks p (stopped w' w.heap.next) refl refl
