-- ===== src/Samples.antt =====
-- rcu/use_example: an RCU-protected `struct foo` with the kernel's RCU, as one thread after the
-- other works on it, and the loading and unloading of the modules, which rcu/toy_impl/sample_use.c
-- shares.
pub mod Updates
pub mod Loading
pub mod Deferred
mod Tests
use kernel_module_memo.Base.{
  ℕ, zero, suc, ◌+◌, ◌-◌, ◌%◌, ◌^◌, Bool, true, false, Option, none, some, List, [], ◌∷◌, ◌++◌,
  if◌then◌else◌,
}
use kernel_module_memo.Kernel.Run.{
  Ret, done, fail, Errno, eperm, Run, ok, oops, Cmd, pure, fault, ◌>>=◌, ◌>>◌,
}
use kernel_module_memo.Kernel.Heap.{Ptr, Heap, put, kmalloc, kfree}

-- `struct foo`
pub record Foo : Type 0 where
  pub a : ℕ
  pub b : ℕ
  pub c : ℕ

pub data Role : Type 0 where
  reader writer : Role

-- The slab heap, `gbl_foo`, the objects that wait for `foo_reclaim`, the threads of the array `k`,
-- and whether the module is loaded.
pub record World : Type 0 where
  pub heap : Heap Foo
  pub gbl_foo : Option Ptr
  pub callbacks : List Ptr
  pub threads : List Role
  pub loaded : Bool

on_heap : {A : Type 0} → Cmd (Heap Foo) A → Cmd World A
on_heap c w = elim (c w.heap) [ oops ↦ oops | ok a h ↦ ok a (record w { heap = h }) ]

-- From `spin_lock` to `spin_unlock` in `foo_update_a`: `*new_fp = *old_fp` of objects that are
-- there.
publish : ℕ → Option Ptr → Option Ptr → Option Foo → Cmd World Ptr
publish new_a (some new_fp) (some old_fp) (some old) w =
    ok old_fp (record w {
      heap = put w.heap new_fp (some (record old { a = new_a }));
      gbl_foo = some new_fp;
    })
publish new_a _ _ _ w = oops

pub old_foo : Heap Foo → Option Ptr → Option Foo
old_foo h none = none
old_foo h (some p) = h.cell p

-- `foo_update_a` up to the grace period; `junk` is in the new object at first.
replace : (granted : Bool) → Foo → ℕ → Cmd World Ptr
unfolding on_heap publish old_foo
replace granted junk new_a = on_heap (kmalloc granted junk) >>= λ new_fp.
    λ w. publish new_a new_fp w.gbl_foo (old_foo w.heap w.gbl_foo) w

-- `foo_update_a` of sample_synchronize_rcu.c, whose `synchronize_rcu` waits for no other thread
-- here.
unfoldable pub update_sync : (granted : Bool) → Foo → ℕ → Cmd World (Unit {0})
unfolding replace on_heap
update_sync granted junk new_a =
    replace granted junk new_a >>= λ old_fp. on_heap (kfree (some old_fp))

-- `foo_update_a` of sample_call_rcu.c
unfoldable pub update_call : (granted : Bool) → Foo → ℕ → Cmd World (Unit {0})
unfolding replace
update_call granted junk new_a = replace granted junk new_a >>= λ old_fp.
    λ w. ok tt (record w { callbacks = w.callbacks ++ (old_fp ∷ []) })

-- `foo_reclaim`
foo_reclaim : Ptr → Cmd World (Unit {0})
unfolding on_heap
foo_reclaim p = on_heap (kfree (some p))

-- The end of a grace period: the kernel runs the first callback, whose code must still be there.
first_callback : List Ptr → Cmd World (Unit {0})
unfolding foo_reclaim
first_callback [] w = ok tt w
first_callback (p ∷ ps) w = if w.loaded then foo_reclaim p (record w { callbacks = ps }) else oops

unfoldable pub grace_period : Cmd World (Unit {0})
unfolding first_callback
grace_period w = first_callback w.callbacks w

-- `foo_get_a`
unfoldable pub foo_get_a : Cmd World ℕ
unfolding old_foo
foo_get_a w = elim (old_foo w.heap w.gbl_foo) [ none ↦ oops | some f ↦ ok f.a w ]

-- One turn of `kthread_writer`, for the number that `get_random_int` gives.
unfoldable pub writer_main : Foo → ℕ → Cmd World (Unit {0})
unfolding update_sync
writer_main junk random = update_sync true junk (random % 100)

-- `kthread_reader`, with the number of its turns until `kthread_should_stop`.
unfoldable pub kthread_reader : ℕ → Cmd World Ret
unfolding foo_get_a
kthread_reader zero = pure (done 0)
kthread_reader (suc n) = foo_get_a >> kthread_reader n

-- `kthread_writer`, whose turns until `kthread_should_stop` get these numbers.
unfoldable pub kthread_writer : Foo → List ℕ → Cmd World Ret
unfolding writer_main
kthread_writer junk [] = pure (done 0)
kthread_writer junk (r ∷ rs) = writer_main junk r >> kthread_writer junk rs

-- `init_foo`
foo_ready : Option Ptr → Foo → Cmd World Ret
foo_ready none junk w = ok (fail eperm) w
foo_ready (some p) junk w =
    ok (done 0) (record w { heap = put w.heap p (some (record junk { a = 5 })); gbl_foo = some p })

unfoldable pub init_foo : Bool → Foo → Cmd World Ret
unfolding on_heap foo_ready
init_foo granted junk =
    on_heap (kmalloc granted junk) >>= λ p. λ w. foo_ready p junk (record w { gbl_foo = p })

-- A loop of `init_kthread`: `IS_ERR(k)` looks at the address of the array and never holds, and
-- behind it `k[i]->pid` of an error pointer is a fault.
unfoldable pub spawn : Role → (ℕ → Bool) → (i n : ℕ) → Cmd World (Unit {0})
spawn role runs i zero w = ok tt w
spawn role runs i (suc n) w =
    let later = spawn role runs (suc i) n (record w { threads = w.threads ++ (role ∷ []) }) in
    if runs i then later else oops

-- `init_kthread`, where `runs i` says whether the `i`-th `kthread_run` succeeds.
unfoldable pub init_kthread : (readers : ℕ) → (ℕ → Bool) → Cmd World Ret
unfolding spawn
init_kthread readers runs =
    spawn reader runs 0 readers >> spawn writer runs readers 1 >> pure (done 0)

-- The `if (err)`s of the init functions; `cleanup` is what stands at the label.
checked : Ret → Cmd World Ret → Cmd World Ret
checked (done v) next = next
checked (fail e) next = pure (fail e)

free_foo : Cmd World (Unit {0})
unfolding on_heap
free_foo w = on_heap (kfree w.gbl_foo) w

pub out : Ret → Cmd World Ret
unfolding free_foo
out (done v) w = ok (done 0) (record w { loaded = true })
out (fail e) w = (free_foo >> pure (fail e)) w

-- `init_sample_` and `init_sample_toy_rcu`
unfoldable pub init_sample : (readers : ℕ) (granted : Bool) → Foo → (ℕ → Bool) → Cmd World Ret
unfolding init_foo init_kthread checked out
init_sample readers granted junk runs =
    init_foo granted junk >>= λ r. checked r (init_kthread readers runs >>= out)

-- `exit_sample_` and `exit_sample_toy_rcu`: `kthread_stop` of every thread waits until it ends.
unfoldable pub exit_sample : Cmd World (Unit {0})
unfolding free_foo
exit_sample =
    (λ w. ok tt (record w { threads = [] }))
    >> free_foo
    >> (λ w. ok tt (record w { loaded = false }))

-- The modules: `init_sample_` of sample_synchronize_rcu.c, and sample_use.c, which starts 2 readers.
abbrev pub num_reader_threads : ℕ
num_reader_threads = 10

abbrev pub init_sample_sync : Bool → Foo → (ℕ → Bool) → Cmd World Ret
init_sample_sync = init_sample num_reader_threads

abbrev pub init_sample_toy_rcu : Bool → Foo → (ℕ → Bool) → Cmd World Ret
init_sample_toy_rcu = init_sample 2

abbrev pub exit_sample_toy_rcu : Cmd World (Unit {0})
exit_sample_toy_rcu = exit_sample
