-- ===== src/Samples/Tests.antt =====
-- The theorems on the samples at a concrete world: one foo at address 3 and another object at 1.
use kernel_module_memo.Base.{
  ◌≡◌, refl, true, false, Option, none, some, List, [], ◌∷◌, arith, ℕ_discrete,
}
use kernel_module_memo.Base.Family.{update}
use kernel_module_memo.Kernel.Run.{Ends, ◌>>◌}
use kernel_module_memo.Kernel.Heap.{Ptr}
use kernel_module_memo.Samples.{Foo, World}
use kernel_module_memo.Samples.Updates.{Holds, written}
use kernel_module_memo.Samples.Deferred.{
  Event, turn, grace, all, free, Defers, numbers, kthread_writer_call, grace_periods,
}
use kernel_module_memo.Samples.Deferred.Reclaim.{deferred_lem}

abbrev foo : Foo
foo = record { a = 5; b = 0; c = 0 }

abbrev others : Ptr → Option Foo
others = update (λ p. none) 1 (some foo)

abbrev world : World
world = record {
  heap = record { next = 4; cell = update others 3 (some foo) };
  gbl_foo = some 3;
  callbacks = [];
  threads = [];
  loaded = true;
}

abbrev empty : World
empty = record {
  heap = record { next = 1; cell = λ p. none };
  gbl_foo = none;
  callbacks = [];
  threads = [];
  loaded = false;
}

-- The object at 2 waits for `foo_reclaim`.
abbrev waiting : World
waiting = record world {
  heap = record { next = 4; cell = update (update others 2 (some foo)) 3 (some foo) };
  callbacks = 2 ∷ [];
}

waiting-Defers : Defers waiting foo others
unfolding ℕ_discrete
waiting-Defers = (
  update others 2 (some foo),
  (3, refl, omega arith, refl, λ q. refl, λ q le. ground arith),
  free {f = foo} refl (all (λ q. ground arith)),
  refl,
)

abbrev events : List Event
events = turn 1042 ∷ turn 8 ∷ grace ∷ grace ∷ turn 7 ∷ []

deferred_lem_example :
    Ends
      (λ _ w'. (w'.callbacks ≡ []) × Holds w' (written foo (numbers events)) others)
      ((kthread_writer_call foo events >> grace_periods) waiting)
deferred_lem_example = deferred_lem foo others events waiting foo waiting-Defers
