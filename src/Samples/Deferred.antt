-- ===== src/Samples/Deferred.antt =====
-- The writer thread of rcu/use_example/sample_call_rcu.c, between whose turns grace periods end: the
-- objects that it replaces wait for `foo_reclaim`.
pub mod Reclaim
use kernel_module_memo.Base.{ℕ, ◌%◌, ◌≡◌, true, Option, none, some, List, [], ◌∷◌}
use kernel_module_memo.Base.Family.{update}
use kernel_module_memo.Kernel.Run.{Ret, done, Cmd, pure, ◌>>◌}
use kernel_module_memo.Kernel.Heap.{Ptr}
use kernel_module_memo.Samples.{Foo, World, update_call, grace_period}
use kernel_module_memo.Samples.Updates.{Holds}

-- A turn of the thread with the number that `get_random_int` gives, or the end of a grace period.
pub data Event : Type 0 where
  turn : (random : ℕ) → Event
  grace : Event

-- One turn of `kthread_writer`
unfoldable pub writer_main_call : Foo → ℕ → Cmd World (Unit {0})
unfolding update_call
writer_main_call junk random = update_call true junk (random % 100)

unfoldable pub event : Foo → Event → Cmd World (Unit {0})
unfolding writer_main_call grace_period
event junk (turn random) = writer_main_call junk random
event junk grace = grace_period

-- `kthread_writer`, from start to `kthread_should_stop`
unfoldable pub kthread_writer_call : Foo → List Event → Cmd World Ret
unfolding event
kthread_writer_call junk [] = pure (done 0)
kthread_writer_call junk (e ∷ es) = event junk e >> kthread_writer_call junk es

-- A grace period for each callback that is left.
unfoldable pub drain : List Ptr → Cmd World (Unit {0})
unfolding grace_period
drain [] = pure tt
drain (p ∷ ps) = grace_period >> drain ps

unfoldable pub grace_periods : Cmd World (Unit {0})
unfolding drain
grace_periods w = drain w.callbacks w

unfoldable pub numbers : List Event → List ℕ
numbers [] = []
numbers (turn random ∷ es) = random ∷ numbers es
numbers (grace ∷ es) = numbers es

-- Freeing the objects of the list, in its order, leads from the first objects to the second.
pub data Frees : List Ptr → (Ptr → Option Foo) → (Ptr → Option Foo) → Type 0 where
  all : {o o' : Ptr → Option Foo} → ((q : Ptr) → o q ≡ o' q) → Frees [] o o'
  free :
      {p : Ptr} {ps : List Ptr} {o o' : Ptr → Option Foo} {f : Foo}
      → o p ≡ some f
      → Frees ps (update o p none) o'
      → Frees (p ∷ ps) o o'

-- As `Holds`, and the objects that are neither published nor among `rest` wait for `foo_reclaim`.
abbrev pub Defers : World → Foo → (Ptr → Option Foo) → Type 0
Defers w f rest =
    (o : Ptr → Option Foo) × Holds w f o × Frees w.callbacks o rest × (w.loaded ≡ true)
