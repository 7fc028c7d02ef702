-- ===== src/Samples/Updates.antt =====
-- A writer thread leaks nothing, and readers see its last number.
use kernel_module_memo.Base.{
  ℕ, zero, suc, ◌%◌, ◌≤◌, ◌<◌, ◌≡◌, refl, ap, ◌∙◌, Option, none, some, List, [], ◌∷◌, arith,
}
use kernel_module_memo.Base.Family.{update}
use kernel_module_memo.Kernel.Run.{done, ok, then_run}
use kernel_module_memo.Kernel.Heap.{Ptr}
use kernel_module_memo.Samples.{Foo, World, kthread_reader, foo_get_a}

-- `gbl_foo` points to an object with the value `f`, and all other objects are those of `rest`, which
-- has none at that address or at an unused one.
abbrev pub Holds : World → Foo → (Ptr → Option Foo) → Type 0
Holds w f rest =
    (p : Ptr) × (w.gbl_foo ≡ some p)
    × (p < w.heap.next)
    × (rest p ≡ none)
    × ((q : Ptr) → w.heap.cell q ≡ update rest p (some f) q)
    × ((q : Ptr) → w.heap.next ≤ q → rest q ≡ none)

-- The values that a writer leaves behind.
unfoldable pub written : Foo → List ℕ → Foo
written f [] = f
written f (r ∷ rs) = written (record f { a = r % 100 }) rs

module _ (junk : Foo) where
  get_at :
      (w : World) (p : Ptr) (f : Foo)
      → w.gbl_foo ≡ some p
      → w.heap.cell p ≡ some f
      → foo_get_a w ≡ ok f.a w
  unfolding foo_get_a
  get_at w p f g c = ground arith

  -- A reader thread ends with 0 after any number of turns, and changes nothing.
  pub reader_lem :
      (n : ℕ) (w : World) (f : Foo) (rest : Ptr → Option Foo)
      → Holds w f rest
      → kthread_reader n w ≡ ok (done 0) w
  unfolding kthread_reader
  reader_lem zero w f rest h = refl
  reader_lem (suc n) w f rest (p, g, lt, gone, cells, fresh) =
      let here : w.heap.cell p ≡ some f = ground (arith, cells p) in
      ap (λ r. then_run r (λ _. kthread_reader n)) (get_at w p f g here)
      ∙ reader_lem n w f rest (p, g, lt, gone, cells, fresh)
