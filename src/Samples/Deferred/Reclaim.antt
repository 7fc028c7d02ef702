-- ===== src/Samples/Deferred/Reclaim.antt =====
-- What the writer thread of rcu/use_example/sample_call_rcu.c and the callbacks leave of the
-- objects.
use mathlib.Core.Path.{subst}
use kernel_module_memo.Base.{
  ℕ, suc, ◌%◌, ◌<◌, ◌≡◌, refl, ◌⊎◌, inl, inr, ◌∙◌, true, Option, none, some, List, [], ◌∷◌, ◌++◌,
  arith,
}
use kernel_module_memo.Base.Family.{update}
use kernel_module_memo.Kernel.Run.{done, ok, Ends, Ends-map, then_run-Ends, ◌>>◌}
use kernel_module_memo.Kernel.Heap.{Ptr, put}
use kernel_module_memo.Samples.{Foo, World, update_call, grace_period}
use kernel_module_memo.Samples.Updates.{Holds, written}
use kernel_module_memo.Samples.Deferred.{
  Event, turn, grace, Frees, all, free, Defers, event, drain, grace_periods, numbers,
  writer_main_call, kthread_writer_call,
}

Frees-cong :
    {ps : List Ptr} {o o₁ o' : Ptr → Option Foo}
    → Frees ps o o'
    → ((q : Ptr) → o₁ q ≡ o q)
    → Frees ps o₁ o'
Frees-cong (all h) e = all (λ q. e q ∙ h q)
Frees-cong (free {p} at more) e = free (e p ∙ at) (Frees-cong more (λ q. ground (arith, e q)))

-- One more object, at an address that is not in use, is freed last.
Frees-snoc :
    {ps : List Ptr} {o o' : Ptr → Option Foo} (p : Ptr) (f : Foo)
    → Frees ps o o'
    → o p ≡ none
    → Frees (ps ++ (p ∷ [])) (update o p (some f)) o'
Frees-snoc p f (all h) e = free {f = f} (ground arith) (all (λ q. ground (arith, h q, e)))
Frees-snoc p f (free {p = c} {f = g} at more) e =
    free {f = g} (ground arith)
      (Frees-cong (Frees-snoc p f more (ground arith)) (λ q. ground arith))

module _ (junk : Foo) where
  update_call_at :
      (w : World) (p : Ptr) (f : Foo) (v : ℕ)
      → w.gbl_foo ≡ some p
      → w.heap.cell p ≡ some f
      → p < w.heap.next
      → update_call true junk v w
        ≡ ok tt (record w {
          heap = record {
            next = suc w.heap.next;
            cell =
                update
                  (update w.heap.cell w.heap.next (some junk))
                  w.heap.next
                  (some (record f { a = v }));
          };
          gbl_foo = some w.heap.next;
          callbacks = w.callbacks ++ (p ∷ []);
        })
  unfolding update_call
  update_call_at w p f v g c lt = ground arith

  turn-Defers :
      (w : World) (f : Foo) (rest : Ptr → Option Foo) (v : ℕ)
      → Defers w f rest
      → Ends (λ _ w'. Defers w' (record f { a = v }) rest) (update_call true junk v w)
  turn-Defers w f rest v (o, (p, g, lt, gone, cells, fresh), frees, l) =
      let here : w.heap.cell p ≡ some f = ground (arith, cells p) in
      rw (update_call_at w p f v g here lt) (
        update o p (some f),
        (
          w.heap.next,
          refl,
          omega arith,
          ground (arith, fresh w.heap.next),
          λ q. ground (arith, cells q, cells w.heap.next, fresh w.heap.next),
          λ q le. ground (arith, fresh q),
        ),
        Frees-snoc p f frees gone,
        l,
      )

grace_at :
    (w : World) (p : Ptr) (ps : List Ptr) (f : Foo)
    → w.callbacks ≡ p ∷ ps
    → w.heap.cell p ≡ some f
    → w.loaded ≡ true
    → grace_period w ≡ ok tt (record w { heap = put w.heap p none; callbacks = ps })
unfolding grace_period
grace_at w p ps f c h l = ground arith

grace-none : (w : World) → w.callbacks ≡ [] → grace_period w ≡ ok tt w
unfolding grace_period
grace-none w c = rw c refl

-- The first callback frees an object that nobody can reach, and the others wait on.
pub grace-Defers :
    (w : World) (f : Foo) (rest : Ptr → Option Foo) (p : Ptr) (ps : List Ptr)
    → Defers w f rest
    → w.callbacks ≡ p ∷ ps
    → Ends (λ _ w'. (w'.callbacks ≡ ps) × Defers w' f rest) (grace_period w)
grace-Defers w f rest p ps (o, (n, g, lt, gone, cells, fresh), frees, l) c =
    go (subst (λ cs. Frees cs o rest) c frees)
  where
    go :
        Frees (p ∷ ps) o rest
        → Ends (λ _ w'. (w'.callbacks ≡ ps) × Defers w' f rest) (grace_period w)
    go (free {f = d} at more) =
        let here : w.heap.cell p ≡ some d = ground (arith, cells p, at, gone) in
        rw (grace_at w p ps d c here l) (
          refl,
          (
            update o p none,
            (
              n,
              g,
              lt,
              ground arith,
              λ q. ground (arith, cells q, at, gone),
              λ q le. ground (arith, fresh q),
            ),
            more,
            l,
          ),
        )

callbacks-cases : (ps : List Ptr) → (ps ≡ []) ⊎ ((p : Ptr) × (qs : List Ptr) × (ps ≡ p ∷ qs))
callbacks-cases [] = inl refl
callbacks-cases (p ∷ qs) = inr (p, qs, refl)

grace_any-Defers :
    (w : World) (f : Foo) (rest : Ptr → Option Foo)
    → Defers w f rest
    → Ends (λ _ w'. Defers w' f rest) (grace_period w)
grace_any-Defers w f rest h = elim (callbacks-cases w.callbacks) [
  | inl e ↦ rw (grace-none w e) h
  | inr c ↦
      Ends-map (λ _ w'. (w'.callbacks ≡ c.1) × Defers w' f rest) (λ _ w'. Defers w' f rest)
        (grace_period w) (λ u w' d. d.1) (grace-Defers w f rest c.0 c.1 h c.2)
]

drain-Defers :
    (ps : List Ptr) (w : World) (f : Foo) (rest : Ptr → Option Foo)
    → Defers w f rest
    → w.callbacks ≡ ps
    → Ends (λ _ w'. (w'.callbacks ≡ []) × Defers w' f rest) (drain ps w)
unfolding drain
drain-Defers [] w f rest h c = (c, h)
drain-Defers (p ∷ ps) w f rest h c =
    then_run-Ends (λ _ w'. (w'.callbacks ≡ ps) × Defers w' f rest) _ (grace_period w)
      (λ _. drain ps) (grace-Defers w f rest p ps h c) (λ u w' d. drain-Defers ps w' f rest d.1 d.0)

-- Nothing waits any more: the objects are the published one and the rest.
drained-Holds :
    (w : World) (f : Foo) (rest : Ptr → Option Foo)
    → w.callbacks ≡ []
    → Defers w f rest
    → Holds w f rest
drained-Holds w f rest c (o, (p, g, lt, gone, cells, fresh), frees, l) =
    go (subst (λ cs. Frees cs o rest) c frees)
  where
    go : Frees [] o rest → Holds w f rest
    go (all same) = (
      p,
      g,
      lt,
      ground (arith, same p, gone),
      λ q. ground (arith, cells q, same q),
      λ q le. ground (arith, fresh q, same q),
    )

module _ (junk : Foo) (rest : Ptr → Option Foo) where
  events-Defers :
      (es : List Event) (w : World) (f : Foo)
      → Defers w f rest
      → Ends
          (λ r w'. (r ≡ done 0) × Defers w' (written f (numbers es)) rest)
          (kthread_writer_call junk es w)
  unfolding kthread_writer_call event writer_main_call written numbers
  events-Defers [] w f h = (refl, h)
  events-Defers (turn r ∷ es) w f h =
      then_run-Ends (λ _ w'. Defers w' (record f { a = r % 100 }) rest) _
        (update_call true junk (r % 100) w) (λ _. kthread_writer_call junk es)
        (turn-Defers junk w f rest (r % 100) h)
        (λ u w' h'. events-Defers es w' (record f { a = r % 100 }) h')
  events-Defers (grace ∷ es) w f h =
      then_run-Ends (λ _ w'. Defers w' f rest) _ (grace_period w) (λ _. kthread_writer_call junk es)
        (grace_any-Defers w f rest h) (λ u w' h'. events-Defers es w' f h')

  -- The writer thread of the loaded call_rcu module, with grace periods that end anywhere between
  -- its turns and with every allocation granted, ends without a fault, from any state in which each
  -- object is published, waits for `foo_reclaim`, or is one of `rest`. Behind a grace period for
  -- each callback that is left then, no callback waits, `gbl_foo` points to an object with the last
  -- number modulo 100 (the old value, if there was none) and with `b` and `c` as before, and all
  -- other objects are those of `rest`: each replaced one has been freed, once.
  pub deferred_lem :
      (es : List Event) (w : World) (f : Foo)
      → Defers w f rest
      → Ends
          (λ _ w'. (w'.callbacks ≡ []) × Holds w' (written f (numbers es)) rest)
          ((kthread_writer_call junk es >> grace_periods) w)
  unfolding grace_periods
  deferred_lem es w f h =
      then_run-Ends (λ r w'. (r ≡ done 0) × Defers w' (written f (numbers es)) rest) _
        (kthread_writer_call junk es w) (λ _. grace_periods) (events-Defers es w f h)
        (λ r w' d.
          Ends-map _ _ (drain w'.callbacks w')
            (λ u v e. (e.0, drained-Holds v (written f (numbers es)) rest e.0 e.1))
            (drain-Defers w'.callbacks w' (written f (numbers es)) rest d.1 refl))
